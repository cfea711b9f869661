-- ===== src/Paging/Fresh.antt =====
-- The first half of `map_page`: a cleared table where the directory has none.
use owmice.Base.{
  ℕ, ◌+◌, ◌*◌, ◌/◌, ◌%◌, ◌^◌, ◌<◌, ◌≡◌, ◌≢◌, inl, inr, arith, refl, sym, ◌∙◌, true, ◌==◌, ◌&&◌,
  if◌then◌else◌, Bool-cases, ==→eq, ==→ne, ne→==, ==-refl, done,
}
use owmice.Memory.{Memory, store32}
use owmice.Bytes.{memset}
use owmice.Frames.{Frames, bit_test}
use owmice.Frames.Single.{Allocated}
use owmice.Paging.{Paging}
use owmice.Paging.Walk.{
  word, frame_of, dir_index, table_index, translate, word-store32, word-memset, IsMapped,
}

module _ (s : Paging) (virt : ℕ) (is : IsMapped s)
    (absent : word s.memory s.dir_current (dir_index virt) % 2 ≡ 0) (t : ℕ) (g : Frames)
    (allocated : Allocated s.frames (done (t, g))) where
  abbrev pub i : ℕ
  i = dir_index virt

  abbrev pub pde : ℕ → ℕ
  pde = word s.memory s.dir_current

  abbrev pub linked : Memory
  linked = store32 (memset s.memory t 0 4096) (s.dir_current + 4 * i) (t + 3)

  pub t_bounds : (t % 4096 ≡ 0) × (t < 2 ^ 31)
  t_bounds = let searched = allocated.2 in let few = is.few in (allocated.1, omega arith)

  -- The new frame was free, so it is none that the directory uses.
  pub not_dir : t ≢ s.dir_current
  not_dir e = let free = allocated.3 in let used = is.dir_in_use in cc (rw e at free)

  not_table : (j : ℕ) → j < 1024 → pde j % 2 ≡ 1 → t ≢ frame_of (pde j)
  not_table j hj hp e =
      let free = allocated.3 in
      let used = is.in_use j hj hp in
      let same : t / 4096 ≡ pde j / 4096 = omega arith in cc (rw same at free)

  word-linked :
      (t' k' : ℕ)
      → t' % 4096 ≡ 0
      → k' < 1024
      → word linked t' k' ≡ (
          if s.dir_current == t' && i == k'
          then t + 3
          else if t == t'
          then 0
          else word s.memory t' k')
  word-linked t' k' ht hk =
      let (aligned, small) = t_bounds in
      word-store32 (memset s.memory t 0 4096) s.dir_current i (t + 3) t' k' is.aligned ht
        (omega arith) hk (omega arith)
      ∙ rw (word-memset s.memory t t' k' aligned ht hk) refl

  dir-linked : (j : ℕ) → j < 1024 → word linked s.dir_current j ≡ (if i == j then t + 3 else pde j)
  dir-linked j hj =
      word-linked s.dir_current j is.aligned hj ∙ rw (==-refl s.dir_current, ne→== _ _ not_dir) refl

  -- The words of a table that was there, and of the new one.
  old-linked :
      (j k' : ℕ)
      → j < 1024
      → k' < 1024
      → pde j % 2 ≡ 1
      → word linked (frame_of (pde j)) k' ≡ word s.memory (frame_of (pde j)) k'
  old-linked j k' hj hk hp =
      let apart : s.dir_current ≢ frame_of (pde j) = λ e. is.apart j hj hp (sym e) in
      word-linked (frame_of (pde j)) k' (omega arith) hk
      ∙ rw (ne→== _ _ apart, ne→== _ _ (not_table j hj hp)) refl

  new-linked : (k' : ℕ) → k' < 1024 → word linked (frame_of (t + 3)) k' ≡ 0
  new-linked k' hk =
      let (aligned, small) = t_bounds in
      let frame : (t + 3) / 4096 * 4096 ≡ t = omega arith in
      let apart : s.dir_current ≢ t = λ e. not_dir (sym e) in
      rw frame (word-linked t k' aligned hk ∙ rw (ne→== _ _ apart, ==-refl t) refl)

  abbrev pub fresh : Paging
  fresh = record s { frames = g; memory = linked }

  -- An index is the new one, or one whose entry is as before.
  at_index :
      (P : ℕ → Type 0) (j : ℕ)
      → j < 1024
      → (i ≡ j → P (t + 3))
      → (i ≢ j → P (pde j))
      → P (word linked s.dir_current j)
  at_index P j hj new old = rw (dir-linked j hj) (elim (Bool-cases (i == j)) [
    | inl e ↦ rw e (new (==→eq _ _ e))
    | inr e ↦ rw e (old (==→ne _ _ e))
  ])

  marked :
      (c : ℕ)
      → bit_test g.memory_map c ≡ (if t / 4096 == c then true else bit_test s.frames.memory_map c)
  marked = allocated.4

  kept : (c : ℕ) → bit_test s.frames.memory_map c ≡ true → bit_test g.memory_map c ≡ true
  kept c h =
      rw (marked c, h) (elim (Bool-cases (t / 4096 == c)) [ inl e ↦ rw e refl | inr e ↦ rw e refl ])

  pub fresh-present : word linked s.dir_current i % 2 ≡ 1
  fresh-present =
      let (aligned, small) = t_bounds in rw (dir-linked i (omega arith), ==-refl i) (omega arith)

  -- No address leads elsewhere than before.
  pub translate-linked :
      (v : ℕ) → v < 2 ^ 32 → translate linked s.dir_current v ≡ translate s.memory s.dir_current v
  translate-linked v hv =
      let j = dir_index v in
      rw (dir-linked j (omega arith)) (elim (Bool-cases (i == j)) [
        | inl e ↦
            let (aligned, small) = t_bounds in
            let odd : (t + 3) % 2 ≡ 1 = omega arith in
            let even : pde j % 2 ≡ 0 = rw (==→eq _ _ e) at absent in
            rw (e, odd, even, new-linked (table_index v) (omega arith)) refl
        | inr e ↦ rw e (elim (Bool-cases (pde j % 2 == 1)) [
          | inl there ↦
              rw (there, old-linked j (table_index v) (omega arith) (omega arith) (==→eq _ _ there))
                refl
          | inr gone ↦ rw gone refl
        ])
      ])

  pub fresh-IsMapped : IsMapped fresh
  fresh-IsMapped =
      let (aligned, small) = t_bounds in
      let same_max = allocated.7 in
      let frame : (t + 3) / 4096 * 4096 ≡ t = omega arith in
      let number : (t + 3) / 4096 ≡ t / 4096 = omega arith in
      record {
        aligned = is.aligned;
        low = λ j hj. at_index (λ e. e < 2 ^ 31) j hj (λ _. omega arith) (λ _. is.low j hj);
        empty = λ j hj.
            at_index (λ e. e % 2 ≡ 0 → e ≡ 0) j hj (λ _ h. absurd (omega arith))
              (λ _. is.empty j hj);
        apart = λ j hj.
            at_index (λ e. e % 2 ≡ 1 → frame_of e ≢ s.dir_current) j hj (λ _ _. rw frame not_dir)
              (λ _. is.apart j hj);
        distinct = λ a b ha hb.
            at_index
              (λ e.
                e % 2 ≡ 1
                → word linked s.dir_current b % 2 ≡ 1
                → frame_of e ≡ frame_of (word linked s.dir_current b)
                → a ≡ b)
              a ha
              (λ ia.
                at_index (λ e. (t + 3) % 2 ≡ 1 → e % 2 ≡ 1 → frame_of (t + 3) ≡ frame_of e → a ≡ b)
                  b hb (λ ib _ _ _. sym ia ∙ ib)
                  (λ _ _ hp same. absurd (not_table b hb hp (sym frame ∙ same))))
              (λ _.
                at_index (λ e. pde a % 2 ≡ 1 → e % 2 ≡ 1 → frame_of (pde a) ≡ frame_of e → a ≡ b) b
                  hb (λ _ hp _ same. absurd (not_table a ha hp (sym (same ∙ frame))))
                  (λ _. is.distinct a b ha hb));
        pages = λ j k' hj hk.
            at_index (λ e. e % 2 ≡ 1 → word linked (frame_of e) k' < 2 ^ 31) j hj
              (λ _ _. rw (new-linked k' hk) (omega arith))
              (λ _ hp. rw (old-linked j k' hj hk hp) (is.pages j k' hj hk hp));
        in_use = λ j hj.
            at_index (λ e. e % 2 ≡ 1 → bit_test g.memory_map (e / 4096) ≡ true) j hj
              (λ _ _. rw (number, marked (t / 4096), ==-refl (t / 4096)) refl)
              (λ _ hp. kept (pde j / 4096) (is.in_use j hj hp));
        dir_in_use = kept (s.dir_current / 4096) is.dir_in_use;
        few = rw same_max is.few;
      }
