-- ===== src/Paging/Page.antt =====
-- The second half of `map_page`: writing the entry of a page into its table.
use owmice.Base.{
  ℕ, ◌+◌, ◌*◌, ◌/◌, ◌%◌, ◌^◌, ◌<◌, ◌≡◌, ◌≢◌, inl, inr, arith, refl, ◌∙◌, some, ◌==◌, ◌&&◌,
  if◌then◌else◌, Bool-cases, ==→eq, ==→ne, ne→==, ==-refl,
}
use owmice.Memory.{Memory, load32, store32}
use owmice.Paging.{Paging, set_page, make_entry}
use owmice.Paging.Entry.{
  pagedir_idx_lem, pagetable_idx_lem, page_addr_lem, IsEntry, make_entry-IsEntry,
}
use owmice.Paging.Walk.{
  word, frame_of, dir_index, table_index, translate, word-store32, IsMapped, same_page,
}

module _ (s : Paging) (phys virt : ℕ) (is : IsMapped s)
    (present : word s.memory s.dir_current (dir_index virt) % 2 ≡ 1) (phys_small : phys < 2 ^ 31)
    (phys_aligned : phys % 4096 ≡ 0) where
  abbrev pub i : ℕ
  i = dir_index virt

  abbrev pub k : ℕ
  k = table_index virt

  abbrev pub pde : ℕ → ℕ
  pde = word s.memory s.dir_current

  abbrev pub table : ℕ
  table = frame_of (pde i)

  abbrev pub entry : ℕ
  entry = make_entry (word s.memory table k) phys

  entry-IsEntry : IsEntry entry phys
  entry-IsEntry =
      make_entry-IsEntry (word s.memory table k) phys
        (is.pages i k (omega arith) (omega arith) present) phys_small phys_aligned

  abbrev pub written : Memory
  written = store32 s.memory (table + 4 * k) entry

  pub set_page_lem : set_page s phys virt ≡ record s { memory = written }
  unfolding set_page word
  set_page_lem =
      let low = is.low i (omega arith) in
      rw
        (
          pagedir_idx_lem virt,
          pagetable_idx_lem virt,
          page_addr_lem (load32 s.memory (s.dir_current + 4 * i)) (omega arith),
        )
        refl

  -- The word of any table, and of the directory, afterwards.
  word-written :
      (t' k' : ℕ)
      → t' % 4096 ≡ 0
      → k' < 1024
      → word written t' k' ≡ (if table == t' && k == k' then entry else word s.memory t' k')
  word-written t' k' ht hk =
      let bounded = entry-IsEntry.bounded in
      word-store32 s.memory table k entry t' k' (omega arith) ht (omega arith) hk (omega arith)

  dir-written : (j : ℕ) → j < 1024 → word written s.dir_current j ≡ pde j
  dir-written j hj =
      let other = ne→== _ _ (is.apart i (omega arith) present) in
      word-written s.dir_current j is.aligned hj ∙ rw other refl

  -- Table `j` is the one that was written exactly if `j` is the page's index.
  same_table : (j : ℕ) → j < 1024 → pde j % 2 ≡ 1 → (table == frame_of (pde j)) ≡ (i == j)
  same_table j hj hp = elim (Bool-cases (i == j)) [
    | inl e ↦ rw e (rw (==→eq _ _ e) (==-refl _))
    | inr e ↦
        let apart = ==→ne _ _ e in
        rw e (ne→== _ _ (λ same. apart (is.distinct i j (omega arith) hj present hp same)))
  ]

  table-written :
      (j k' : ℕ)
      → j < 1024
      → k' < 1024
      → pde j % 2 ≡ 1
      → word written (frame_of (pde j)) k'
        ≡ (if i == j && k == k' then entry else word s.memory (frame_of (pde j)) k')
  table-written j k' hj hk hp =
      word-written (frame_of (pde j)) k' (omega arith) hk ∙ rw (same_table j hj hp) refl

  pub written-IsMapped : IsMapped (record s { memory = written })
  written-IsMapped =
      let bounded = entry-IsEntry.bounded in
      record {
        aligned = is.aligned;
        low = λ j hj. rw (dir-written j hj) (is.low j hj);
        empty = λ j hj. rw (dir-written j hj) (is.empty j hj);
        apart = λ j hj. rw (dir-written j hj) (is.apart j hj);
        distinct = λ a b ha hb. rw (dir-written a ha, dir-written b hb) (is.distinct a b ha hb);
        pages = λ j k' hj hk. rw (dir-written j hj) (λ hp.
            rw (table-written j k' hj hk hp) (elim (Bool-cases (i == j && k == k')) [
              | inl e ↦ rw e bounded
              | inr e ↦ rw e (is.pages j k' hj hk hp)
            ]));
        in_use = λ j hj. rw (dir-written j hj) (is.in_use j hj);
        dir_in_use = is.dir_in_use;
        few = is.few;
      }

  -- Afterwards the page leads to its frame, and every other page where it led before.
  pub translate-written :
      (v : ℕ)
      → v < 2 ^ 32
      → virt < 2 ^ 32
      → translate written s.dir_current v ≡ (
          if virt / 4096 == v / 4096
          then some (phys + v % 4096)
          else translate s.memory s.dir_current v)
  translate-written v hv hvirt =
      let j = dir_index v in
      rw (dir-written j (omega arith), same_page virt v hvirt hv)
        (elim (Bool-cases (pde j % 2 == 1)) [
          | inr absent ↦
              let differs : i ≢ j = λ e. ==→ne _ _ absent (rw e at present) in
              rw (absent, ne→== _ _ differs) refl
          | inl there ↦
              let here =
                table-written j (table_index v) (omega arith) (omega arith) (==→eq _ _ there) in
              rw (here, there)
                (elim (Bool-cases (i == j && k == table_index v)) [
                  | inl e ↦ rw (e, entry-IsEntry.present, entry-IsEntry.framed) refl
                  | inr e ↦ rw e refl
                ])
        ])
