-- ===== src/Heap/Take.antt =====
-- Taking one chunk of a block: what `take_chunk` leaves in memory.
use owmice.Base.{
  ℕ, ◌+◌, ◌-◌, ◌^◌, ◌<◌, ◌≤◌, ◌≡◌, ◌⊎◌, inl, inr, true, false, [], arith, refl, ap, ◌∙◌, ltb,
  ltb→lt, if◌then◌else◌, Bool-cases, bit_or,
}
use owmice.Bits.{bit_or_top, bit_or_comm}
use owmice.Memory.{Memory, load32, store32}
use owmice.Memory.Word.{load32-store32_self, load32-store32_ne}
use owmice.Heap.{
  Heap, State, header_size, u32, sub32, used_at, flagsize_at, prevsize_at, charge, take_chunk,
  split_chunk, mark_used,
}
use owmice.Heap.Layout.{Chunk, Chunks}
use owmice.Heap.Fit.{splits, taken}

-- Words that lie before the flag of the header `hdr`, or behind the end `stop` of its chunk.
abbrev pub Outside : ℕ → ℕ → ℕ → Type 0
Outside hdr stop b = (b + 4 ≤ flagsize_at hdr) ⊎ (stop ≤ b)

-- Words apart from the `used` field of the block `hb`.
abbrev pub NotUsed : ℕ → ℕ → Type 0
NotUsed hb b = (b + 4 ≤ used_at hb) ⊎ (used_at hb + 4 ≤ b)

-- The kernel's counters with `n` more bytes in use.
abbrev pub counted : State → ℕ → Heap
counted s n = record (s.heap) { mem_in_use = u32 (s.heap.mem_in_use + n) }

module _ (s : State) (hb : ℕ) where
  load32-charge_ne : (n b : ℕ) → NotUsed hb b → load32 (charge s hb n).memory b ≡ load32 s.memory b
  unfolding charge
  load32-charge_ne n b h =
      ground
        (arith, load32-store32_ne s.memory (used_at hb) (u32 (load32 s.memory (used_at hb) + n)) b)

  load32-charge :
      (n : ℕ) → load32 (charge s hb n).memory (used_at hb) ≡ u32 (load32 s.memory (used_at hb) + n)
  unfolding charge
  load32-charge n =
      load32-store32_self s.memory (used_at hb) (u32 (load32 s.memory (used_at hb) + n))
        (omega arith)

  heap-charge : (n : ℕ) → (charge s hb n).heap ≡ counted s n
  unfolding charge
  heap-charge n = refl

  heap-charge-charge : (n k : ℕ) → (charge (charge s hb n) hb k).heap ≡ counted s (n + k)
  unfolding charge
  heap-charge-charge n k = ap (λ (t : ℕ). record (s.heap) { mem_in_use = t }) (omega arith)

-- The bytes by which the counters grow.
abbrev pub cost : ℕ → Chunk → ℕ
cost size c = if splits size c then header_size + size else size

-- What taking the chunk `c` at `hdr` leaves, `stop` being the end of the chunk.
pub record IsTaken (s : State) (hb hdr size : ℕ) (c : Chunk) (t : State) : Type 0 where
  pub elsewhere :
      (b : ℕ)
      → Outside hdr (hdr + header_size + c.sz) b
      → NotUsed hb b
      → load32 t.memory b ≡ load32 s.memory b
  pub here : Chunks t.memory hdr (taken size c []) (hdr + header_size + c.sz)
  pub used : load32 t.memory (used_at hb) ≡ u32 (load32 s.memory (used_at hb) + cost size c)
  pub counters : t.heap ≡ counted s (cost size c)

module _ (s : State) (hb hdr size : ℕ) (c : Chunk) (free : c.used ≡ false) (enough : size ≤ c.sz)
    (small : c.sz < 2 ^ 31) (word : load32 s.memory (flagsize_at hdr) ≡ c.sz)
    (inside : hdr + header_size + c.sz < 2 ^ 32) (above : hb + 8 ≤ hdr) where
  mark_used_flag : load32 (mark_used s.memory hdr) (flagsize_at hdr) ≡ 2 ^ 31 + c.sz
  unfolding mark_used
  mark_used_flag =
      let flag : bit_or (load32 s.memory (flagsize_at hdr)) 0x80000000 ≡ 2 ^ 31 + c.sz =
        rw (word, bit_or_comm 32 c.sz 0x80000000 (omega arith) (omega arith))
          (bit_or_top c.sz small) in
      rw flag (load32-store32_self s.memory (flagsize_at hdr) (2 ^ 31 + c.sz) (omega arith))

  mark_used_elsewhere :
      (b : ℕ)
      → Outside hdr (hdr + header_size + c.sz) b
      → load32 (mark_used s.memory hdr) b ≡ load32 s.memory b
  unfolding mark_used
  mark_used_elsewhere b out =
      load32-store32_ne s.memory (flagsize_at hdr)
        (bit_or (load32 s.memory (flagsize_at hdr)) 0x80000000) b (ground arith)

  mark_used_counter : load32 (mark_used s.memory hdr) (used_at hb) ≡ load32 s.memory (used_at hb)
  mark_used_counter = mark_used_elsewhere (used_at hb) (inl (omega arith))

  take_whole : splits size c ≡ false → IsTaken s hb hdr size c (take_chunk s hb hdr c.sz size)
  unfolding take_chunk
  take_whole e =
      let test : ltb (u32 (size + header_size + 16)) c.sz ≡ false = ground arith in
      let t = record s { memory = mark_used s.memory hdr } in
      rw test (record {
        elsewhere = λ b out apart. load32-charge_ne t hb size b apart ∙ mark_used_elsewhere b out;
        here = rw e (
          small,
          load32-charge_ne t hb size (flagsize_at hdr) (omega arith) ∙ mark_used_flag,
          refl,
        );
        used = rw e (load32-charge t hb size ∙ ap (λ (n : ℕ). u32 (n + size)) mark_used_counter);
        counters = rw e (heap-charge t hb size);
      })

  module _ (e : splits size c ≡ true) where
    rest_address : u32 (hdr + header_size + size) ≡ hdr + header_size + size
    rest_address = ground arith

    rest_size : sub32 c.sz (u32 (size + header_size)) ≡ c.sz - (size + header_size)
    rest_size = ground arith

    abbrev with_rest : Memory
    with_rest =
        store32 s.memory (flagsize_at (hdr + header_size + size)) (c.sz - (size + header_size))

    abbrev with_prevsize : Memory
    with_prevsize = store32 with_rest (prevsize_at (hdr + header_size + size)) size

    split_chunk_lem :
        split_chunk s.memory hdr c.sz size ≡ store32 with_prevsize (flagsize_at hdr) (2 ^ 31 + size)
    unfolding split_chunk
    split_chunk_lem = rw (rest_address, rest_size, bit_or_top size (omega arith))

    split_flag : load32 (split_chunk s.memory hdr c.sz size) (flagsize_at hdr) ≡ 2 ^ 31 + size
    split_flag =
        rw split_chunk_lem
          (load32-store32_self with_prevsize (flagsize_at hdr) (2 ^ 31 + size) (omega arith))

    split_rest :
        load32 (split_chunk s.memory hdr c.sz size) (flagsize_at (hdr + header_size + size))
        ≡ c.sz - (size + header_size)
    split_rest = rw split_chunk_lem (
        load32-store32_ne with_prevsize (flagsize_at hdr) (2 ^ 31 + size)
          (flagsize_at (hdr + header_size + size)) (omega arith)
        ∙ load32-store32_ne with_rest (prevsize_at (hdr + header_size + size)) size
            (flagsize_at (hdr + header_size + size)) (omega arith)
        ∙ load32-store32_self s.memory (flagsize_at (hdr + header_size + size))
            (c.sz - (size + header_size)) (omega arith))

    split_elsewhere :
        (b : ℕ)
        → Outside hdr (hdr + header_size + c.sz) b
        → load32 (split_chunk s.memory hdr c.sz size) b ≡ load32 s.memory b
    split_elsewhere b out =
        let room : size + header_size + 16 < c.sz = ltb→lt _ _ e in
        rw split_chunk_lem (
          load32-store32_ne with_prevsize (flagsize_at hdr) (2 ^ 31 + size) b (ground arith)
          ∙ load32-store32_ne with_rest (prevsize_at (hdr + header_size + size)) size b
              (ground arith)
          ∙ load32-store32_ne s.memory (flagsize_at (hdr + header_size + size))
              (c.sz - (size + header_size)) b (ground arith))

    split_counter :
        load32 (split_chunk s.memory hdr c.sz size) (used_at hb) ≡ load32 s.memory (used_at hb)
    split_counter = split_elsewhere (used_at hb) (inl (omega arith))

    take_split : IsTaken s hb hdr size c (take_chunk s hb hdr c.sz size)
    unfolding take_chunk
    take_split =
        let room : size + header_size + 16 < c.sz = ltb→lt _ _ e in
        let test : ltb (u32 (size + header_size + 16)) c.sz ≡ true = ground arith in
        let t = record s { memory = split_chunk s.memory hdr c.sz size } in
        let u = charge t hb header_size in
        let twice = λ (b : ℕ) (apart : NotUsed hb b).
          load32-charge_ne u hb size b apart ∙ load32-charge_ne t hb header_size b apart in
        rw test (record {
          elsewhere = λ b out apart. twice b apart ∙ split_elsewhere b out;
          here = rw e (
            omega arith,
            twice (flagsize_at hdr) (omega arith) ∙ split_flag,
            (
              omega arith,
              twice (flagsize_at (hdr + header_size + size)) (omega arith) ∙ split_rest,
              omega arith,
            ),
          );
          used = rw e (
              omega
                (arith, load32-charge u hb size, load32-charge t hb header_size, split_counter));
          counters = rw e (heap-charge-charge t hb header_size size);
        })

  -- Taking a free chunk that is large enough.
  pub take_chunk-IsTaken : IsTaken s hb hdr size c (take_chunk s hb hdr c.sz size)
  take_chunk-IsTaken = elim (Bool-cases (splits size c)) [
    | inl e ↦ take_split e
    | inr e ↦ take_whole e
  ]
