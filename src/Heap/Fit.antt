-- ===== src/Heap/Fit.antt =====
-- The allocation policy, on the list of chunks of a block: first fit, with a split when more than 24
-- bytes would be left over.
use owmice.Base.{
  ℕ, ◌+◌, ◌-◌, ◌≤◌, ◌≡◌, Bool, true, false, not, ◌&&◌, Option, none, some, List, [], ◌∷◌, arith,
  ltb, leb, if◌then◌else◌, Bool-cases, Option-cases, inl, inr,
}
use owmice.Heap.{header_size}
use owmice.Heap.Layout.{Chunk, chunk, extent}

abbrev pub fits : ℕ → Chunk → Bool
fits size c = not c.used && leb size c.sz

abbrev pub splits : ℕ → Chunk → Bool
splits size c = ltb (size + header_size + 16) c.sz

-- What becomes of the chunk that is taken, in front of the chunks `cs`.
abbrev pub taken : ℕ → Chunk → List Chunk → List Chunk
taken size c cs =
    if splits size c
    then chunk size true ∷ chunk (c.sz - (size + header_size)) false ∷ cs
    else chunk c.sz true ∷ cs

-- The offset of the header of the first chunk that fits, and the chunks after it is taken.
unfoldable pub place : ℕ → List Chunk → Option (ℕ × List Chunk)
place size [] = none
place size (c ∷ cs) =
    if fits size c
    then some (0, taken size c cs)
    else elim (place size cs) [ none ↦ none | some (o, ds) ↦ some (header_size + c.sz + o, c ∷ ds) ]

-- The bytes of the chunks in use, without their headers.
unfoldable pub in_use : List Chunk → ℕ
in_use [] = 0
in_use (c ∷ cs) = (if c.used then c.sz else 0) + in_use cs

abbrev pub Fitted : ℕ → List Chunk → Option (ℕ × List Chunk) → Type 0
Fitted size cs none = Unit
Fitted size cs (some (o, ds)) =
    (extent ds ≡ extent cs)
    × (o + header_size + size ≤ extent cs)
    × (in_use cs + size ≤ in_use ds)
    × (in_use ds ≤ in_use cs + size + 24)

taken-Fitted :
    (size : ℕ) (c : Chunk) (cs : List Chunk)
    → fits size c ≡ true
    → Fitted size (c ∷ cs) (some (0, taken size c cs))
unfolding in_use
taken-Fitted size c cs h = ground arith

-- First fit tiles the same bytes, hands out a range that lies in them, and adds to the bytes in use
-- the requested size and at most 24 bytes that are not worth a split.
pub place-Fitted : (size : ℕ) (cs : List Chunk) → Fitted size cs (place size cs)
unfolding place in_use
place-Fitted size [] = tt
place-Fitted size (c ∷ cs) = elim (Bool-cases (fits size c)) [
  | inl fit ↦ rw fit (taken-Fitted size c cs fit)
  | inr pass ↦
      let rest = place-Fitted size cs in
      rw pass (elim (Option-cases (place size cs)) [
        | inl e ↦ rw e tt
        | inr ((o, ds), e) ↦
            let (same, below, more, most) = rw e at rest in
            rw e (omega arith, omega arith, omega arith, omega arith)
      ])
]
