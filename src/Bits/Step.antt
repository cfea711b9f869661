-- ===== src/Bits/Step.antt =====
-- The native `bit_and` and `bit_or` by their lowest digit. Their definition counts digits down from a
-- bound; any larger bound gives the same number.
use mathlib.Core.WellFounded
use Prim.Native.Nat.{digits, bitwise, bit_and-bitwise, bit_or-bitwise}
use owmice.Base.{
  ℕ, zero, suc, ◌+◌, ◌*◌, ◌/◌, ◌%◌, ◌≤◌, ◌<◌, min, max, bit_and, bit_or, ◌≡◌, ◌⊎◌, inl, inr, refl,
  ◌∙◌, arith, lt_wf, ◌-◌,
}

-- Induction by halving.
pub halving : (P : ℕ → Type 0) → P 0 → ((a : ℕ) → 0 < a → P (a / 2) → P a) → (a : ℕ) → P a
halving P base step a = WellFounded.induction lt_wf {C = P} a λ n below. elim (zero_or_pos n) [
  | inl e ↦ rw e base
  | inr h ↦ step n h (below (n / 2) (omega arith))
]
  where
    zero_or_pos : (n : ℕ) → (n ≡ 0) ⊎ (0 < n)
    zero_or_pos n = omega arith

module _ (rest : ℕ → ℕ) (op : ℕ → ℕ → ℕ) where
  one_more : (bound a b : ℕ) → a ≤ bound → digits rest op (suc bound) a b ≡ digits rest op bound a b
  one_more zero zero b h = refl
  one_more zero (suc a) b h = elim h [ ]
  one_more (suc bound) zero b h = refl
  one_more (suc bound) (suc a) b h = rw (one_more bound (suc a / 2) (b / 2) (omega arith))

  any_more :
      (k bound large a b : ℕ)
      → bound + k ≡ large
      → a ≤ bound
      → digits rest op large a b ≡ digits rest op bound a b
  any_more zero bound large a b e h = let same : large ≡ bound = omega arith in rw same
  any_more (suc k) bound large a b e h =
      let top : large ≡ suc (bound + k) = omega arith in
      rw top (one_more (bound + k) a b (omega arith) ∙ any_more k bound (bound + k) a b refl h)

  with_enough :
      (w v : ℕ)
      → bitwise rest op (suc w) v ≡ op (suc w % 2) (v % 2) + 2 * bitwise rest op (suc w / 2) (v / 2)
  with_enough w v =
      let half = suc w / 2 in
      let gap : half + (w - half) ≡ w = omega arith in
      omega (arith, any_more (w - half) half w half (v / 2) gap (omega arith))

pub bit_and-nothing : (v : ℕ) → bit_and 0 v ≡ 0
bit_and-nothing v = bit_and-bitwise 0 v

pub bit_or-nothing : (v : ℕ) → bit_or 0 v ≡ v
bit_or-nothing v = bit_or-bitwise 0 v

pub bit_and_halves : (w v : ℕ) → bit_and w v ≡ min (w % 2) (v % 2) + 2 * bit_and (w / 2) (v / 2)
bit_and_halves zero v = rw (bit_and-nothing v, bit_and-nothing (v / 2)) (omega arith)
bit_and_halves (suc w) v = simp bit_and-bitwise (with_enough (λ y. 0) min w v)

pub bit_or_halves : (w v : ℕ) → bit_or w v ≡ max (w % 2) (v % 2) + 2 * bit_or (w / 2) (v / 2)
bit_or_halves zero v = rw (bit_or-nothing v, bit_or-nothing (v / 2)) (omega arith)
bit_or_halves (suc w) v = simp bit_or-bitwise (with_enough (λ y. y) max w v)

pub bit_and-zero : (a : ℕ) → bit_and a 0 ≡ 0
bit_and-zero = halving (λ a. bit_and a 0 ≡ 0) refl (λ a h ih. omega (arith, bit_and_halves a 0, ih))

pub bit_or-zero : (a : ℕ) → bit_or a 0 ≡ a
bit_or-zero = halving (λ a. bit_or a 0 ≡ a) refl (λ a h ih. omega (arith, bit_or_halves a 0, ih))
