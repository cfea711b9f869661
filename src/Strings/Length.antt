-- ===== src/Strings/Length.antt =====
-- `strlen`, `strchr` and `clearchar` of standard/strings.h.
use owmice.Base.{
  ℕ, zero, suc, ◌+◌, ◌%◌, ◌^◌, ◌<◌, ◌≡◌, Option, none, some, List, [], ◌∷◌, length, arith, ◌==◌,
  if◌then◌else◌,
}
use owmice.Memory.{Memory, load8}
use owmice.Memory.Block.{CString}
use owmice.Bytes.{memset}
use owmice.Bytes.Copy.{within, load8-memset}
use owmice.Strings.{strlen_from, strlen, strchr, clearchar}

strlen_from_lem :
    (fuel : ℕ) (m : Memory) (p len : ℕ) (s : List ℕ)
    → CString m (p + len) s
    → length s < fuel
    → strlen_from fuel m p len ≡ some (len + length s)
unfolding strlen_from
strlen_from_lem zero m p len s h f = absurd (omega arith)
strlen_from_lem (suc fuel) m p len [] h f = ground arith
strlen_from_lem (suc fuel) m p len (c ∷ s) h f =
    let e : p + len + 1 ≡ p + (len + 1) = omega arith in
    ground (arith, strlen_from_lem fuel m p (len + 1) s (rw e at h.2) (omega arith))

-- With more fuel than bytes, `strlen` returns the number of bytes before the 0.
pub strlen-length :
    (fuel : ℕ) (m : Memory) (p : ℕ) (s : List ℕ)
    → CString m p s
    → length s < fuel
    → strlen fuel m p ≡ some (length s)
unfolding strlen
strlen-length fuel m p s h f =
    let e : p ≡ p + 0 = omega arith in ground (arith, strlen_from_lem fuel m p 0 s (rw e at h) f)

-- The place of the first byte that is `c`.
unfoldable pub index_of : ℕ → List ℕ → Option ℕ
index_of c [] = none
index_of c (x ∷ s) =
    if x == c then some 0 else elim (index_of c s) [ none ↦ none | some i ↦ some (i + 1) ]

-- What `strchr` should return for the string `s` at `p`.
abbrev pub found_at : ℕ → ℕ → List ℕ → ℕ
found_at c p s = elim (index_of c s) [ some i ↦ p + i | none ↦ if c == 0 then p + length s else 0 ]

-- `strchr` returns the address of the first byte equal to the character, that of the final 0 when
-- the character is 0, and NULL when there is none.
pub strchr-found_at :
    (fuel : ℕ) (m : Memory) (p c : ℕ) (s : List ℕ)
    → CString m p s
    → length s < fuel
    → strchr fuel m p c ≡ some (found_at (c % 2 ^ 8) p s)
unfolding strchr index_of
strchr-found_at zero m p c s h f = absurd (omega arith)
strchr-found_at (suc fuel) m p c [] h f = ground arith
strchr-found_at (suc fuel) m p c (x ∷ s) h f =
    ground (arith, strchr-found_at fuel m (p + 1) c s h.2 (omega arith))

-- `clearchar` overwrites the bytes of the string by 0 and no others.
pub load8-clearchar :
    (fuel : ℕ) (m : Memory) (p : ℕ) (s : List ℕ)
    → CString m p s
    → length s < fuel
    → (m' : Memory) × (clearchar fuel m p ≡ some m')
      × ((a : ℕ) → load8 m' a ≡ (if within p (length s) a then 0 else load8 m a))
unfolding clearchar
load8-clearchar fuel m p s h f =
    (memset m p 0 (length s), rw (strlen-length fuel m p s h f), load8-memset m p 0 (length s))
