-- ===== src/Strings/Compare.antt =====
-- `cmp` and `streq` of standard/strings.h.
use owmice.Base.{
  ℕ, zero, suc, ◌+◌, ◌-◌, ◌%◌, ◌^◌, ◌<◌, ◌≡◌, ◌≢◌, ◌⊎◌, inl, inr, refl, Bool, true, false, ◌&&◌,
  some, List, [], ◌∷◌, length, arith, ◌==◌, Bool-cases,
}
use owmice.Memory.{Memory, load8-lt}
use owmice.Memory.Block.{CString}
use owmice.Strings.{cmp, streq}

unfoldable pub same_string : List ℕ → List ℕ → Bool
same_string [] [] = true
same_string [] (d ∷ t) = false
same_string (c ∷ s) [] = false
same_string (c ∷ s) (d ∷ t) = c == d && same_string s t

pub same_string-eq : (s t : List ℕ) → same_string s t ≡ true → s ≡ t
unfolding same_string
same_string-eq [] [] h = refl
same_string-eq [] (d ∷ t) h = cc
same_string-eq (c ∷ s) [] h = cc
same_string-eq (c ∷ s) (d ∷ t) h = ground (arith, same_string-eq s t)

pub same_string_refl : (s : List ℕ) → same_string s s ≡ true
unfolding same_string
same_string_refl [] = refl
same_string_refl (c ∷ s) = ground (arith, same_string_refl s)

cmp_lem :
    (fuel : ℕ) (m : Memory) (p q : ℕ) (s t : List ℕ)
    → CString m p s
    → CString m q t
    → length s < fuel
    → (d : ℕ) × (cmp fuel m p q ≡ some d) × ((d == 0) ≡ same_string s t)
unfolding cmp same_string
cmp_lem zero m p q s t hs ht f = absurd (omega arith)
cmp_lem (suc fuel) m p q [] [] hs ht f = (0, ground arith, refl)
cmp_lem (suc fuel) m p q [] (d ∷ t) hs ht f =
    ((0 + 2 ^ 32 - d) % 2 ^ 32, ground arith, ground (arith, load8-lt m q))
cmp_lem (suc fuel) m p q (c ∷ s) [] hs ht f =
    ((c + 2 ^ 32 - 0) % 2 ^ 32, ground arith, ground (arith, load8-lt m p))
cmp_lem (suc fuel) m p q (c ∷ s) (d ∷ t) hs ht f = elim (Bool-cases (c == d)) [
  | inl e ↦
      let (r, run, v) = cmp_lem fuel m (p + 1) (q + 1) s t hs.2 ht.2 (omega arith) in
      (r, ground arith, ground arith)
  | inr e ↦ ((c + 2 ^ 32 - d) % 2 ^ 32, ground arith, ground (arith, load8-lt m p, load8-lt m q))
]

-- `streq` on two strings answers, and answers true exactly when they are the same bytes.
pub streq-eq :
    (fuel : ℕ) (m : Memory) (p q : ℕ) (s t : List ℕ)
    → CString m p s
    → CString m q t
    → length s < fuel
    → ((streq fuel m p q ≡ some true) × (s ≡ t)) ⊎ ((streq fuel m p q ≡ some false) × (s ≢ t))
unfolding streq
streq-eq fuel m p q s t hs ht f =
    let (d, run, v) = cmp_lem fuel m p q s t hs ht f in
    elim (Bool-cases (same_string s t)) [
      | inl e ↦ inl (ground arith, same_string-eq s t e)
      | inr e ↦
          inr
            (ground arith, λ eq. let r : same_string s t ≡ true = rw eq (same_string_refl t) in cc)
    ]
