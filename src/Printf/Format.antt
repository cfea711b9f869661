-- ===== src/Printf/Format.antt =====
-- What `printf` writes, and that it counts it.
use owmice.Base.{
  ℕ, suc, ◌-◌, ◌≡◌, refl, arith, List, [], ◌∷◌, length, length-append, true, false, ltb, ◌==◌,
  if◌then◌else◌, Bool-cases, inl, inr, Option, none, some, ◌>>=◌, Option-cases, Bool,
}
use owmice.Printf.{Arg, ft_printf_aux, ft_print_dispatch, also}
use owmice.Printf.Number.{shown_number}

abbrev pub Counted : Option (List ℕ × ℕ) → Type 0
Counted none = Unit
Counted (some (out, len)) = len ≡ length out

also-Counted : (out : List ℕ) (r : Option (List ℕ × ℕ)) → Counted r → Counted (also out r)
also-Counted out none h = tt
also-Counted out (some (rest, len)) h = omega (arith, length-append out rest, h)

bound-Counted :
    (o : Option (List ℕ)) (r : Option (List ℕ × ℕ))
    → Counted r
    → Counted (o >>= (λ out. also out r))
bound-Counted none r h = tt
bound-Counted (some out) r h = also-Counted out r h

-- The count that `printf` returns is the number of the characters that it writes.
pub ft_printf_aux-Counted : (fmt : List ℕ) (args : List Arg) → Counted (ft_printf_aux fmt args)
unfolding ft_printf_aux
ft_printf_aux-Counted [] args = refl
ft_printf_aux-Counted (c ∷ []) args = elim (Bool-cases (c == b'%')) [
  | inl percent ↦ rw percent refl
  | inr plain ↦ rw plain refl
]
ft_printf_aux-Counted (c ∷ d ∷ fmt) [] = elim (Bool-cases (c == b'%')) [
  | inl percent ↦ elim (Option-cases (ft_print_dispatch d)) [
    | inl e ↦ rw (percent, e) (also-Counted (d ∷ []) _ (ft_printf_aux-Counted fmt []))
    | inr (print, e) ↦ rw (percent, e) tt
  ]
  | inr plain ↦ rw plain (also-Counted (c ∷ []) _ (ft_printf_aux-Counted (d ∷ fmt) []))
]
ft_printf_aux-Counted (c ∷ d ∷ fmt) (a ∷ args) = elim (Bool-cases (c == b'%')) [
  | inl percent ↦ elim (Option-cases (ft_print_dispatch d)) [
    | inl e ↦ rw (percent, e) (also-Counted (d ∷ []) _ (ft_printf_aux-Counted fmt (a ∷ args)))
    | inr (print, e) ↦ rw (percent, e) (bound-Counted (print a) _ (ft_printf_aux-Counted fmt args))
  ]
  | inr plain ↦ rw plain (also-Counted (c ∷ []) _ (ft_printf_aux-Counted (d ∷ fmt) (a ∷ args)))
]

-- The value of a digit, with small and with capital letters.
abbrev pub small_digit : ℕ → ℕ
small_digit c = if ltb c 58 then c - 48 else c - 87

abbrev pub capital_digit : ℕ → ℕ
capital_digit c = if ltb c 58 then c - 48 else c - 55

module _ (value : ℕ → ℕ) where
  -- The digits from `k` on stand at their values.
  are_digits : ℕ → List ℕ → Bool
  are_digits k [] = true
  are_digits k (c ∷ cs) = if value c == k then are_digits (suc k) cs else false

  -- What is written shows the number in the base, and is counted.
  abbrev pub Shows : ℕ → ℕ → Option (List ℕ × ℕ) → Type 0
  Shows base n none = ⊥
  Shows base n (some (out, len)) = (shown_number value base 0 out ≡ n) × (len ≡ length out)
