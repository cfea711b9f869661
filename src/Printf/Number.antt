-- ===== src/Printf/Number.antt =====
-- The digits of a number.
use native.Mathlib.Nat.{pow-suc, mul-le-mul_left}
use owmice.Base.{
  ℕ, zero, suc, ◌+◌, ◌-◌, ◌*◌, ◌/◌, ◌%◌, ◌^◌, ◌≤◌, ◌<◌, ◌≡◌, refl, arith, List, [], ◌∷◌, ◌++◌,
  get_or, leb, Bool-cases, inl, inr, ◌∙◌,
}
use owmice.Printf.{ft_putnum}

-- The number that a list of characters shows, by the places of the characters in `digits`.
pub shown_number : (value : ℕ → ℕ) → ℕ → ℕ → List ℕ → ℕ
shown_number value base acc [] = acc
shown_number value base acc (c ∷ cs) = shown_number value base (acc * base + value c) cs

shown_number-append :
    (value : ℕ → ℕ) (base acc : ℕ) (cs ds : List ℕ)
    → shown_number value base acc (cs ++ ds)
      ≡ shown_number value base (shown_number value base acc cs) ds
unfolding shown_number
shown_number-append value base acc [] ds = refl
shown_number-append value base acc (c ∷ cs) ds =
    shown_number-append value base (acc * base + value c) cs ds

module _ (value : ℕ → ℕ) (base : ℕ) (digits : List ℕ) (large : 2 ≤ base)
    (inverse : (d : ℕ) → d < base → value (get_or digits d 0) ≡ d) where
  -- With as much fuel as the number has binary digits, `ft_putnum` writes the number.
  pub shown_number-ft_putnum :
      (fuel n : ℕ)
      → n < 2 ^ fuel
      → 0 < fuel
      → shown_number value base 0 (ft_putnum fuel n base digits) ≡ n
  unfolding ft_putnum shown_number
  shown_number-ft_putnum zero n small h = absurd (omega arith)
  shown_number-ft_putnum (suc fuel) n small h =
      let whole : n / base * base + n % base ≡ n = grind arith in
      let below : n % base < base = grind arith in
      let double : n / base * 2 ≤ n / base * base = mul-le-mul_left (n / base) large in
      let digit = inverse (n % base) below in
      elim (Bool-cases (leb base n)) [
        | inl more ↦
            let enough : base ≤ n = ground arith in
            let some_fuel : 0 < fuel = positive fuel (omega arith) in
            let before =
              shown_number-ft_putnum fuel (n / base) (omega (arith, pow-suc 2 fuel)) some_fuel in
            rw more (
              shown_number-append value base 0 (ft_putnum fuel (n / base) base digits) _
              ∙ rw (before, digit) whole)
        | inr last ↦
            let small_n : n < base = ground arith in
            let no_more : n % base ≡ n = grind arith in rw last (omega (arith, digit, no_more))
      ]
    where
      positive : (k : ℕ) → 2 ≤ 2 ^ suc k - 1 → 0 < k
      positive zero hk = absurd (omega arith)
      positive (suc k) hk = omega arith
