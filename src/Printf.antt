-- ===== src/Printf.antt =====
-- `printf` of standard/stdio.h: the characters that it writes, and the count that it returns. The
-- variable arguments are a list; a string argument is the list of its bytes before the final 0.
-- An argument of the wrong kind, or a missing one, has no meaning in C and gives `none`. The loop
-- of `ft_putnum` takes fuel.
pub mod Number
pub mod Format
mod Tests
use owmice.Base.{
  ℕ, zero, suc, ◌+◌, ◌-◌, ◌/◌, ◌%◌, ◌^◌, Bool, true, false, Option, none, some, ◌>>=◌, List, [],
  ◌∷◌, ◌++◌, length, get_or, codes, ltb, leb, ◌==◌, ◌||◌, if◌then◌else◌,
}

pub data Arg : Type 0 where
  -- A machine word.
  word : ℕ → Arg
  string : List ℕ → Arg
  -- A string that is `NULL`.
  null : Arg

abbrev pub nums_decimal : List ℕ
nums_decimal = codes "0123456789"

abbrev pub nums_octal : List ℕ
nums_octal = codes "01234567"

abbrev pub nums_hexs : List ℕ
nums_hexs = codes "0123456789abcdef"

abbrev pub nums_hexl : List ℕ
nums_hexl = codes "0123456789ABCDEF"

-- The characters of `ft_putnum`; their number is its result.
pub ft_putnum : ℕ → ℕ → ℕ → List ℕ → List ℕ
ft_putnum zero n base digits = []
ft_putnum (suc fuel) n base digits =
    let before = ft_putnum fuel (n / base) base digits in
    let last = get_or digits (n % base) 0 ∷ [] in if leb base n then before ++ last else last

-- More than the digits of a word.
abbrev pub word_digits : ℕ
word_digits = 33

-- What one conversion writes, if its argument has the right kind.
pub ft_print_c : Arg → Option (List ℕ)
ft_print_c (word c) = some (c % 2 ^ 8 ∷ [])
ft_print_c (string s) = none
ft_print_c null = none

pub ft_print_d : Arg → Option (List ℕ)
ft_print_d (word n) =
    if leb (2 ^ 31) n
    then some (b'-' ∷ ft_putnum word_digits ((2 ^ 32 - n) % 2 ^ 32) 10 nums_decimal)
    else some (ft_putnum word_digits n 10 nums_decimal)
ft_print_d (string s) = none
ft_print_d null = none

pub ft_print_o : Arg → Option (List ℕ)
ft_print_o (word n) = some (ft_putnum word_digits n 8 nums_octal)
ft_print_o (string s) = none
ft_print_o null = none

pub ft_print_u : Arg → Option (List ℕ)
ft_print_u (word n) = some (ft_putnum word_digits n 10 nums_decimal)
ft_print_u (string s) = none
ft_print_u null = none

pub ft_print_x : Arg → Option (List ℕ)
ft_print_x (word n) = some (ft_putnum word_digits n 16 nums_hexs)
ft_print_x (string s) = none
ft_print_x null = none

pub ft_print_upper_x : Arg → Option (List ℕ)
ft_print_upper_x (word n) = some (ft_putnum word_digits n 16 nums_hexl)
ft_print_upper_x (string s) = none
ft_print_upper_x null = none

pub ft_print_s : Arg → Option (List ℕ)
ft_print_s (word n) = none
ft_print_s (string s) = some s
ft_print_s null = some (codes "(null)")

-- `ft_print_dispatch`: the outer `none` for a character without a conversion.
pub ft_print_dispatch : ℕ → Option (Arg → Option (List ℕ))
ft_print_dispatch c =
    if c == b'c'
    then some ft_print_c
    else if c == b'd' || c == b'i'
    then some ft_print_d
    else if c == b'o'
    then some ft_print_o
    else if c == b'u'
    then some ft_print_u
    else if c == b'x'
    then some ft_print_x
    else if c == b'X'
    then some ft_print_upper_x
    else if c == b's'
    then some ft_print_s
    else none

-- What is written before the rest, and how long it is.
abbrev also : List ℕ → Option (List ℕ × ℕ) → Option (List ℕ × ℕ)
also out none = none
also out (some (rest, len)) = some (out ++ rest, length out + len)

-- The characters and the count of `ft_printf_aux`, from a count of 0. A `%` at the end of the
-- format ends it.
pub ft_printf_aux : List ℕ → List Arg → Option (List ℕ × ℕ)
ft_printf_aux [] args = some ([], 0)
ft_printf_aux (c ∷ []) args =
    some ((if c == b'%' then [] else c ∷ []), (if c == b'%' then 0 else 1))
ft_printf_aux (c ∷ d ∷ fmt) [] =
    let plain = ft_printf_aux (d ∷ fmt) [] in
    let escaped = ft_printf_aux fmt [] in
    if c == b'%'
    then elim (ft_print_dispatch d) [ none ↦ also (d ∷ []) escaped | some print ↦ none ]
    else also (c ∷ []) plain
ft_printf_aux (c ∷ d ∷ fmt) (a ∷ args) =
    let plain = ft_printf_aux (d ∷ fmt) (a ∷ args) in
    let escaped = ft_printf_aux fmt (a ∷ args) in
    let converted = ft_printf_aux fmt args in
    if c == b'%'
    then elim (ft_print_dispatch d) [
      | none ↦ also (d ∷ []) escaped
      | some print ↦ (do out ← print a; also out converted)
    ]
    else also (c ∷ []) plain
