-- ===== src/Strings/Tests.antt =====
-- The string functions at concrete memories.
use owmice.Base.{
  [], ℕ, ◌+◌, ◌-◌, ◌^◌, ◌≡◌, ◌⊎◌, inl, inr, true, false, Option, none, some, refl, arith, codes,
  if◌then◌else◌,
}
use owmice.Memory.{Memory, load8, store8, written}
use owmice.Memory.Block.{CString, SameOutside}
use owmice.Bytes.{memset}
use owmice.Bytes.Copy.{within}
use owmice.Strings.{
  atoi, atoi_loop, abs, itoa, itoa_digits, put_char, digit_char, reverse, swap, strlen, strlen_from,
  clearchar, substr, strshl, shift_loop, strtok, token_loop, delim_loop,
}
use owmice.Strings.Length.{strlen-length, load8-clearchar}
use owmice.Strings.{isspace, trim}
use owmice.Strings.Trim.{take, trim-take}
use owmice.Base.{zero, suc, get_or, List}
use owmice.Strings.Token.{before, token_at, strtok-before}
use owmice.Base.{◌<◌, ◌≤◌, drop, length}

-- "echo hi" at 100 and " " at 200.
abbrev command : Memory
command = λ a. written 100 (codes "echo hi") a + written 200 (codes " ") a

abbrev byte_of : ℕ → Option Memory → ℕ
byte_of a none = 256
byte_of a (some m) = m a

abbrev first : Option (Memory × ℕ) → Option Memory
first none = none
first (some (m, p)) = some m

command_string : CString command 100 (codes "echo hi")
unfolding load8
command_string = ground arith

space_string : CString command 200 (codes " ")
unfolding load8
space_string = ground arith

-- `itoa` of -120 in base 10, written at 300.
print_number :
    (byte_of 300 (itoa 9 command (2 ^ 32 - 120) 300 10) ≡ b'-')
    × (byte_of 303 (itoa 9 command (2 ^ 32 - 120) 300 10) ≡ b'0')
    × (byte_of 304 (itoa 9 command (2 ^ 32 - 120) 300 10) ≡ 0)
unfolding itoa itoa_digits put_char digit_char reverse swap abs load8 store8
print_number = (refl, refl, refl)

read_number : atoi 9 (written 100 (codes "-42")) 100 ≡ some (2 ^ 32 - 42)
unfolding atoi atoi_loop load8
read_number = refl

-- The shell's split: the token "echo" at 300, and "hi" left at 100.
split_line :
    let r = strtok 9 command 300 100 200 in
    (byte_of 303 (first r) ≡ b'o')
    × (byte_of 304 (first r) ≡ 0)
    × (byte_of 100 (first r) ≡ b'h')
    × (byte_of 102 (first r) ≡ 0)
unfolding strtok clearchar delim_loop token_loop strshl shift_loop substr strlen strlen_from memset
    load8 store8
split_line = (refl, refl, refl, refl)

command_length : strlen 9 command 100 ≡ some 7
command_length = strlen-length 9 command 100 (codes "echo hi") command_string (omega arith)

cleared_command :
    (m' : Memory) × (clearchar 9 command 100 ≡ some m')
    × ((a : ℕ) → load8 m' a ≡ (if within 100 7 a then 0 else load8 command a))
cleared_command = load8-clearchar 9 command 100 (codes "echo hi") command_string (omega arith)

-- "echo hi" split at the space, into a clean buffer at 300.
no_token : CString command 300 []
unfolding load8
no_token = refl

clean_buffer : (a : ℕ) → 300 + 0 ≤ a → a < 300 + 129 → load8 command a ≡ 0
unfolding load8
clean_buffer a from below = ground arith

strtok-before_example :
    (m' : Memory) × (strtok 129 command 300 100 200
      ≡ some (m', token_at 300 (before b' ' (codes "echo hi"))))
    × CString m' 300 (before b' ' (codes "echo hi"))
    × CString m' 100 (drop (length (before b' ' (codes "echo hi")) + 1) (codes "echo hi"))
    × ((a : ℕ)
        → (a < 300) ⊎ (300 + 129 ≤ a)
        → (a < 100) ⊎ (100 + length (codes "echo hi") ≤ a)
        → load8 m' a ≡ load8 command a)
    × ((a : ℕ) → 300 + length (before b' ' (codes "echo hi")) ≤ a → a < 300 + 129 → load8 m' a ≡ 0)
strtok-before_example =
    strtok-before 129 command 300 100 200 b' ' 129 [] (codes "echo hi") command_string (omega arith)
      space_string no_token (omega arith) (omega arith) clean_buffer (omega arith)
      (inl (omega arith)) (inl (omega arith)) (inr (omega arith))

-- The name in a file of autostart, with spaces around it.
abbrev padded : List ℕ
padded = codes "  ls "

padded_string : CString (written 100 padded) 100 padded
unfolding load8
padded_string = ground arith

leading : (k : ℕ) → k < 2 → isspace (get_or padded k 0) ≡ true
unfolding isspace
leading zero low = refl
leading (suc zero) low = refl
leading (suc (suc k)) low = absurd (omega arith)

ends : (isspace (get_or padded 2 0) ≡ false) × (isspace (get_or padded 3 0) ≡ false)
unfolding isspace
ends = (refl, refl)

trailing : (k : ℕ) → k < 1 → isspace (get_or padded (2 + 2 + k) 0) ≡ true
unfolding isspace
trailing zero low = refl
trailing (suc k) low = absurd (omega arith)

trim-take_example :
    (m' : Memory) × (trim 6 (written 100 padded) 100 ≡ some (m', 100 + 2))
    × CString m' (100 + 2) (take 2 (drop 2 padded))
    × SameOutside (100 + 2 + 2) (100 + 2 + 2 + 1) (written 100 padded) m'
trim-take_example =
    trim-take 6 (written 100 padded) 100 2 2 1 padded padded_string (omega arith) (omega arith)
      leading (ends.0) (ends.1) trailing (omega arith)
