-- ===== src/Strings.antt =====
-- standard/strings.h. A `char *` is an address, and a function that writes returns the new memory.
-- A `while` loop takes fuel, and `none` means that the fuel ran out. A `char` is its byte, and an
-- `int` its 32-bit pattern. `NULL` is the address 0.
pub mod Length
pub mod Copy
pub mod Compare
pub mod Reverse
pub mod Shift
pub mod Token
pub mod Trim
mod Tests
use owmice.Base.{
  ℕ, zero, suc, ◌+◌, ◌-◌, ◌*◌, ◌/◌, ◌%◌, ◌^◌, Bool, true, false, not, ◌&&◌, ◌||◌, Option, none,
  some, ◌>>=◌, ltb, leb, ◌==◌, if◌then◌else◌,
}
use owmice.Memory.{Memory, load8, store8}
use owmice.Bytes.{memset}

-- `while (*s != (char)c) if (!*s++) return 0; return s;`
pub strchr : ℕ → Memory → ℕ → ℕ → Option ℕ
strchr zero m s c = none
strchr (suc fuel) m s c =
    let rest = strchr fuel m (s + 1) c in
    if load8 m s == c % 2 ^ 8 then some s else if load8 m s == 0 then some 0 else rest

-- `abs` of the most negative `int` overflows, which C leaves undefined.
pub abs : ℕ → Option ℕ
abs num = if num == 2 ^ 31 then none else if ltb num (2 ^ 31) then some num else some (2 ^ 32 - num)

-- A `char` in an `int` expression: it is signed.
abbrev pub char_to_int : ℕ → ℕ
char_to_int c = if ltb c (2 ^ 7) then c else c + 2 ^ 32 - 2 ^ 8

-- The loop of `atoi` at index `i`; `res * 10 + str[i] - '0'` modulo 2^32.
atoi_loop : ℕ → Memory → ℕ → ℕ → Option ℕ
atoi_loop zero m p res = none
atoi_loop (suc fuel) m p res =
    let rest =
      atoi_loop fuel m (p + 1) ((res * 10 + char_to_int (load8 m p) + 2 ^ 32 - b'0') % 2 ^ 32) in
    if load8 m p == 0 then some res else rest

pub atoi : ℕ → Memory → ℕ → Option ℕ
atoi fuel m str =
    if load8 m str == b'-'
    then (do res ← atoi_loop fuel m (str + 1) 0; some ((2 ^ 32 - res) % 2 ^ 32))
    else atoi_loop fuel m str 0

unfoldable pub swap : Memory → ℕ → ℕ → Memory
swap m x y = let t = load8 m x in store8 (store8 m x (load8 m y)) y t

-- `while (i < j) swap(&buffer[i++], &buffer[j--]);` Here `j` is at least 0.
pub reverse : ℕ → Memory → ℕ → ℕ → ℕ → Option Memory
reverse zero m buffer i j = none
reverse (suc fuel) m buffer i j =
    let rest = reverse fuel (swap m (buffer + i) (buffer + j)) buffer (i + 1) (j - 1) in
    if ltb i j then rest else some m

-- The character of a digit.
pub digit_char : ℕ → ℕ
digit_char r = if leb 10 r then 65 + (r - 10) else 48 + r

-- The loop of `itoa`: the digits of `n`, the lowest first, from `buffer[i]` on, and the index
-- behind them.
itoa_digits : ℕ → Memory → ℕ → ℕ → ℕ → ℕ → Option (Memory × ℕ)
itoa_digits zero m n base buffer i = none
itoa_digits (suc fuel) m n base buffer i =
    let rest =
      itoa_digits fuel (store8 m (buffer + i) (digit_char (n % base))) (n / base) base buffer
        (i + 1) in
    if n == 0 then some (m, i) else rest

-- `buffer[i++] = c`.
put_char : Memory → ℕ → ℕ → ℕ → Memory × ℕ
put_char m buffer i c = (store8 m (buffer + i) c, i + 1)

-- `base` is not negative.
pub itoa : ℕ → Memory → ℕ → ℕ → ℕ → Option Memory
itoa fuel m value buffer base = if ltb base 2 || ltb 32 base then some m else do
  n ← abs value
  (m, i) ← itoa_digits fuel m n base buffer 0
  let (m, i) = if i == 0 then put_char m buffer i b'0' else (m, i)
  let (m, i) = if leb (2 ^ 31) value && (base == 10) then put_char m buffer i b'-' else (m, i)
  reverse fuel (store8 m (buffer + i) 0) buffer 0 (i - 1)

strlen_from : ℕ → Memory → ℕ → ℕ → Option ℕ
strlen_from zero m str len = none
strlen_from (suc fuel) m str len =
    let rest = strlen_from fuel m str (len + 1) in
    if load8 m (str + len) == 0 then some len else rest

pub strlen : ℕ → Memory → ℕ → Option ℕ
strlen fuel m str = strlen_from fuel m str 0

-- The second loop of `strcat`, at `dest + i + j` and `src + j`, and its final 0. The loop of
-- `strcpy` is the same one.
pub copy_string : ℕ → Memory → ℕ → ℕ → Option Memory
copy_string zero m dest src = none
copy_string (suc fuel) m dest src =
    let rest = copy_string fuel (store8 m dest (load8 m src)) (dest + 1) (src + 1) in
    if load8 m src == 0 then some (store8 m dest 0) else rest

pub strcat : ℕ → Memory → ℕ → ℕ → Option Memory
strcat fuel m dest src = do i ← strlen fuel m dest; copy_string fuel m (dest + i) src

pub clearchar : ℕ → Memory → ℕ → Option Memory
clearchar fuel m str = do n ← strlen fuel m str; some (memset m str 0 n)

-- The difference of the first bytes that differ, as an `int`.
pub cmp : ℕ → Memory → ℕ → ℕ → Option ℕ
cmp zero m s1 s2 = none
cmp (suc fuel) m s1 s2 =
    let rest = cmp fuel m (s1 + 1) (s2 + 1) in
    if not (load8 m s1 == 0) && (load8 m s1 == load8 m s2)
    then rest
    else some ((load8 m s1 + 2 ^ 32 - load8 m s2) % 2 ^ 32)

pub streq : ℕ → Memory → ℕ → ℕ → Option Bool
streq fuel m s1 s2 = do d ← cmp fuel m s1 s2; some (d == 0)

-- The new memory and the pointer that is returned.
pub strcpy : ℕ → Memory → ℕ → ℕ → Option (Memory × ℕ)
strcpy fuel m destination source =
    if destination == 0
    then some (m, 0)
    else do m' ← copy_string fuel m destination source; some (m', destination)

-- `length` is not negative. The pointer that is returned is that of the final 0.
pub substr : Memory → ℕ → ℕ → ℕ → ℕ → Memory × ℕ
substr m dest src position zero = (store8 m dest 0, dest)
substr m dest src position (suc length) =
    substr (store8 m dest (load8 m (src + position))) (dest + 1) (src + 1) position length

-- The loop of `strshl` at index `i`, with `left` rounds to go.
shift_loop : ℕ → Memory → ℕ → ℕ → ℕ → ℕ → Memory
shift_loop zero m str i amt size = m
shift_loop (suc left) m str i amt size =
    let moved = store8 m (str + i) (load8 m (str + (i + amt))) in
    let rest = shift_loop left (store8 moved (str + (i + amt)) 0) str (i + 1) amt size in
    if ltb size (i + amt) then m else rest

pub strshl : ℕ → Memory → ℕ → ℕ → Option Memory
strshl fuel m str amt = do
  size ← strlen fuel m str
  if leb size amt then some (memset m str 0 size) else (do
    let m = shift_loop (size - amt) m str 0 amt size
    n ← strlen fuel m str
    some (if ltb (size - amt) n then (substr m str str 0 (size - amt)).0 else m))

-- The inner loop of `strtok`: copies up to a delimiter or the end, and counts.
token_loop : ℕ → Memory → ℕ → ℕ → ℕ → ℕ → Option (Memory × ℕ)
token_loop zero m dest src d i = none
token_loop (suc fuel) m dest src d i =
    let rest = token_loop fuel (store8 m (dest + i) (load8 m (src + i))) dest src d (i + 1) in
    if load8 m (src + i) == d || load8 m (src + i) == 0 then some (m, i) else rest

-- The outer loop, over the delimiters from `delim` on.
delim_loop : ℕ → Memory → ℕ → ℕ → ℕ → Option Memory
delim_loop zero m dest src delim = none
delim_loop (suc rounds) m dest src delim =
    let rest = (do
      (m', i) ← token_loop (suc rounds) m dest src (load8 m delim) 0
      m'' ← strshl (suc rounds) m' src (i + 1)
      delim_loop rounds m'' dest src (delim + 1)) in
    if load8 m delim == 0 then some m else rest

-- The new memory and the pointer that is returned.
pub strtok : ℕ → Memory → ℕ → ℕ → ℕ → Option (Memory × ℕ)
strtok fuel m dest src delim = if load8 m src == 0 then some (m, 0) else do
  m ← clearchar fuel m dest
  m ← delim_loop fuel m dest src delim
  some (m, if load8 m dest == 0 then 0 else dest)

pub isspace : ℕ → Bool
isspace c = c == b' ' || c == 10 || c == 9 || c == 11 || c == 12 || c == 13

pub ltrim : ℕ → Memory → ℕ → Option ℕ
ltrim zero m s = none
ltrim (suc fuel) m s =
    let rest = ltrim fuel m (s + 1) in if isspace (load8 m s) then rest else some s

-- `while (isspace(*--back));` from `back` on.
rtrim_loop : ℕ → Memory → ℕ → Option ℕ
rtrim_loop zero m back = none
rtrim_loop (suc fuel) m back =
    let rest = rtrim_loop fuel m (back - 1) in
    if isspace (load8 m (back - 1)) then rest else some (back - 1)

pub rtrim : ℕ → Memory → ℕ → Option Memory
rtrim fuel m s = do
  n ← strlen fuel m s
  back ← rtrim_loop fuel m (s + n)
  some (store8 m (back + 1) 0)

-- The new memory and the pointer to the trimmed string.
pub trim : ℕ → Memory → ℕ → Option (Memory × ℕ)
trim fuel m s = do s' ← ltrim fuel m s; m' ← rtrim fuel m s'; some (m', s')
