-- ===== src/Packer/Encode.antt =====
-- Reading back the bytes that the packer writes for the headers.
use owmice.Base.{
  ℕ, zero, suc, ◌+◌, ◌-◌, ◌*◌, ◌^◌, ◌<◌, ◌≤◌, ◌≡◌, ◌≢◌, refl, arith, some, List, [], ◌∷◌, ◌++◌,
  length, length-append, ne→==,
}
use owmice.Memory.{Memory, load8, load32}
use owmice.Memory.Block.{Holds}
use owmice.Ramdisk.{FileHeader}
use owmice.Ramdisk.Load.{string_at}
use owmice.Packer.{word_bytes, unset, header_bytes, table_bytes}

pub Holds-append :
    (m : Memory) (p : ℕ) (s t : List ℕ)
    → Holds m p (s ++ t)
    → Holds m p s × Holds m (p + length s) t
Holds-append m p [] t h = let here : p ≡ p + 0 = omega arith in (tt, rw here at h)
Holds-append m p (c ∷ s) t h =
    let rest = Holds-append m (p + 1) s t h.1 in
    let there : p + 1 + length s ≡ p + suc (length s) = omega arith in
    ((h.0, rest.0), rw there at rest.1)

-- No byte of a name is 0.
abbrev pub NoZero : List ℕ → Type 0
NoZero [] = Unit
NoZero (c ∷ s) = (c ≢ 0) × NoZero s

-- What a header can hold.
pub record IsEncodable (h : FileHeader) : Type 0 where
  pub short : length h.name < 64
  pub full : NoZero h.name
  pub offset : h.offset < 2 ^ 32
  pub size : h.length < 2 ^ 32

abbrev pub AllEncodable : List FileHeader → Type 0
AllEncodable [] = Unit
AllEncodable (h ∷ hs) = IsEncodable h × AllEncodable hs

pub load32-word_bytes :
    (m : Memory) (p v : ℕ) → v < 2 ^ 32 → Holds m p (word_bytes v) → load32 m p ≡ v
unfolding load32 word_bytes
load32-word_bytes m p v small (b0, (b1, (b2, (b3, _)))) =
    let p2 : p + 1 + 1 ≡ p + 2 = omega arith in
    let p3 : p + 2 + 1 ≡ p + 3 = omega arith in
    let b2' = rw p2 at b2 in let b3' = rw p3 at (rw p2 at b3) in omega (arith, b0, b1, b2', b3')

pub string_at-Holds :
    (fuel : ℕ) (m : Memory) (p : ℕ) (s : List ℕ)
    → NoZero s
    → length s < fuel
    → Holds m p s
    → load8 m (p + length s) ≡ 0
    → string_at fuel m p ≡ some s
unfolding string_at
string_at-Holds zero m p s full enough h end = absurd (omega arith)
string_at-Holds (suc fuel) m p [] full enough h end =
    let here : p + 0 ≡ p = omega arith in rw (rw here at end) refl
string_at-Holds (suc fuel) m p (c ∷ s) full enough h end =
    let there : p + suc (length s) ≡ p + 1 + length s = omega arith in
    let rest = string_at-Holds fuel m (p + 1) s full.1 (omega arith) h.1 (rw there at end) in
    rw (h.0, ne→== _ _ full.0, rest) refl

length-unset : (stack : ℕ → ℕ) (k n : ℕ) → length (unset stack k n) ≡ n
unfolding unset
length-unset stack k zero = refl
length-unset stack k (suc n) = omega (arith, length-unset stack (k + 1) n)

pub length-header_bytes :
    (stack : ℕ → ℕ) (k : ℕ) (h : FileHeader)
    → length h.name < 64
    → length (header_bytes stack k h) ≡ 76
unfolding header_bytes word_bytes
length-header_bytes stack k h short =
    let gap = unset stack (k + 2 + length h.name) (63 - length h.name) in
    let pad = unset stack (k + 65) 3 in
    let words = word_bytes h.offset ++ word_bytes h.length in
    omega (
      arith,
      length-append h.name (0 ∷ (gap ++ (pad ++ words))),
      length-append gap (pad ++ words),
      length-append pad words,
      length-unset stack (k + 2 + length h.name) (63 - length h.name),
      length-unset stack (k + 65) 3,
    )

pub length-table_bytes :
    (stack : ℕ → ℕ) (k n : ℕ) (hs : List FileHeader)
    → AllEncodable hs
    → length hs ≤ n
    → length (table_bytes stack k n hs) ≡ 76 * n
unfolding table_bytes
length-table_bytes stack k n [] all room = length-unset stack k (76 * n)
length-table_bytes stack k n (h ∷ hs) (one, all) room = omega (
  arith,
  length-append (header_bytes stack k h) (table_bytes stack (k + 76) (n - 1) hs),
  length-header_bytes stack k h one.short,
  length-table_bytes stack (k + 76) (n - 1) hs all (omega arith),
)

-- Too long a name does not make the table shorter.
pub le-length-table_bytes :
    (stack : ℕ → ℕ) (k n : ℕ) (hs : List FileHeader) → 76 * n ≤ length (table_bytes stack k n hs)
unfolding table_bytes header_bytes word_bytes
le-length-table_bytes stack k n [] = omega (arith, length-unset stack k (76 * n))
le-length-table_bytes stack k n (h ∷ hs) =
    let gap = unset stack (k + 2 + length h.name) (63 - length h.name) in
    let pad = unset stack (k + 65) 3 in
    let words = word_bytes h.offset ++ word_bytes h.length in
    omega (
      arith,
      length-append (header_bytes stack k h) (table_bytes stack (k + 76) (n - 1) hs),
      length-append h.name (0 ∷ (gap ++ (pad ++ words))),
      length-append gap (pad ++ words),
      length-append pad words,
      length-unset stack (k + 2 + length h.name) (63 - length h.name),
      length-unset stack (k + 65) 3,
      le-length-table_bytes stack (k + 76) (n - 1) hs,
    )

-- The fields of a header in the memory.
pub header_loaded :
    (stack : ℕ → ℕ) (m : Memory) (p k : ℕ) (h : FileHeader)
    → IsEncodable h
    → Holds m p (header_bytes stack k h)
    → (load8 m p ≡ h.magic)
      × Holds m (p + 1) h.name
      × (load8 m (p + 1 + length h.name) ≡ 0)
      × (load32 m (p + 68) ≡ h.offset)
      × (load32 m (p + 72) ≡ h.length)
unfolding header_bytes
header_loaded stack m p k h encodable (first, held) =
    let short = encodable.short in
    let gap = unset stack (k + 2 + length h.name) (63 - length h.name) in
    let pad = unset stack (k + 65) 3 in
    let words = word_bytes h.offset ++ word_bytes h.length in
    let (name, (end, behind)) = Holds-append m (p + 1) h.name (0 ∷ (gap ++ (pad ++ words))) held in
    let (_, padded) = Holds-append m _ gap (pad ++ words) behind in
    let (_, both) = Holds-append m _ pad words padded in
    let place : p + 1 + length h.name + 1 + length gap + length pad ≡ p + 68 = omega (
      arith,
      length-unset stack (k + 2 + length h.name) (63 - length h.name),
      length-unset stack (k + 65) 3,
    ) in
    let (offset, size) =
      Holds-append m (p + 68) (word_bytes h.offset) (word_bytes h.length) (rw place at both) in
    let next : p + 68 + length (word_bytes h.offset) ≡ p + 72 =
      unfold word_bytes in (omega arith) in
    (
      first,
      name,
      end,
      load32-word_bytes m (p + 68) h.offset encodable.offset offset,
      load32-word_bytes m (p + 72) h.length encodable.size (rw next at size),
    )
