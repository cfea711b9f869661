-- ===== src/Packer/Tests.antt =====
-- An image of two files.
use owmice.Base.{
  ℕ, ◌+◌, ◌≡◌, arith, refl, inl, some, none, Bool, true, false, List, [], ◌∷◌, ◌++◌, codes, length,
  ltb, ◌&&◌, get_elem?,
}
use owmice.Memory.{Memory, written, load8}
use owmice.Memory.Block.{Holds, Holds-frame}
use owmice.Ramdisk.{FileHeader, Ramdisk, same_name, mtp_name}
use owmice.Ramdisk.Load.{initrd_init}
use owmice.Packer.{
  Source, data_offset, pack, pack_headers, pack_data, fits, short_names, word_bytes, table_bytes,
  header_bytes, unset,
}
use owmice.Packer.Table.{has_name, NamesFull}
use owmice.Packer.Roundtrip.{ReadsFrom, read_fs-pack}

abbrev hello : Source
hello = record { name = codes "hello"; content = some (codes "Hi!") }

abbrev greet : Source
greet = record { name = codes "greet"; content = some (codes "Moin") }

abbrev two_headers : List FileHeader
two_headers =
    record { magic = 0xBF; name = codes "hello"; offset = data_offset; length = 3 }
    ∷ record { magic = 0xBF; name = codes "greet"; offset = data_offset + 3; length = 4 }
    ∷ []

-- What is not set is 0xCC.
abbrev image : List ℕ
image = word_bytes 2 ++ (table_bytes (λ k. 0xCC) 0 64 two_headers ++ codes "Hi!Moin")

packed : pack (λ k. 0xCC) (hello ∷ greet ∷ []) ≡ some image
unfolding pack pack_headers pack_data fits short_names
packed = refl

-- The image begins with the count, the first magic number and the first letter.
first_bytes :
    (get_elem? image 0 ≡ some 2) × (get_elem? image 4 ≡ some 0xBF) × (get_elem? image 5 ≡ some b'h')
unfolding word_bytes table_bytes header_bytes
first_bytes = (refl, refl, refl)

missing : pack (λ k. 0) (hello ∷ record { name = codes "x"; content = none } ∷ []) ≡ none
unfolding pack pack_headers pack_data fits short_names
missing = refl

other_name : has_name (codes "greet") (hello ∷ []) ≡ false
unfolding has_name same_name
other_name = refl

not_mtp : same_name (codes "greet") mtp_name ≡ false
unfolding same_name
not_mtp = refl

names : NamesFull (hello ∷ greet ∷ [])
names = omega arith

all_bytes : List ℕ → Bool
all_bytes [] = true
all_bytes (c ∷ s) = ltb c 256 && all_bytes s

Holds-written : (p : ℕ) (s : List ℕ) → all_bytes s ≡ true → Holds (written p s) p s
unfolding all_bytes load8
Holds-written p [] h = tt
Holds-written p (c ∷ s) h = (
  ground arith,
  Holds-frame (written (p + 1) s) (written p (c ∷ s)) (p + 1) s (λ a lo hi. ground arith)
      (Holds-written (p + 1) s (ground arith)),
)

image_bytes : all_bytes image ≡ true
unfolding all_bytes word_bytes table_bytes header_bytes unset
image_bytes = refl

image_size : length image ≡ 4875
unfolding word_bytes table_bytes header_bytes unset
image_size = refl

abbrev memory : Memory
memory = written 0x200000 image

read_fs-pack_example :
    (disk : Ramdisk) × (initrd_init 64 0x200000 memory ≡ some disk)
    × ReadsFrom disk 0x500000 (codes "greet") (codes "Moin") 1
read_fs-pack_example =
    read_fs-pack 64 (λ k. 0xCC) (hello ∷ []) [] (codes "greet") (codes "Moin") image 0x200000
      0x500000 memory (omega arith) packed names other_name not_mtp
      (Holds-written 0x200000 image image_bytes) (omega (arith, image_size)) (omega arith)
      (inl (omega (arith, image_size)))
