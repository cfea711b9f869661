-- ===== src/Packer.antt =====
-- utils/put_to_ramdisk.c, which writes the bytes of the image of a ramdisk: the number of files, 64
-- headers of 76 bytes, then the contents one behind the other. A pair of arguments is a record with the
-- contents of the file that the first one names; names are lists of bytes. The bytes of the headers
-- that are not set are those that the stack held.
pub mod Table
pub mod Encode
pub mod Decode
pub mod Roundtrip
mod Tests
use owmice.Base.{
  ℕ, zero, suc, ◌+◌, ◌-◌, ◌*◌, ◌/◌, ◌%◌, ◌^◌, Bool, true, false, ◌&&◌, Option, none, some, ◌>>=◌,
  List, [], ◌∷◌, ◌++◌, length, ltb, leb, if◌then◌else◌,
}
use owmice.Ramdisk.{FileHeader}

-- `content` is `none` where `fopen` fails.
pub record Source : Type 0 where
  pub name : List ℕ
  pub content : Option (List ℕ)

-- `sizeof(struct initrd_header) * 64 + sizeof(int)`.
abbrev pub data_offset : ℕ
data_offset = 76 * 64 + 4

-- The first loop of `main`, from the offset `off` on.
unfoldable pub pack_headers : ℕ → List Source → Option (List FileHeader)
pack_headers off [] = some []
pack_headers off (f ∷ fs) = (do
  bytes ← f.content
  hs ← pack_headers ((off + length bytes) % 2 ^ 32) fs
  some (record { magic = 0xBF; name = f.name; offset = off; length = length bytes } ∷ hs))

-- The second loop.
unfoldable pub pack_data : List Source → Option (List ℕ)
pack_data [] = some []
pack_data (f ∷ fs) = (do bytes ← f.content; contents ← pack_data fs; some (bytes ++ contents))

-- `char argc` counts at most 63 pairs, and a name has 64 bytes.
unfoldable pub short_names : List Source → Bool
short_names [] = true
short_names (f ∷ fs) = ltb (length f.name) 64 && short_names fs

unfoldable pub fits : List Source → Bool
fits fs = leb (length fs) 63 && short_names fs

-- The bytes of an `int`.
unfoldable pub word_bytes : ℕ → List ℕ
word_bytes v = v % 2 ^ 8 ∷ v / 2 ^ 8 % 2 ^ 8 ∷ v / 2 ^ 16 % 2 ^ 8 ∷ v / 2 ^ 24 % 2 ^ 8 ∷ []

-- The bytes of `headers` that are not set, from the byte `k` on.
unfoldable pub unset : (ℕ → ℕ) → ℕ → ℕ → List ℕ
unset stack k zero = []
unset stack k (suc n) = stack k % 2 ^ 8 ∷ unset stack (k + 1) n

-- The bytes of the header at the byte `k` of `headers`.
unfoldable pub header_bytes : (ℕ → ℕ) → ℕ → FileHeader → List ℕ
header_bytes stack k h =
    h.magic
    ∷ (h.name
        ++ (0
            ∷ (unset stack (k + 2 + length h.name) (63 - length h.name)
                ++ (unset stack (k + 65) 3 ++ (word_bytes h.offset ++ word_bytes h.length)))))

-- What `headers` holds from the byte `k` on: some headers, and up to `n` headers what is not set.
unfoldable pub table_bytes : (ℕ → ℕ) → ℕ → ℕ → List FileHeader → List ℕ
table_bytes stack k n [] = unset stack k (76 * n)
table_bytes stack k n (h ∷ hs) = header_bytes stack k h ++ table_bytes stack (k + 76) (n - 1) hs

-- The bytes of the image; `stack` is what `headers` holds at first. `none`: a file is missing, or the
-- arguments do not fit and the run is not defined.
unfoldable pub pack : (ℕ → ℕ) → List Source → Option (List ℕ)
pack stack fs =
    if fits fs
    then (do
      headers ← pack_headers data_offset fs
      contents ← pack_data fs
      some (word_bytes (length fs) ++ (table_bytes stack 0 64 headers ++ contents)))
    else none
