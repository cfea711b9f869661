-- ===== src/Ramdisk/Read.antt =====
-- What a read of a file puts into the buffer.
use owmice.Base.{
  [], zero, suc, ap, ◌∷◌, some, get_elem?, List, ltb→le, ℕ, ◌+◌, ◌-◌, ◌^◌, ◌<◌, ◌≤◌, ◌≡◌, ◌⊎◌, refl,
  arith, Bool-cases, inl, inr, if◌then◌else◌, leb, ltb,
}
use owmice.Memory.{Memory, load8}
use owmice.Bytes.Copy.{within, load8-memcpy, load8-memcpy_outside}
use owmice.Ramdisk.Names.{get_elem?-file_nodes}
use owmice.Ramdisk.{
  root_node, node, file_node, relocate, ramdisk_of, read_fs, read_file, FileHeader, read_contents,
  initrd_buffer_size, u32,
}

-- What a read of so many bytes finds from an offset on: what is left of the file at most.
abbrev pub read_left : ℕ → ℕ → ℕ → ℕ
read_left length offset size = if leb size (length - offset) then size else length - offset

-- The bytes that a read gives: none when more are found than the largest read has.
abbrev pub read_count : ℕ → ℕ → ℕ → ℕ
read_count length offset size =
    let left = read_left length offset size in if leb left initrd_buffer_size then left else 0

-- The memory after a read that copies so many bytes from `src`.
abbrev pub Copied : Memory → ℕ → ℕ → ℕ → Memory → Type 0
Copied m src count buffer m' =
    (a : ℕ)
    → load8 m' a ≡ (if within buffer count a then load8 m (src + (a - buffer)) else load8 m a)

nothing-Copied : (m : Memory) (src buffer : ℕ) → Copied m src 0 buffer m
nothing-Copied m src buffer a = ground arith

-- For an offset and a size with a sum below 2^32, and a buffer apart from the contents, a read of a
-- file gives the bytes from the offset on, as many as asked for or are left, or none when these are
-- more than the largest read; it writes nothing outside them.
pub read_contents-count :
    (m : Memory) (h : FileHeader) (offset size buffer : ℕ)
    → offset + size < 2 ^ 32
    → h.offset + offset < 2 ^ 32
    → (h.offset + offset + read_left h.length offset size ≤ buffer) ⊎ (buffer ≤ h.offset + offset)
    → ((read_contents m h offset size buffer).0 ≡ read_count h.length offset size)
      × Copied m
          (h.offset + offset)
          (read_count h.length offset size)
          buffer
          ((read_contents m h offset size buffer).1)
unfolding read_contents
read_contents-count m h offset size buffer sum below apart =
    let exact : u32 (offset + size) ≡ offset + size = omega arith in
    let address : u32 (h.offset + offset) ≡ h.offset + offset = omega arith in
    rw (exact, address)
      (elim (Bool-cases (ltb h.length offset)) [
        | inl behind ↦
            let none_left : read_count h.length offset size ≡ 0 = ground arith in
            rw (behind, none_left) (refl, nothing-Copied m (h.offset + offset) buffer)
        | inr inside ↦
            let left : (if ltb h.length (offset + size) then h.length - offset else size)
                ≡ read_left h.length offset size =
              ground arith in
            rw (inside, left)
              (elim (Bool-cases (ltb initrd_buffer_size (read_left h.length offset size))) [
                | inl large ↦
                    let none_read : read_count h.length offset size ≡ 0 = ground arith in
                    rw (large, none_read) (refl, nothing-Copied m (h.offset + offset) buffer)
                | inr fits ↦
                    let all_read : read_count h.length offset size
                        ≡ read_left h.length offset size =
                      ground arith in
                    let apart : (buffer ≤ h.offset + offset)
                        ⊎ (h.offset + offset + read_left h.length offset size ≤ buffer) =
                      ground arith in
                    rw (fits, all_read)
                      (
                        refl,
                        λ a.
                            load8-memcpy m buffer (h.offset + offset)
                              (read_left h.length offset size) a apart,
                      )
              ])
      ])

-- Reading through the file system calls, on the ramdisk that `initrd_init` makes.
get_elem?-relocate :
    (i location : ℕ) (hs : List FileHeader) (h : FileHeader)
    → get_elem? hs i ≡ some h
    → get_elem? (relocate location hs) i ≡ some (record h { offset = u32 (h.offset + location) })
unfolding relocate
get_elem?-relocate i location [] h e = cc e
get_elem?-relocate zero location (x ∷ hs) h e =
    let same : x ≡ h = cc e in
    ap (λ (y : FileHeader). some (record y { offset = u32 (y.offset + location) })) same
get_elem?-relocate (suc i) location (x ∷ hs) h e = get_elem?-relocate i location hs h e

pub read_fs-file :
    (location offset size buffer i : ℕ) (hs : List FileHeader) (h : FileHeader) (m : Memory)
    → get_elem? hs i ≡ some h
    → read_fs (ramdisk_of location hs m) (root_node i) offset size buffer
      ≡ some (read_contents m (record h { offset = u32 (h.offset + location) }) offset size buffer)
unfolding read_fs node ramdisk_of read_file file_node
read_fs-file location offset size buffer i hs h m e =
    let plain : 0 + i ≡ i = omega arith in
    rw (rw plain at (get_elem?-file_nodes i 0 hs h e), get_elem?-relocate i location hs h e) refl

-- A read writes nothing outside the bytes that it counts, at most as many as the largest read has.
pub read_contents_outside :
    (m : Memory) (h : FileHeader) (offset size buffer : ℕ)
    → ((read_contents m h offset size buffer).0 ≤ initrd_buffer_size)
      × ((a : ℕ)
          → (a < buffer) ⊎ (buffer + (read_contents m h offset size buffer).0 ≤ a)
          → load8 ((read_contents m h offset size buffer).1) a ≡ load8 m a)
unfolding read_contents
read_contents_outside m h offset size buffer =
    let left = if ltb h.length (u32 (offset + size)) then h.length - offset else size in
    elim (Bool-cases (ltb h.length offset)) [
      | inl behind ↦ rw behind (omega arith, λ a out. refl)
      | inr inside ↦ rw inside (elim (Bool-cases (ltb initrd_buffer_size left)) [
        | inl large ↦ rw large (omega arith, λ a out. refl)
        | inr fits ↦ rw fits (
          ltb→le initrd_buffer_size left fits,
          load8-memcpy_outside m buffer (u32 (h.offset + offset)) left,
        )
      ])
    ]
