-- ===== src/Packer/Roundtrip.antt =====
-- A file of an image that the packer wrote, found and read through the ramdisk.
use owmice.Base.{
  ℕ, suc, ◌+◌, ◌-◌, ◌^◌, ◌<◌, ◌≤◌, ◌≡◌, ◌⊎◌, inr, refl, sym, ap, ◌∙◌, arith, true, false, some,
  List, [], ◌∷◌, ◌++◌, length, length-append, leb, ltb, ◌&&◌,
}
use owmice.Memory.{Memory, load8}
use owmice.Memory.Block.{Holds, Holds-frame}
use owmice.Ramdisk.{
  FileHeader, Ramdisk, initrd_root, root_node, same_name, ramdisk_of, initrd_buffer_size,
  finddir_fs, read_fs, mtp_name, read_contents, u32,
}
use owmice.Ramdisk.Read.{read_fs-file, read_contents-count, read_count, read_left, Copied}
use owmice.Ramdisk.Listing.{finddir_root}
use owmice.Ramdisk.Load.{initrd_init}
use owmice.Packer.{Source, data_offset, pack_headers, pack_data, word_bytes, table_bytes, pack}
use owmice.Packer.Encode.{
  Holds-append, le-length-table_bytes, length-table_bytes, load32-word_bytes,
}
use owmice.Packer.Decode.{load_headers-table_bytes}
use owmice.Packer.Table.{
  has_name, header, header_and_contents, found_at, pack-parts, NamesFull, pack_headers-AllEncodable,
}

-- The same bytes at another place.
Holds-moved :
    (m m' : Memory) (p q : ℕ) (s : List ℕ)
    → ((i : ℕ) → i < length s → load8 m' (q + i) ≡ load8 m (p + i))
    → Holds m p s
    → Holds m' q s
Holds-moved m m' p q [] same h = tt
Holds-moved m m' p q (c ∷ s) same h = (
  ground (arith, same 0 (omega arith)),
  Holds-moved m m' (p + 1) (q + 1) s
      (λ i l.
        let a : p + suc i ≡ p + 1 + i = omega arith in
        let b : q + suc i ≡ q + 1 + i = omega arith in rw (a, b) at (same (suc i) (omega arith)))
      h.1,
)

Copied-Holds :
    (m m' : Memory) (p q : ℕ) (s : List ℕ) → Copied m p (length s) q m' → Holds m p s → Holds m' q s
Copied-Holds m m' p q s copied h =
    Holds-moved m m' p q s
      (λ i l.
        let back : q + i - q ≡ i = omega arith in
        let inside : (leb q (q + i) && ltb (q + i) (q + length s)) ≡ true = ground arith in
        rw (inside, back) at (copied (q + i)))
      h

-- What reading a whole file of a ramdisk gives, by the node that its name leads to.
pub record ReadsFrom (disk : Ramdisk) (buffer : ℕ) (name bytes : List ℕ) (i : ℕ) : Type 0 where
  pub found : finddir_fs disk initrd_root name ≡ some (root_node i)
  pub after : Memory
  pub read : read_fs disk (root_node i) 0 initrd_buffer_size buffer ≡ some (length bytes, after)
  pub shown : Holds after buffer bytes

-- A read of the whole of a file that is not too large.
whole_file :
    (m : Memory) (h : FileHeader) (buffer : ℕ) (bytes : List ℕ)
    → h.length ≡ length bytes
    → length bytes ≤ initrd_buffer_size
    → h.offset < 2 ^ 32
    → (h.offset + length bytes ≤ buffer) ⊎ (buffer ≤ h.offset)
    → Holds m h.offset bytes
    → ((read_contents m h 0 initrd_buffer_size buffer).0 ≡ length bytes)
      × Holds ((read_contents m h 0 initrd_buffer_size buffer).1) buffer bytes
whole_file m h buffer bytes whole small below apart there =
    let plain : h.offset + 0 ≡ h.offset = omega arith in
    let left : read_left h.length 0 initrd_buffer_size ≡ length bytes = ground arith in
    let count : read_count h.length 0 initrd_buffer_size ≡ length bytes = ground arith in
    let apart : (h.offset + 0 + read_left h.length 0 initrd_buffer_size ≤ buffer)
        ⊎ (buffer ≤ h.offset + 0) =
      rw (left, plain) apart in
    let r = read_contents-count m h 0 initrd_buffer_size buffer (omega arith) (omega arith) apart in
    let copied = rw (count, plain) at r.1 in
    (r.0 ∙ count, Copied-Holds m _ h.offset buffer bytes copied there)

-- From the headers and the contents.
read_fs-parts :
    (before after : List Source) (name bytes : List ℕ) (hs : List FileHeader) (stored : List ℕ)
    (location buffer : ℕ) (m : Memory)
    → pack_headers data_offset (before ++ record { name = name; content = some bytes } ∷ after)
      ≡ some hs
    → pack_data (before ++ record { name = name; content = some bytes } ∷ after) ≡ some stored
    → has_name name before ≡ false
    → same_name name mtp_name ≡ false
    → Holds m (location + data_offset) stored
    → location + data_offset + length stored < 2 ^ 32
    → length bytes ≤ initrd_buffer_size
    → (location + data_offset + length stored ≤ buffer) ⊎ (buffer ≤ location + data_offset)
    → ReadsFrom (ramdisk_of location hs m) buffer name bytes (length before)
read_fs-parts before after name bytes hs stored location buffer m headers contents first not_mtp
      loaded below small apart =
    let (d1, d2, cut, h) =
      header_and_contents name bytes after before data_offset hs stored headers contents
        (omega arith) in
    let src = location + data_offset + length d1 in
    let total : length stored ≡ length d1 + (length bytes + length d2) =
      ap length cut
      ∙ length-append d1 (bytes ++ d2)
      ∙ ap (◌+◌ (length d1)) (length-append bytes d2) in
    let place : u32 (data_offset + length d1 + location) ≡ src = omega arith in
    let moved = record (header name (data_offset + length d1) bytes) { offset = src } in
    let split = Holds-append m (location + data_offset) d1 (bytes ++ d2) (rw cut at loaded) in
    let there = Holds-append m src bytes d2 split.1 in
    let whole = whole_file m moved buffer bytes refl small (omega arith) (ground arith) there.0 in
    let at_node =
      read_fs-file location 0 initrd_buffer_size buffer (length before) hs _ m h
      ∙ ap (λ (o : ℕ). some (read_contents m (header name o bytes) 0 initrd_buffer_size buffer))
          place in
    record {
      found =
          finddir_root location hs m name
          ∙ rw (not_mtp, found_at name bytes after before data_offset 0 0 hs headers first)
              (ap (λ (i : ℕ). some (root_node i)) (omega arith));
      after = (read_contents m moved 0 initrd_buffer_size buffer).1;
      read =
          at_node
          ∙ ap (λ (n : ℕ). some (n, (read_contents m moved 0 initrd_buffer_size buffer).1)) whole.0;
      shown = whole.1;
    }

-- A file that `put_to_ramdisk` puts into an image, whose name no file before it has and which is not
-- called `mtp`, is found under its name once `initrd_init` has read the bytes of the image from the
-- memory below 2^32, and a read of it by the largest size gives back its bytes, if they are no more
-- than that and the buffer does not begin among the contents. The names are C strings, whatever the
-- bytes of the headers are that the packer does not set, and 64 steps are enough to read a name.
pub read_fs-pack :
    (fuel : ℕ) (stack : ℕ → ℕ) (before after : List Source) (name bytes image : List ℕ)
    (location buffer : ℕ) (m : Memory)
    → 64 ≤ fuel
    → pack stack (before ++ record { name = name; content = some bytes } ∷ after) ≡ some image
    → NamesFull (before ++ record { name = name; content = some bytes } ∷ after)
    → has_name name before ≡ false
    → same_name name mtp_name ≡ false
    → Holds m location image
    → location + length image < 2 ^ 32
    → length bytes ≤ initrd_buffer_size
    → (location + length image ≤ buffer) ⊎ (buffer ≤ location + data_offset)
    → (disk : Ramdisk) × (initrd_init fuel location m ≡ some disk)
      × ReadsFrom disk buffer name bytes (length before)
unfolding initrd_init
read_fs-pack fuel stack before after name bytes image location buffer m enough packed full first
      not_mtp loaded below small apart =
    let files = before ++ record { name = name; content = some bytes } ∷ after in
    let (hs, stored, headers, contents, whole, few, short) = pack-parts stack files image packed in
    let count = word_bytes (length files) in
    let table = table_bytes stack 0 64 hs in
    let size : length image ≡ length count + (length table + length stored) =
      ap length whole
      ∙ length-append count (table ++ stored)
      ∙ ap (◌+◌ (length count)) (length-append table stored) in
    let four : length count ≡ 4 = unfold word_bytes in refl in
    let at_start = Holds-append m location count (table ++ stored) (rw whole at loaded) in
    let (table_held, stored_held) =
      Holds-append m (location + 4) table stored (rw four at at_start.1) in
    let least = le-length-table_bytes stack 0 64 hs in
    let (all, as_many) =
      pack_headers-AllEncodable files data_offset hs stored headers contents
        (omega (arith, size, four, least)) short full in
    let wide = length-table_bytes stack 0 64 hs all (omega (arith, as_many)) in
    let (m1, read, out) =
      load_headers-table_bytes fuel stack location 0 64 (location + 4) m hs enough all
        (omega (arith, as_many)) table_held in
    let place : location + 4 + length table ≡ location + data_offset = omega (arith, wide) in
    let stored1 =
      Holds-frame m m1 (location + data_offset) stored
        (λ a lo hi. out a (inr (omega (arith, as_many)))) (rw place at stored_held) in
    let n = load32-word_bytes m location (length files) (omega arith) at_start.0 in
    (
      ramdisk_of location hs m1,
      rw (n ∙ sym as_many, read) refl,
      read_fs-parts before after name bytes hs stored location buffer m1 headers contents first
          not_mtp stored1 (omega (arith, size, four, wide)) small (omega (arith, size, four, wide)),
    )
