-- ===== src/Packer/Table.antt =====
-- The headers and the contents that the packer writes for a file.
use owmice.Base.{
  ℕ, suc, ◌+◌, ◌%◌, ◌^◌, ◌<◌, ◌≡◌, refl, sym, ap, ◌∙◌, arith, Bool, true, false, ◌≤◌, ◌||◌, some,
  List, [], ◌∷◌, ◌++◌, length, length-append, get_elem?, Bool-cases, Option-cases, inl, inr,
}
use mathlib.Core.List.{append_assoc}
use owmice.Ramdisk.{FileHeader, same_name, find_node, file_node, file_nodes}
use owmice.Ramdisk.Names.{same_name_refl}
use owmice.Packer.{
  Source, data_offset, pack_headers, pack_data, pack, fits, short_names, word_bytes, table_bytes,
}
use owmice.Packer.Encode.{NoZero, AllEncodable}

-- Whether one of the files has the name.
unfoldable pub has_name : List ℕ → List Source → Bool
has_name name [] = false
has_name name (f ∷ fs) = same_name name f.name || has_name name fs

abbrev pub header : List ℕ → ℕ → List ℕ → FileHeader
header name off bytes = record { magic = 0xBF; name = name; offset = off; length = length bytes }

pack_headers-cons :
    (off : ℕ) (f : Source) (fs : List Source) (hs : List FileHeader)
    → pack_headers off (f ∷ fs) ≡ some hs
    → (bytes : List ℕ) × (hs' : List FileHeader) × (f.content ≡ some bytes)
      × (pack_headers ((off + length bytes) % 2 ^ 32) fs ≡ some hs')
      × (header f.name off bytes ∷ hs' ≡ hs)
unfolding pack_headers
pack_headers-cons off f fs hs e = elim (Option-cases f.content) [
  | inl missing ↦ cc (rw missing at e)
  | inr (bytes, there) ↦
      let e = rw there at e in
      elim (Option-cases (pack_headers ((off + length bytes) % 2 ^ 32) fs)) [
        | inl missing ↦ cc (rw missing at e)
        | inr (hs', rest) ↦ let e = rw rest at e in (bytes, hs', there, rest, cc e)
      ]
]

pack_data-cons :
    (f : Source) (fs : List Source) (contents bytes : List ℕ)
    → pack_data (f ∷ fs) ≡ some contents
    → f.content ≡ some bytes
    → (contents' : List ℕ) × (pack_data fs ≡ some contents') × (bytes ++ contents' ≡ contents)
unfolding pack_data
pack_data-cons f fs contents bytes e there =
    let e = rw there at e in
    elim (Option-cases (pack_data fs)) [
      | inl missing ↦ cc (rw missing at e)
      | inr (contents', rest) ↦ let e = rw rest at e in (contents', rest, cc e)
    ]

module _ (name bytes : List ℕ) (after : List Source) where
  abbrev source : Source
  source = record { name = name; content = some bytes }

  -- The header of the file, and where its bytes stand in the contents.
  pub header_and_contents :
      (before : List Source) (off : ℕ) (hs : List FileHeader) (contents : List ℕ)
      → pack_headers off (before ++ source ∷ after) ≡ some hs
      → pack_data (before ++ source ∷ after) ≡ some contents
      → off + length contents < 2 ^ 32
      → (d1 d2 : List ℕ) × (contents ≡ d1 ++ (bytes ++ d2))
        × (get_elem? hs (length before) ≡ some (header name (off + length d1) bytes))
  header_and_contents [] off hs contents eh ed below =
      let (b, hs', there, rest, split) = pack_headers-cons off source after hs eh in
      let (contents', rest', split') = pack_data-cons source after contents bytes ed refl in
      let same : b ≡ bytes = cc there in
      (
        [],
        contents',
        sym split',
        ap (λ (l : List FileHeader). get_elem? l 0) (sym split)
            ∙ ap (λ (x : List ℕ). some (header name off x)) same
            ∙ ap (λ (o : ℕ). some (header name o bytes)) (omega arith),
      )
  header_and_contents (f ∷ before) off hs contents eh ed below =
      let (b, hs', there, rest, split) = pack_headers-cons off f (before ++ source ∷ after) hs eh in
      let (contents', rest', split') =
        pack_data-cons f (before ++ source ∷ after) contents b ed there in
      let total : length b + length contents' ≡ length contents =
        sym (length-append b contents') ∙ ap length split' in
      let exact : (off + length b) % 2 ^ 32 ≡ off + length b = omega arith in
      let (d1, d2, cut, found) =
        header_and_contents before (off + length b) hs' contents' (rw exact at rest) rest'
          (omega arith) in
      (
        b ++ d1,
        d2,
        sym split' ∙ ap (◌++◌ b) cut ∙ sym (append_assoc b d1 (bytes ++ d2)),
        ap (λ (l : List FileHeader). get_elem? l (suc (length before))) (sym split)
            ∙ found
            ∙ ap (λ (o : ℕ). some (header name o bytes)) (omega (arith, length-append b d1)),
      )

  pub found_at :
      (before : List Source) (off j k : ℕ) (hs : List FileHeader)
      → pack_headers off (before ++ source ∷ after) ≡ some hs
      → has_name name before ≡ false
      → find_node name k (file_nodes j hs) ≡ some (k + length before)
  unfolding find_node file_nodes file_node has_name
  found_at [] off j k hs eh other =
      let (b, hs', there, rest, split) = pack_headers-cons off source after hs eh in
      ap (λ (l : List FileHeader). find_node name k (file_nodes j l)) (sym split)
      ∙ rw (same_name_refl name) (ap some (omega arith))
  found_at (f ∷ before) off j k hs eh other =
      let (b, hs', there, rest, split) = pack_headers-cons off f (before ++ source ∷ after) hs eh in
      elim (Bool-cases (same_name name f.name)) [
        | inl same ↦ cc (rw same at other)
        | inr differs ↦
            let step : find_node name k (file_nodes j (header f.name off b ∷ hs'))
                ≡ some (k + 1 + length before) =
              rw differs (found_at before _ (j + 1) (k + 1) hs' rest (rw differs at other)) in
            ap (λ (l : List FileHeader). find_node name k (file_nodes j l)) (sym split)
            ∙ step
            ∙ ap some (omega arith)
      ]

-- No name has a byte that is 0.
abbrev pub NamesFull : List Source → Type 0
NamesFull [] = Unit
NamesFull (f ∷ fs) = NoZero f.name × NamesFull fs

pub pack_headers-AllEncodable :
    (fs : List Source) (off : ℕ) (hs : List FileHeader) (contents : List ℕ)
    → pack_headers off fs ≡ some hs
    → pack_data fs ≡ some contents
    → off + length contents < 2 ^ 32
    → short_names fs ≡ true
    → NamesFull fs
    → AllEncodable hs × (length hs ≡ length fs)
unfolding short_names
pack_headers-AllEncodable [] off hs contents eh ed below short full =
    let none_there : hs ≡ [] = unfold pack_headers in (cc eh) in rw none_there (tt, refl)
pack_headers-AllEncodable (f ∷ fs) off hs contents eh ed below short full =
    let (b, hs', there, rest, split) = pack_headers-cons off f fs hs eh in
    let (contents', rest', split') = pack_data-cons f fs contents b ed there in
    let total : length b + length contents' ≡ length contents =
      sym (length-append b contents') ∙ ap length split' in
    let exact : (off + length b) % 2 ^ 32 ≡ off + length b = omega arith in
    let name_fits : length f.name < 64 = ground arith in
    let (all, count) =
      pack_headers-AllEncodable fs (off + length b) hs' contents' (rw exact at rest) rest'
        (omega arith) (ground arith) full.1 in
    rw (sym split) (
      (record { short = name_fits; full = full.0; offset = omega arith; size = omega arith }, all),
      omega (arith, count),
    )

pub pack-parts :
    (stack : ℕ → ℕ) (fs : List Source) (image : List ℕ)
    → pack stack fs ≡ some image
    → (hs : List FileHeader) × (contents : List ℕ) × (pack_headers data_offset fs ≡ some hs)
      × (pack_data fs ≡ some contents)
      × (image ≡ word_bytes (length fs) ++ (table_bytes stack 0 64 hs ++ contents))
      × (length fs ≤ 63)
      × (short_names fs ≡ true)
unfolding pack fits
pack-parts stack fs image e = elim (Bool-cases (fits fs)) [
  | inr large ↦ cc (rw large at e)
  | inl small ↦
      let e = rw small at e in
      elim (Option-cases (pack_headers data_offset fs)) [
        | inl missing ↦ cc (rw missing at e)
        | inr (hs, headers) ↦
            let e = rw headers at e in
            elim (Option-cases (pack_data fs)) [
              | inl missing ↦ cc (rw missing at e)
              | inr (cs, contents) ↦
                  let e = rw contents at e in
                  (hs, cs, headers, contents, cc e, ground (arith, small), ground (arith, small))
            ]
      ]
]
