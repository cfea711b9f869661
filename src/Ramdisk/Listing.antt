-- ===== src/Ramdisk/Listing.antt =====
-- What `ls_initrd` lists.
use owmice.Base.{
  ℕ, zero, suc, ◌+◌, ◌-◌, ◌^◌, ◌<◌, ◌≡◌, refl, ap, ◌∙◌, arith, true, false, none, some, List, [],
  ◌∷◌, map, length, get_elem?, Bool-cases, inl, inr, if◌then◌else◌, ◌==◌, leb, ◌>>=◌,
}
use owmice.Memory.{Memory}
use owmice.Ramdisk.{
  FileHeader, FsNode, Dirent, NodePtr, initrd_root, initrd_mtp, root_node, Ramdisk, node, same_name,
  mtp_name, readdir_fs, read_entry, dirent_of, finddir_fs, find_entry, find_node, file_node,
  file_nodes, ramdisk_of, directory_node, light_blue, white, colored, listing, ls_initrd, u32,
}
use owmice.Ramdisk.Names.{find_node-found, get_elem?-file_nodes, flags-file_nodes}

pub length-file_nodes : (k : ℕ) (hs : List FileHeader) → length (file_nodes k hs) ≡ length hs
unfolding file_nodes
length-file_nodes k [] = refl
length-file_nodes k (h ∷ hs) = ap suc (length-file_nodes (k + 1) hs)

-- The line for a file: its name, in blue only for the name of the directory `mtp`.
abbrev pub line : FileHeader → List ℕ × ℕ
line h = (h.name, if same_name h.name mtp_name then light_blue else white)

listing-step :
    (fuel i : ℕ) (s : Ramdisk) (d : Dirent) (p : NodePtr) (n : FsNode) (ls : List (List ℕ × ℕ))
    → readdir_fs s initrd_root i ≡ some d
    → finddir_fs s initrd_root d.name ≡ some p
    → node s p ≡ some n
    → listing fuel s (i + 1) ≡ some ls
    → listing (suc fuel) s i ≡ some (colored d n ∷ ls)
unfolding listing
listing-step fuel i s d p n ls read found there next = rw (listing, read, found, there, next) refl

listing-stop :
    (fuel i : ℕ) (s : Ramdisk)
    → readdir_fs s initrd_root i ≡ none
    → listing (suc fuel) s i ≡ some []
unfolding listing
listing-stop fuel i s over = rw (listing, over) refl

module _ (location : ℕ) (headers : List FileHeader) (m : Memory) where
  abbrev disk : Ramdisk
  disk = ramdisk_of location headers m

  pub finddir_root :
      (name : List ℕ)
      → finddir_fs disk initrd_root name ≡ (
          if same_name name mtp_name
          then some initrd_mtp
          else (find_node name 0 (file_nodes 0 headers) >>= (λ i. some (root_node i))))
  unfolding finddir_fs find_entry ramdisk_of node directory_node
  finddir_root name = refl

  readdir_first : readdir_fs disk initrd_root 0 ≡ some (record { name = mtp_name; ino = 0 })
  unfolding readdir_fs read_entry ramdisk_of node directory_node
  readdir_first = refl

  readdir_file :
      (i : ℕ) (h : FileHeader)
      → i < length headers
      → length headers < 2 ^ 31
      → get_elem? headers i ≡ some h
      → readdir_fs disk initrd_root (i + 1) ≡ some (record { name = h.name; ino = i })
  unfolding readdir_fs read_entry ramdisk_of node directory_node dirent_of file_node
  readdir_file i h inside small e =
      let wraps : u32 (i + 1 + 2 ^ 32 - 1) ≡ i = omega arith in
      let later : (i + 1 == 0) ≡ false = ground arith in
      let plain : 0 + i ≡ i = omega arith in
      let there = rw plain at (get_elem?-file_nodes i 0 headers h e) in
      let test : leb (length (file_nodes 0 headers)) i ≡ false =
        rw (length-file_nodes 0 headers) (ground arith) in
      rw (later, wraps, test, there) refl

  readdir_end :
      (i : ℕ)
      → i ≡ length headers
      → length headers < 2 ^ 31
      → readdir_fs disk initrd_root (i + 1) ≡ none
  unfolding readdir_fs read_entry ramdisk_of node directory_node
  readdir_end i over small =
      let wraps : u32 (i + 1 + 2 ^ 32 - 1) ≡ i = omega arith in
      let later : (i + 1 == 0) ≡ false = ground arith in
      let test : leb (length (file_nodes 0 headers)) i ≡ true =
        rw (length-file_nodes 0 headers) (ground arith) in
      rw (later, wraps, test) refl

  -- The line of a file, whatever node its name leads to.
  file_line :
      (fuel i : ℕ) (h : FileHeader) (ls : List (List ℕ × ℕ))
      → i < length headers
      → length headers < 2 ^ 31
      → get_elem? headers i ≡ some h
      → listing fuel disk (i + 1 + 1) ≡ some ls
      → listing (suc fuel) disk (i + 1) ≡ some (line h ∷ ls)
  unfolding node ramdisk_of directory_node file_node
  file_line fuel i h ls inside small e next =
      let read = readdir_file i h inside small e in
      let root = finddir_root h.name in
      elim (Bool-cases (same_name h.name mtp_name)) [
        | inl same ↦
            let found = rw same at root in
            rw same (listing-step fuel (i + 1) disk _ initrd_mtp _ ls read found refl next)
        | inr other ↦
            let (j, n, first, there) =
              find_node-found i 0 (file_nodes 0 headers) (file_node h (0 + i))
                (get_elem?-file_nodes i 0 headers h e) in
            let place : 0 + j ≡ j = omega arith in
            let first : find_node h.name 0 (file_nodes 0 headers) ≡ some j =
              first ∙ ap some place in
            let found = rw (other, first) at root in
            let plain = flags-file_nodes j 0 headers n there in
            let l = listing-step fuel (i + 1) disk _ (root_node j) n ls read found there next in
            rw other (rw plain at l)
      ]

  -- The lines of the files from `i` on, which `rest` are.
  listing_from :
      (rest : List FileHeader) (fuel i : ℕ)
      → length rest < fuel
      → i + length rest ≡ length headers
      → length headers < 2 ^ 31
      → ((j : ℕ) → get_elem? headers (i + j) ≡ get_elem? rest j)
      → listing fuel disk (i + 1) ≡ some (map line rest)
  listing_from rest zero i enough total small same = ground arith
  listing_from [] (suc fuel) i enough total small same =
      listing-stop fuel (i + 1) disk (readdir_end i (omega arith) small)
  listing_from (h ∷ rest) (suc fuel) i enough total small same =
      let here : i + 0 ≡ i = omega arith in
      let next =
        listing_from rest fuel (i + 1) (omega arith) (omega arith) small
          (λ j. let step : i + 1 + j ≡ i + suc j = omega arith in rw step (same (suc j))) in
      file_line fuel i h (map line rest) (omega arith) small (rw here at (same 0)) next

  -- With fuel above the number of files and 1, and fewer than 2^31 files, `ls_initrd` lists the
  -- directory `mtp` in blue and then the name of every file in the order of the headers, in white
  -- unless the name is the directory's, and ends.
  pub ls_initrd-lines :
      (fuel : ℕ)
      → length headers + 1 < fuel
      → length headers < 2 ^ 31
      → ls_initrd fuel disk ≡ some ((mtp_name, light_blue) ∷ map line headers)
  unfolding ls_initrd node ramdisk_of directory_node same_name
  ls_initrd-lines zero enough small = ground arith
  ls_initrd-lines (suc fuel) enough small =
      listing-step fuel 0 disk _ initrd_mtp _ (map line headers) readdir_first
        (finddir_root mtp_name) refl
        (listing_from headers fuel 0 (omega arith) (omega arith) small
          (λ j. let plain : 0 + j ≡ j = omega arith in rw plain refl))
