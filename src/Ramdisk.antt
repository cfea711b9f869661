-- ===== src/Ramdisk.antt =====
-- The ramdisk of io/initrd.h behind the file system calls of io/vfs.h. The table of file headers, which
-- `initrd_init` (child Load) reads from the memory and nothing writes afterwards, and the nodes of the
-- files are lists of records, in which a name is the list of its bytes up to the 0; the contents of the files stand in memory, at the addresses in the headers. The functions that a
-- node points to are named, a missing one is `none`; a pointer to a node tells which one it is.
pub mod Names
pub mod Load
pub mod Read
pub mod Listing
mod Tests
use owmice.Base.{
  ℕ, zero, suc, ◌+◌, ◌-◌, ◌%◌, ◌^◌, bit_and, Bool, true, false, ◌&&◌, Option, none, some, ◌>>=◌,
  List, [], ◌∷◌, length, get_elem?, codes, ltb, leb, ◌==◌, if◌then◌else◌,
}
use owmice.Memory.{Memory}
use owmice.Bytes.{memcpy}

abbrev pub initrd_buffer_size : ℕ
initrd_buffer_size = 1048576

abbrev pub u32 : ℕ → ℕ
u32 n = n % 2 ^ 32

-- `initrd_file_header_t`.
pub record FileHeader : Type 0 where
  pub magic : ℕ
  pub name : List ℕ
  pub offset : ℕ
  pub length : ℕ

-- What a field of a node for a function points to.
pub data Handler : Type 0 where
  initrd_read : Handler
  initrd_readdir : Handler
  initrd_finddir : Handler

abbrev pub fs_file : ℕ
fs_file = 1

abbrev pub fs_directory : ℕ
fs_directory = 2

-- `fs_node_t`, without `ptr`, which is not used.
pub record FsNode : Type 0 where
  pub name : List ℕ
  pub mask : ℕ
  pub uid : ℕ
  pub gid : ℕ
  pub flags : ℕ
  pub inode : ℕ
  pub length : ℕ
  pub impl : ℕ
  pub read : Option Handler
  pub write : Option Handler
  pub «open» : Option Handler
  pub close : Option Handler
  pub readdir : Option Handler
  pub finddir : Option Handler

-- `initrd_root`, `initrd_mtp`, and `&root_nodes[i]`.
pub data NodePtr : Type 0 where
  initrd_root : NodePtr
  initrd_mtp : NodePtr
  root_node : ℕ → NodePtr

abbrev pub is_root : NodePtr → Bool
is_root initrd_root = true
is_root initrd_mtp = false
is_root (root_node i) = false

-- `struct dirent`.
pub record Dirent : Type 0 where
  pub name : List ℕ
  pub ino : ℕ

-- The entries of `root_nodes` are as many as `nroot_nodes` says.
pub record Ramdisk : Type 0 where
  pub memory : Memory
  pub file_headers : List FileHeader
  pub root : FsNode
  pub mtp : FsNode
  pub root_nodes : List FsNode

unfoldable pub node : Ramdisk → NodePtr → Option FsNode
node s initrd_root = some s.root
node s initrd_mtp = some s.mtp
node s (root_node i) = get_elem? s.root_nodes i

-- `streq` on names.
unfoldable pub same_name : List ℕ → List ℕ → Bool
same_name [] [] = true
same_name [] (c ∷ s) = false
same_name (c ∷ s) [] = false
same_name (c ∷ s) (d ∷ t) = c == d && same_name s t

abbrev pub mtp_name : List ℕ
mtp_name = codes "mtp"

-- `initrd_read` with the header of the file: the count, and the memory afterwards.
pub read_contents : Memory → FileHeader → ℕ → ℕ → ℕ → ℕ × Memory
read_contents m header offset size buffer =
    if ltb header.length offset
    then (0, m)
    else let size =
        if ltb header.length (u32 (offset + size)) then header.length - offset else size in
      if ltb initrd_buffer_size size
      then (0, m)
      else (size, memcpy m buffer (u32 (header.offset + offset)) size)

-- `initrd_read`; `none` for a node that has no header.
unfoldable pub read_file : Ramdisk → FsNode → ℕ → ℕ → ℕ → Option (ℕ × Memory)
read_file s n offset size buffer = (do
  header ← get_elem? s.file_headers n.inode
  some (read_contents s.memory header offset size buffer))

pub dirent_of : FsNode → Dirent
dirent_of n = record { name = n.name; ino = n.inode }

-- `initrd_readdir`.
pub read_entry : Ramdisk → NodePtr → ℕ → Option Dirent
read_entry s p index =
    if is_root p && index == 0
    then some (record { name = mtp_name; ino = 0 })
    else if leb (length s.root_nodes) (u32 (index + 2 ^ 32 - 1))
    then none
    else (do n ← get_elem? s.root_nodes (u32 (index + 2 ^ 32 - 1)); some (dirent_of n))

-- The loop of `initrd_finddir`, from the node `i` on.
unfoldable pub find_node : List ℕ → ℕ → List FsNode → Option ℕ
find_node name i [] = none
find_node name i (n ∷ ns) =
    let rest = find_node name (i + 1) ns in if same_name name n.name then some i else rest

-- `initrd_finddir`.
pub find_entry : Ramdisk → NodePtr → List ℕ → Option NodePtr
find_entry s p name =
    if is_root p && same_name name mtp_name
    then some initrd_mtp
    else (do i ← find_node name 0 s.root_nodes; some (root_node i))

-- `read_fs`: the one function that reads is `initrd_read`.
unfoldable pub read_fs : Ramdisk → NodePtr → ℕ → ℕ → ℕ → Option (ℕ × Memory)
read_fs s p offset size buffer = (do
  n ← node s p
  elim n.read [ some h ↦ read_file s n offset size buffer | none ↦ some (0, s.memory) ])

abbrev is_directory : FsNode → Bool
is_directory n = bit_and n.flags 7 == fs_directory

pub readdir_fs : Ramdisk → NodePtr → ℕ → Option Dirent
readdir_fs s p index = (do
  n ← node s p
  (if is_directory n then elim n.readdir [ some h ↦ read_entry s p index | none ↦ none ] else none))

pub finddir_fs : Ramdisk → NodePtr → List ℕ → Option NodePtr
finddir_fs s p name = (do
  n ← node s p
  (if is_directory n then elim n.finddir [ some h ↦ find_entry s p name | none ↦ none ] else none))

unfoldable pub directory_node : List ℕ → FsNode
directory_node name = record {
  name = name;
  mask = 0;
  uid = 0;
  gid = 0;
  flags = fs_directory;
  inode = 0;
  length = 0;
  impl = 0;
  read = none;
  write = none;
  «open» = none;
  close = none;
  readdir = some initrd_readdir;
  finddir = some initrd_finddir;
}

unfoldable pub file_node : FileHeader → ℕ → FsNode
file_node h i = record {
  name = h.name;
  mask = 0;
  uid = 0;
  gid = 0;
  flags = fs_file;
  inode = i;
  length = h.length;
  impl = 0;
  read = some initrd_read;
  write = none;
  «open» = none;
  close = none;
  readdir = none;
  finddir = none;
}

-- The loop of `initrd_init` on the nodes, from the file `i` on.
unfoldable pub file_nodes : ℕ → List FileHeader → List FsNode
file_nodes i [] = []
file_nodes i (h ∷ hs) = file_node h i ∷ file_nodes (i + 1) hs

-- The loop of `initrd_init` on the headers.
unfoldable pub relocate : ℕ → List FileHeader → List FileHeader
relocate location [] = []
relocate location (h ∷ hs) = record h { offset = u32 (h.offset + location) } ∷ relocate location hs

-- What `initrd_init` leaves for the headers that it read. `malloc` finds room.
unfoldable pub ramdisk_of : ℕ → List FileHeader → Memory → Ramdisk
ramdisk_of location headers m = record {
  memory = m;
  file_headers = relocate location headers;
  root = directory_node (codes "initrd");
  mtp = directory_node mtp_name;
  root_nodes = file_nodes 0 headers;
}

-- A line of the listing: the name and its color.
abbrev pub light_blue : ℕ
light_blue = 9

abbrev pub white : ℕ
white = 15

abbrev pub colored : Dirent → FsNode → List ℕ × ℕ
colored d n = (d.name, if n.flags == fs_directory then light_blue else white)

-- The lines that `ls_initrd` prints, from the entry `i` on; `none` also where `finddir_fs` gives it
-- NULL, which it does not test.
pub listing : ℕ → Ramdisk → ℕ → Option (List (List ℕ × ℕ))
listing zero s i = none
listing (suc fuel) s i =
    let rest = listing fuel s (i + 1) in
    elim (readdir_fs s initrd_root i) [
      | none ↦ some []
      | some d ↦ (do
        p ← finddir_fs s initrd_root d.name
        n ← node s p
        ls ← rest
        some (colored d n ∷ ls))
    ]

pub ls_initrd : ℕ → Ramdisk → Option (List (List ℕ × ℕ))
ls_initrd fuel s = listing fuel s 0
