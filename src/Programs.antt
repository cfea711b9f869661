-- ===== src/Programs.antt =====
-- Files of the ramdisk as programs and texts: `read_initrd`, `cat_initrd` and `exec_initrd` of
-- io/initrd.h, over Ramdisk and Kernel. A program is a function on the memory, with its argument. The
-- memory of the kernel's heap is that of the ramdisk, and names are lists that no program changes. What `cat_initrd` prints is a list of bytes.
pub mod Exec
pub mod Draw
mod Tests
use owmice.Base.{
  ℕ, zero, suc, ◌+◌, ◌%◌, Bool, Option, none, some, ◌>>=◌, List, [], ◌∷◌, ◌==◌, if◌then◌else◌,
}
use owmice.Memory.{Memory, load8}
use owmice.Bytes.{memmove}
use owmice.Kernel.{Kernel, malloc, free}
use owmice.Ramdisk.{
  Ramdisk, NodePtr, initrd_root, initrd_buffer_size, same_name, finddir_fs, read_fs,
}

abbrev pub exec_addr : ℕ
exec_addr = 0x100060

abbrev pub exec_failed : ℕ
exec_failed = 0xDEADF113

-- `shell_buf`, `shell_size` and `shell_fname`.
pub record Shell : Type 0 where
  pub buf : ℕ
  pub size : ℕ
  pub fname : List ℕ

abbrev pub Program : Type 0
Program = ℕ → Memory → Memory × ℕ

abbrev pub on_memory : Ramdisk → Memory → Ramdisk
on_memory s m = record s { memory = m }

-- `exec_initrd` from the file on.
pub exec_found : Program → Shell → Ramdisk → List ℕ → ℕ → Option NodePtr → Option (ℕ × Memory)
exec_found program shell s fname arg1 none = some (exec_failed, s.memory)
exec_found program shell s fname arg1 (some p) = (do
  (sz, m) ← read_fs s p 0 initrd_buffer_size exec_addr
  (if sz == 0
      then some (exec_failed, m)
      else let (m, ret) = program arg1 m in
        some (
          ret,
          if same_name fname shell.fname then m else memmove m exec_addr shell.buf shell.size,
        )))

-- What is returned, and the memory afterwards.
pub exec_initrd : Program → Shell → Ramdisk → List ℕ → ℕ → Option (ℕ × Memory)
exec_initrd program shell s fname arg1 =
    let s = on_memory s (
      if same_name fname shell.fname
      then s.memory
      else memmove s.memory shell.buf exec_addr shell.size) in
    exec_found program shell s fname arg1 (finddir_fs s initrd_root fname)

abbrev kernel_memory : Kernel → Memory
kernel_memory k = k.heap.memory

abbrev with_memory : Kernel → Memory → Kernel
with_memory k m = record k { heap = record (k.heap) { memory = m } }

-- A pointer to the contents, or 0; the inner `none` is a `free` that never returns. `slot` is the
-- address of the local variable of `k_heapLCABFree`.
pub read_initrd : ℕ → ℕ → Ramdisk → Kernel → List ℕ → Option (Option (ℕ × Kernel))
read_initrd fuel slot s k fname =
    elim (finddir_fs (on_memory s (kernel_memory k)) initrd_root fname) [
      | none ↦ some (some (0, k))
      | some p ↦ (do
        (buf, k) ← malloc fuel k initrd_buffer_size
        (sz, m) ← read_fs (on_memory s (kernel_memory k)) p 0 initrd_buffer_size buf
        (if sz == 0
            then (do
              freed ← free fuel (with_memory k m) slot buf
              some (freed >>= (λ k. some (0, k))))
            else (do
              (ret, k) ← malloc fuel (with_memory k m) sz
              freed ← free fuel (with_memory k (memmove (kernel_memory k) ret buf sz)) slot buf
              some (freed >>= (λ k. some (ret, k))))))
    ]

-- The loop of `cat_initrd` from the byte `j`, with `left` to go.
pub cat_text : ℕ → ℕ → Memory → ℕ → List ℕ
cat_text zero j m buf = []
cat_text (suc left) j m buf =
    let rest = cat_text left (j + 1) m buf in
    load8 m (buf + j) ∷ (if (j + 1) % 50 == 0 then 10 ∷ rest else rest)

-- What is printed of the contents, `none` for no such file, and the kernel afterwards. A read of
-- nothing frees the buffer and goes on.
pub cat_initrd : ℕ → ℕ → Ramdisk → Kernel → List ℕ → Option (Option (Option (List ℕ) × Kernel))
cat_initrd fuel slot s k fname =
    elim (finddir_fs (on_memory s (kernel_memory k)) initrd_root fname) [
      | none ↦ some (some (none, k))
      | some p ↦ (do
        (buf, k) ← malloc fuel k initrd_buffer_size
        (sz, m) ← read_fs (on_memory s (kernel_memory k)) p 0 initrd_buffer_size buf
        let k = with_memory k m
        first ← (if sz == 0 then free fuel k slot buf else some (some k))
        elim first [
          | none ↦ some none
          | some k ↦ (do
            last ← free fuel k slot buf
            some (last >>= (λ k. some (some (cat_text sz 0 m buf), k))))
        ])
    ]
