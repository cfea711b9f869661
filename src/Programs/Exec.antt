-- ===== src/Programs/Exec.antt =====
-- Running a program leaves the shell where it was.
use owmice.Base.{
  ==→eq, ℕ, ◌+◌, ◌-◌, ◌<◌, ◌≤◌, ◌≡◌, ◌⊎◌, refl, sym, ap, ◌∙◌, arith, false, some, List, Bool-cases,
  Option-cases, inl, inr, ◌==◌,
}
use owmice.Memory.{Memory, load8}
use owmice.Bytes.{memmove}
use owmice.Bytes.Copy.{load8-memmove}
use owmice.Ramdisk.{
  read_contents, u32, FileHeader, NodePtr, initrd_root, initrd_mtp, root_node, ramdisk_of,
  initrd_buffer_size, same_name, mtp_name, find_node, file_nodes, finddir_fs, read_fs, node,
  directory_node,
}
use owmice.Ramdisk.Names.{find_node-header}
use owmice.Ramdisk.Listing.{finddir_root}
use owmice.Ramdisk.Read.{read_fs-file, read_contents_outside}
use owmice.Programs.{Program, Shell, exec_addr, exec_failed, exec_found, exec_initrd}

-- The two memories agree outside `sz` bytes at `buffer`.
abbrev Apart : ℕ → ℕ → Memory → Memory → Type 0
Apart buffer sz m m' = (a : ℕ) → (a < buffer) ⊎ (buffer + sz ≤ a) → load8 m' a ≡ load8 m a

-- A node that a name leads to can be read, and the read stays within the buffer.
readable :
    (location : ℕ) (hs : List FileHeader) (m : Memory) (name : List ℕ) (p : NodePtr) (buffer : ℕ)
    → finddir_fs (ramdisk_of location hs m) initrd_root name ≡ some p
    → (sz : ℕ) × (m' : Memory) × (read_fs (ramdisk_of location hs m) p 0 initrd_buffer_size buffer
        ≡ some (sz, m'))
      × (sz ≤ initrd_buffer_size)
      × Apart buffer sz m m'
unfolding read_fs node ramdisk_of directory_node
readable location hs m name p buffer e =
    let e = sym (finddir_root location hs m name) ∙ e in
    elim (Bool-cases (same_name name mtp_name)) [
      | inl same ↦
          let here : initrd_mtp ≡ p = cc (rw same at e) in
          (0, m, rw⁻¹ here refl, omega arith, λ a out. refl)
      | inr other ↦
          let e = rw other at e in
          elim (Option-cases (find_node name 0 (file_nodes 0 hs))) [
            | inl missing ↦ cc (rw missing at e)
            | inr (r, found) ↦
                let e = rw found at e in
                let here : root_node r ≡ p = cc e in
                let (i, h, place, there) = find_node-header name 0 0 r hs found in
                let at_i : root_node i ≡ p = ap root_node (omega (arith, place)) ∙ here in
                let read = read_fs-file location 0 initrd_buffer_size buffer i hs h m there in
                let moved = record h { offset = u32 (h.offset + location) } in
                let r = read_contents m moved 0 initrd_buffer_size buffer in
                (
                  r.0,
                  r.1,
                  rw⁻¹ at_i read,
                  (read_contents_outside m moved 0 initrd_buffer_size buffer).0,
                  (read_contents_outside m moved 0 initrd_buffer_size buffer).1,
                )
          ]
    ]

-- `exec_initrd` of a file that is not the shell, with the place for the shell apart from the largest
-- program and holding no more than that, and a program that writes nothing there, always returns, and
-- leaves the shell's bytes at the place where programs run, whether the file is missing, empty, too
-- large or was run.
pub exec_initrd-restores :
    (program : Program) (shell : Shell) (location : ℕ) (hs : List FileHeader) (m : Memory)
    (fname : List ℕ) (arg1 : ℕ)
    → same_name fname shell.fname ≡ false
    → shell.size ≤ initrd_buffer_size
    → (shell.buf + shell.size ≤ exec_addr) ⊎ (exec_addr + initrd_buffer_size ≤ shell.buf)
    → ((n : Memory) (a : ℕ)
        → shell.buf ≤ a
        → a < shell.buf + shell.size
        → load8 ((program arg1 n).0) a ≡ load8 n a)
    → (ret : ℕ) × (m' : Memory) × (exec_initrd program shell (ramdisk_of location hs m) fname arg1
        ≡ some (ret, m'))
      × ((a : ℕ) → exec_addr ≤ a → a < exec_addr + shell.size → load8 m' a ≡ load8 m a)
unfolding exec_initrd exec_found ramdisk_of
exec_initrd-restores program shell location hs m fname arg1 other small apart keeps =
    let m0 = memmove m shell.buf exec_addr shell.size in
    let to_buf = load8-memmove m shell.buf exec_addr shell.size in
    let at_exec : (a : ℕ) → exec_addr ≤ a → a < exec_addr + shell.size → load8 m0 a ≡ load8 m a =
      λ a from below. ground (arith, to_buf a) in
    let back : (a : ℕ) → exec_addr ≤ a → exec_addr + (shell.buf + (a - exec_addr) - shell.buf) ≡ a =
      λ a from. omega arith in
    rw other (elim (Option-cases (finddir_fs (ramdisk_of location hs m0) initrd_root fname)) [
      | inl missing ↦ (exec_failed, m0, rw missing refl, at_exec)
      | inr (p, found) ↦
          let (sz, m1, read, most, out) = readable location hs m0 fname p exec_addr found in
          elim (Bool-cases (sz == 0)) [
            | inl empty ↦ (
              exec_failed,
              m1,
              rw (found, read, empty) refl,
              λ a from below. out a (omega (arith, ==→eq sz 0 empty)) ∙ at_exec a from below,
            )
            | inr full ↦
                let r = program arg1 m1 in
                (
                  r.1,
                  memmove r.0 exec_addr shell.buf shell.size,
                  rw (found, read, full, other) refl,
                  λ a from below. ground (
                    arith,
                    load8-memmove r.0 exec_addr shell.buf shell.size a,
                    keeps m1 (shell.buf + (a - exec_addr)),
                    out (shell.buf + (a - exec_addr)),
                    to_buf (shell.buf + (a - exec_addr)),
                    ap (λ (b : ℕ). load8 m b) (back a from),
                  ),
                )
          ]
    ])
