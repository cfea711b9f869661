-- ===== src/Programs/Tests.antt =====
-- Running a program from a ramdisk with one file.
use owmice.Base.{ℕ, ◌+◌, ◌<◌, ◌≤◌, ◌≡◌, refl, arith, false, some, [], ◌∷◌, inr, codes}
use owmice.Memory.{Memory, load8, store8}
use owmice.Ramdisk.{FileHeader, ramdisk_of, same_name}
use owmice.Programs.{Program, Shell, exec_addr, exec_initrd, cat_text}
use owmice.Programs.Exec.{exec_initrd-restores}

abbrev hello : FileHeader
hello = record { magic = 0xBF; name = codes "hello.owb"; offset = 0x1304; length = 5 }

abbrev owshell : Shell
owshell = record { buf = 0x900000; size = 4000; fname = codes "owshell.owb" }

abbrev no_memory : Memory
no_memory a = 0

-- A program that writes over its own first byte and returns 7.
abbrev overwrite : Program
overwrite arg1 m = (store8 m exec_addr arg1, 7)

hello_other : same_name (codes "hello.owb") owshell.fname ≡ false
unfolding same_name
hello_other = refl

overwrite_keeps :
    (n : Memory) (a : ℕ)
    → owshell.buf ≤ a
    → a < owshell.buf + owshell.size
    → load8 ((overwrite 65 n).0) a ≡ load8 n a
unfolding load8 store8
overwrite_keeps n a from below = ground arith

cat_line : cat_text 3 48 (λ a. 65) 0 ≡ 65 ∷ 65 ∷ 10 ∷ 65 ∷ []
unfolding cat_text load8
cat_line = refl

exec_initrd-restores_example :
    (ret : ℕ) × (m' : Memory) × (exec_initrd overwrite owshell
        (ramdisk_of 0x200000 (hello ∷ []) no_memory)
        (codes "hello.owb")
        65
      ≡ some (ret, m'))
    × ((a : ℕ) → exec_addr ≤ a → a < exec_addr + owshell.size → load8 m' a ≡ load8 no_memory a)
exec_initrd-restores_example =
    exec_initrd-restores overwrite owshell 0x200000 (hello ∷ []) no_memory (codes "hello.owb") 65
      hello_other (omega arith) (inr (omega arith)) overwrite_keeps
