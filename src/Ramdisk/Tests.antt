-- ===== src/Ramdisk/Tests.antt =====
-- The ramdisk at a table of two files.
use owmice.Base.{◌+◌, ◌≡◌, arith, inl, some, [], ◌∷◌, List, codes, map}
use owmice.Memory.{Memory}
use owmice.Ramdisk.{FileHeader, ramdisk_of, ls_initrd, light_blue, mtp_name, read_contents}
use owmice.Ramdisk.Read.{read_count, Copied, read_contents-count}
use owmice.Ramdisk.Listing.{line, ls_initrd-lines}

abbrev hello : FileHeader
hello = record { magic = 0xBF; name = codes "hello"; offset = 0x201304; length = 5 }

abbrev two_files : List FileHeader
two_files = hello ∷ record { magic = 0xBF; name = codes "mtp"; offset = 0x201309; length = 7 } ∷ []

abbrev no_memory : Memory
no_memory a = 0

read_contents-count_example :
    ((read_contents no_memory hello 2 9 0x500000).0 ≡ read_count 5 2 9)
    × Copied no_memory
        (0x201304 + 2)
        (read_count 5 2 9)
        0x500000
        ((read_contents no_memory hello 2 9 0x500000).1)
read_contents-count_example =
    read_contents-count no_memory hello 2 9 0x500000 (omega arith) (omega arith) (inl (omega arith))

ls_initrd-lines_example :
    ls_initrd 4 (ramdisk_of 0x200000 two_files no_memory)
    ≡ some ((mtp_name, light_blue) ∷ map line two_files)
ls_initrd-lines_example = ls_initrd-lines 0x200000 two_files no_memory 4 (omega arith) (omega arith)
