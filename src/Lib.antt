-- ===== src/Lib.antt =====
-- Owmice: a verification library for the kernel of the repository.
--
-- Parts and files.
-- Base, Bits: shared names, Boolean tests, and the meaning of `|`, `&`, `~` and `1 << k` on words.
-- Memory: the byte-addressed memory that pointers name; Bytes: memmove, memcpy, memset and memcmp of
-- standard/stdio.h; Strings: standard/strings.h.
-- Frames: the physical frame allocator of mem/mem.h over the bitmap of standard/bitmap.h.
-- Clock: the date and time of io/cmos.h from the clock's registers.
-- Terminal: the text screen of screen/terminal.h, with the packing of a cell by screen/vga.h.
-- Keyboard: the interrupt handler of io/keyboard.h with the tables of io/kbdmap.h, over Terminal.
-- Printf: printf and its conversions, in standard/stdio.h.
-- Paging: page directories and tables of mem/paging.h, over Memory and Frames.
-- Kernel: the set-up of the memory and malloc, amalloc and free of mem/mem.h, over Frames and Heap.
-- Interrupts: the timer of io/timer.h and the interrupt table of io/idt.h.
-- Calls: the table of system/kernel_call.h, and standard/owapi.h, which reaches it.
-- Tasks: the ring of tasks of system/task.h.
-- Disk: the ATA commands of io/ATA.h.
-- Programs: exec_initrd, read_initrd and cat_initrd of io/initrd.h, with a program as a function on the
-- memory; Programs.Draw: the random numbers of standard/stdio.h and programs/drawtest.c and kbdmove.c.
-- Shell: programs/owshell.c, whose calls go through Calls.
-- Vga: write_regs and write_font of screen/vga.h over a list of port events.
-- Ramdisk: io/initrd.h behind io/vfs.h, with initrd_init in Ramdisk.Load; Packer:
-- utils/put_to_ramdisk.c, which writes the bytes of its image.
-- Heap: the kernel heap of mem/heap.h, which mem/mem.h calls for malloc and free.
--
-- Conventions. A function that writes memory returns the new memory; a `while` loop takes fuel and
-- answers `none` when the fuel runs out, and each theorem about such a loop says how much fuel is
-- enough (more than the number of bytes, chunks or rounds). An `int` is its 32-bit pattern; sums of
-- `uint32_t` are taken modulo 2^32. `die` is an outcome, after which nothing runs.
-- A wait for a device takes the list of the interrupts or of the values that come, and
-- answers `none` at its end.
--
-- Not modelled: inline assembly, what devices do with the values of ports, the bytes of the
-- VGA fonts, the boot loader's headers in misc/multiboot.h, the sequence of the set-up in kmain of
-- kernel.c, die and the register dumps of system/system.h, and everything that only prints.
pub mod Base
pub mod Bits
pub mod Memory
pub mod Bytes
pub mod Strings
pub mod Frames
pub mod Heap
pub mod Clock
pub mod Terminal
pub mod Keyboard
pub mod Printf
pub mod Paging
pub mod Interrupts
pub mod Calls
pub mod Kernel
pub mod Ramdisk
pub mod Packer
pub mod Tasks
pub mod Disk
pub mod Programs
pub mod Shell
pub mod Vga
