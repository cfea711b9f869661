-- ===== src/Calls.antt =====
-- The calls of the kernel: the table of system/kernel_call.h, and standard/owapi.h, through which a
-- program reaches it. The stub at `CALL_BASE` hands its four arguments to `kcall_handle`. What a
-- call runs is the routine and its arguments; an argument that a routine does not take is passed
-- all the same. Registering the handler is an entry of Interrupts.
pub mod Reach
mod Tests
use owmice.Base.{
  ℕ, zero, suc, ◌+◌, ◌%◌, ◌^◌, Option, none, some, List, [], ◌∷◌, leb, get_elem?, if◌then◌else◌,
}

-- The routines of the kernel that a program can call.
pub data Routine : Type 0 where
  die : Routine
  term_putchar : Routine
  term_writestring : Routine
  term_cls : Routine
  kbd_get_string : Routine
  today : Routine
  get_mem : Routine
  malloc : Routine
  free : Routine
  ls_initrd : Routine
  cat_initrd : Routine
  prompt : Routine
  term_set_title : Routine
  exec_initrd : Routine
  kbd_get_char : Routine
  get_ticks : Routine
  read_initrd : Routine
  draw : Routine
  term_disable_scroll : Routine
  term_enable_scroll : Routine
  now : Routine
  status_cls : Routine
  sleep : Routine
  kbd_current_char : Routine

abbrev pub calls : ℕ
calls = 24

pub syscalls : List Routine
syscalls =
    die ∷ term_putchar ∷ term_writestring ∷ term_cls ∷ kbd_get_string ∷ today ∷ get_mem ∷ malloc
    ∷ free ∷ ls_initrd ∷ cat_initrd ∷ prompt ∷ term_set_title ∷ exec_initrd ∷ kbd_get_char
    ∷ get_ticks ∷ read_initrd ∷ draw ∷ term_disable_scroll ∷ term_enable_scroll ∷ now ∷ status_cls
    ∷ sleep ∷ kbd_current_char ∷ []

-- What a call comes to: -1 with a message, or a run of a routine.
pub data Reply : Type 0 where
  invalid : Reply
  runs : Routine → ℕ → ℕ → ℕ → Reply

pub kcall_handle : ℕ → ℕ → ℕ → ℕ → Reply
kcall_handle call arg1 arg2 arg3 =
    if leb calls call then invalid else elim (get_elem? syscalls call) [
      | some location ↦ runs location arg1 arg2 arg3
      | none ↦ invalid
    ]

-- The numbers of the calls.
abbrev call_die : ℕ
call_die = 0

abbrev call_putchar : ℕ
call_putchar = 1

abbrev call_writestring : ℕ
call_writestring = 2

abbrev call_cls : ℕ
call_cls = 3

abbrev call_kbd_get_string : ℕ
call_kbd_get_string = 4

abbrev call_print_date : ℕ
call_print_date = 5

abbrev call_mem_info : ℕ
call_mem_info = 6

abbrev call_malloc : ℕ
call_malloc = 7

abbrev call_free : ℕ
call_free = 8

abbrev call_ls_initrd : ℕ
call_ls_initrd = 9

abbrev call_cat_initrd : ℕ
call_cat_initrd = 10

abbrev call_prompt : ℕ
call_prompt = 11

abbrev call_term_set_title : ℕ
call_term_set_title = 12

abbrev call_exec_initrd : ℕ
call_exec_initrd = 13

abbrev call_get_char : ℕ
call_get_char = 14

abbrev call_get_ticks : ℕ
call_get_ticks = 15

abbrev call_read_initrd : ℕ
call_read_initrd = 16

abbrev call_draw : ℕ
call_draw = 17

abbrev call_disable_scroll : ℕ
call_disable_scroll = 18

abbrev call_enable_scroll : ℕ
call_enable_scroll = 19

abbrev call_now : ℕ
call_now = 20

abbrev call_status_cls : ℕ
call_status_cls = 21

abbrev call_sleep : ℕ
call_sleep = 22

abbrev call_kbd_current_char : ℕ
call_kbd_current_char = 23

pub owmice_call0 : ℕ → Reply
owmice_call0 call = kcall_handle call 0 0 0

pub owmice_call1 : ℕ → ℕ → Reply
owmice_call1 call arg1 = kcall_handle call arg1 0 0

pub owmice_call2 : ℕ → ℕ → ℕ → Reply
owmice_call2 call arg1 arg2 = kcall_handle call arg1 arg2 0

pub owmice_call3 : ℕ → ℕ → ℕ → ℕ → Reply
owmice_call3 call arg1 arg2 arg3 = kcall_handle call arg1 arg2 arg3

pub owmice_die : ℕ → Reply
owmice_die status = owmice_call1 call_die status

pub owmice_putchar : ℕ → Reply
owmice_putchar chr = owmice_call1 call_putchar chr

pub owmice_writestring : ℕ → Reply
owmice_writestring str_ptr = owmice_call1 call_writestring str_ptr

pub owmice_cls : Reply
owmice_cls = owmice_call0 call_cls

pub owmice_kbd_get_string : ℕ → Reply
owmice_kbd_get_string buf = owmice_call1 call_kbd_get_string buf

pub owmice_print_date : Reply
owmice_print_date = owmice_call0 call_print_date

pub owmice_print_meminfo : Reply
owmice_print_meminfo = owmice_call0 call_mem_info

pub owmice_malloc : ℕ → Reply
owmice_malloc sz = owmice_call1 call_malloc sz

pub owmice_free : ℕ → Reply
owmice_free addr = owmice_call1 call_free addr

pub owmice_ls_initrd : Reply
owmice_ls_initrd = owmice_call0 call_ls_initrd

pub owmice_cat_initrd : ℕ → Reply
owmice_cat_initrd fname = owmice_call1 call_cat_initrd fname

pub owmice_prompt : Reply
owmice_prompt = owmice_call0 call_prompt

pub owmice_set_title : ℕ → Reply
owmice_set_title str = owmice_call1 call_term_set_title str

pub owmice_exec_initrd : ℕ → ℕ → ℕ → Reply
owmice_exec_initrd fname arg1 arg2 = owmice_call3 call_exec_initrd fname arg1 arg2

pub owmice_get_char : Reply
owmice_get_char = owmice_call0 call_get_char

pub owmice_get_ticks : Reply
owmice_get_ticks = owmice_call0 call_get_ticks

pub owmice_read_initrd : ℕ → Reply
owmice_read_initrd fname = owmice_call1 call_read_initrd fname

pub owmice_draw : ℕ → ℕ → ℕ → Reply
owmice_draw x y color = owmice_call3 call_draw x y (color % 2 ^ 8)

pub owmice_disable_scroll : Reply
owmice_disable_scroll = owmice_call0 call_disable_scroll

pub owmice_enable_scroll : Reply
owmice_enable_scroll = owmice_call0 call_enable_scroll

pub owmice_now : Reply
owmice_now = owmice_call0 call_now

pub owmice_status_cls : Reply
owmice_status_cls = owmice_call0 call_status_cls

pub owmice_sleep : ℕ → Reply
owmice_sleep msec = owmice_call1 call_sleep msec

pub owmice_kbd_current_char : Reply
owmice_kbd_current_char = owmice_call0 call_kbd_current_char
