-- ===== src/Calls/Reach.antt =====
-- What each function of standard/owapi.h reaches.
use owmice.Base.{ℕ, ◌≤◌, ◌≡◌, ◌%◌, ◌^◌, refl, arith}
use owmice.Calls.{
  Routine, syscalls, invalid, runs, kcall_handle, owmice_call0, owmice_call1, owmice_call3,
  owmice_die, owmice_putchar, owmice_writestring, owmice_cls, owmice_kbd_get_string,
  owmice_print_date, owmice_print_meminfo, owmice_malloc, owmice_free, owmice_ls_initrd,
  owmice_cat_initrd, owmice_prompt, owmice_set_title, owmice_exec_initrd, owmice_get_char,
  owmice_get_ticks, owmice_read_initrd, owmice_draw, owmice_disable_scroll, owmice_enable_scroll,
  owmice_now, owmice_status_cls, owmice_sleep, owmice_kbd_current_char,
}

-- The routine and the arguments behind each function, and nothing behind a number out of range.
abbrev pub Reaches : ℕ → ℕ → ℕ → Type 0
Reaches a b c =
    (owmice_die a ≡ runs Routine.die a 0 0)
    × (owmice_putchar a ≡ runs Routine.term_putchar a 0 0)
    × (owmice_writestring a ≡ runs Routine.term_writestring a 0 0)
    × (owmice_cls ≡ runs Routine.term_cls 0 0 0)
    × (owmice_kbd_get_string a ≡ runs Routine.kbd_get_string a 0 0)
    × (owmice_print_date ≡ runs Routine.today 0 0 0)
    × (owmice_print_meminfo ≡ runs Routine.get_mem 0 0 0)
    × (owmice_malloc a ≡ runs Routine.malloc a 0 0)
    × (owmice_free a ≡ runs Routine.free a 0 0)
    × (owmice_ls_initrd ≡ runs Routine.ls_initrd 0 0 0)
    × (owmice_cat_initrd a ≡ runs Routine.cat_initrd a 0 0)
    × (owmice_prompt ≡ runs Routine.prompt 0 0 0)
    × (owmice_set_title a ≡ runs Routine.term_set_title a 0 0)
    × (owmice_exec_initrd a b c ≡ runs Routine.exec_initrd a b c)
    × (owmice_get_char ≡ runs Routine.kbd_get_char 0 0 0)
    × (owmice_get_ticks ≡ runs Routine.get_ticks 0 0 0)
    × (owmice_read_initrd a ≡ runs Routine.read_initrd a 0 0)
    × (owmice_draw a b c ≡ runs Routine.draw a b (c % 2 ^ 8))
    × (owmice_disable_scroll ≡ runs Routine.term_disable_scroll 0 0 0)
    × (owmice_enable_scroll ≡ runs Routine.term_enable_scroll 0 0 0)
    × (owmice_now ≡ runs Routine.now 0 0 0)
    × (owmice_status_cls ≡ runs Routine.status_cls 0 0 0)
    × (owmice_sleep a ≡ runs Routine.sleep a 0 0)
    × (owmice_kbd_current_char ≡ runs Routine.kbd_current_char 0 0 0)
    × ((n : ℕ) → 24 ≤ n → kcall_handle n a b c ≡ invalid)

-- Each function of standard/owapi.h runs the routine of the kernel that it is named after, with its
-- arguments in their places, a color cut to 8 bits, and 0 in the places that it leaves; a number of
-- 24 or more runs nothing.
pub owapi-Reaches : (a b c : ℕ) → Reaches a b c
unfolding kcall_handle syscalls owmice_call0 owmice_call1 owmice_call3 owmice_die owmice_putchar
    owmice_writestring owmice_cls owmice_kbd_get_string owmice_print_date owmice_print_meminfo
    owmice_malloc owmice_free owmice_ls_initrd owmice_cat_initrd owmice_prompt owmice_set_title
    owmice_exec_initrd owmice_get_char owmice_get_ticks owmice_read_initrd owmice_draw
    owmice_disable_scroll owmice_enable_scroll owmice_now owmice_status_cls owmice_sleep
    owmice_kbd_current_char
owapi-Reaches a b c = (
  refl,
  refl,
  refl,
  refl,
  refl,
  refl,
  refl,
  refl,
  refl,
  refl,
  refl,
  refl,
  refl,
  refl,
  refl,
  refl,
  refl,
  refl,
  refl,
  refl,
  refl,
  refl,
  refl,
  refl,
  λ n h. ground arith,
)
