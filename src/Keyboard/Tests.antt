-- ===== src/Keyboard/Tests.antt =====
-- The keyboard at concrete keys.
use mathlib.Core.List.{map}
use owmice.Base.{List, ◌++◌, ℕ, ◌≡◌, refl, arith, [], ◌∷◌, codes, length, true, false, get_or}
use owmice.Terminal.{Terminal}
use owmice.Keyboard.{
  Keyboard, kbd_string, keyboard_handler_main, interrupts, keyboard_map, map_table,
  keyboard_specialchars, specialchars_table, key_down, key_up, shifted, key_action, type_char,
  enter, backspace, drop_last, is_arrow,
}
use owmice.Keyboard.Input.{Fits, keyboard_handler_main-Fits, lines, Letters, idle, interrupts-lines}

abbrev screen : Terminal
screen = record {
  term_row = 1;
  term_column = 1;
  term_color = 7;
  term_lastcolor = 7;
  term_buffer = λ i. 0;
  scroll_term = true;
  pmt = codes ">";
  pmtlen = 1;
  lastcol = 0;
  lastrow = 0;
  cursor = 0;
}

-- Reading a line, with "ls" typed so far.
abbrev reading : Keyboard
reading = record {
  con_input = codes "ls";
  bufpos = 2;
  request = kbd_string;
  keychar = 0;
  shift_down = false;
  terminal = screen;
}

-- A few places of the table.
places :
    (length map_table ≡ 81)
    × (get_or map_table 28 0 ≡ 10)
    × (get_or map_table 42 0 ≡ 15)
    × (get_or map_table 57 0 ≡ b' ')
    × (get_or map_table 72 0 ≡ 11)
    × (get_or map_table 80 0 ≡ 14)
unfolding map_table
places = (refl, refl, refl, refl, refl, refl)

-- Shift, the key of 1, release of shift, the key of 1, a backspace.
typed : (interrupts (λ i. 0) (42 ∷ 2 ∷ 170 ∷ 2 ∷ 14 ∷ []) reading).con_input ≡ codes "ls!"
unfolding interrupts keyboard_handler_main keyboard_map map_table keyboard_specialchars
    specialchars_table key_down key_up shifted key_action type_char enter backspace drop_last
    is_arrow
typed = refl

keyboard_handler_main-Fits_example : Fits (keyboard_handler_main (λ i. 0) 0x1E reading)
keyboard_handler_main-Fits_example =
    keyboard_handler_main-Fits (λ i. 0) 0x1E reading (omega arith) (omega arith)
      (record { counted = omega arith; bounded = omega arith })

-- The keys of o, w and l, and of l once more.
abbrev owl : List ℕ
owl = 0x18 ∷ 0x11 ∷ 0x26 ∷ 0x26 ∷ []

owl-Letters : Letters (λ i. 0) owl
unfolding keyboard_map map_table
owl-Letters = omega arith

interrupts-lines_example :
    (interrupts (λ i. 0) (lines owl) (idle (codes "ls") 0 screen)).con_input
    ≡ codes "ls" ++ map (keyboard_map (λ i. 0)) owl
interrupts-lines_example = interrupts-lines (λ i. 0) owl (codes "ls") 0 screen owl-Letters
