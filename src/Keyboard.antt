-- ===== src/Keyboard.antt =====
-- The keyboard of io/keyboard.h with the tables of io/kbdmap.h. The string in the input buffer is
-- the list of its bytes before the final 0. What `keyboard_map` yields past its 128 entries, where
-- the codes of released keys lie, is a parameter. The end of the interrupt and the interrupt mask
-- are left out; a wait for a key is a sequence of interrupts.
pub mod Input
mod Tests
use owmice.Base.{
  ℕ, zero, suc, ◌+◌, ◌^◌, Bool, true, false, ◌&&◌, ◌||◌, Option, none, some, List, [], ◌∷◌, ◌++◌,
  length, get_or, codes, ltb, leb, ◌==◌, if◌then◌else◌,
}
use owmice.Terminal.{Terminal, term_putchar}

pub record Keyboard : Type 0 where
  pub con_input : List ℕ
  pub bufpos : ℕ
  pub request : ℕ
  pub keychar : ℕ
  pub shift_down : Bool
  pub terminal : Terminal

abbrev pub input_maxlen : ℕ
input_maxlen = 128

abbrev pub kbd_string : ℕ
kbd_string = 1

abbrev pub kbd_char : ℕ
kbd_char = 2

abbrev pub enter_key_code : ℕ
enter_key_code = 0x1C

abbrev key_shift : ℕ
key_shift = 15

pub specialchars_table : List ℕ
specialchars_table = 0 ∷ 27 ∷ codes "!@#$%^&*()_+"

-- The entries up to the key pad's 0; the later ones are 0.
pub map_table : List ℕ
map_table =
    0 ∷ 27 ∷ codes "1234567890-=\u{8}\tqwertyuiop[]\n"
    ++ 0 ∷ codes "asdfghjkl;'`"
    ++ key_shift ∷ codes "\\zxcvbnm,./"
    ++ key_shift ∷ b'*' ∷ 0 ∷ b' ' ∷ 0 ∷ 0 ∷ 0 ∷ 0 ∷ 0 ∷ 0 ∷ 0 ∷ 0 ∷ 0 ∷ 0 ∷ 0 ∷ 0 ∷ 0 ∷ 0 ∷ 11 ∷ 0
      ∷ b'-' ∷ 12 ∷ 0 ∷ 13 ∷ b'+' ∷ 0 ∷ 14 ∷ []

pub keyboard_map : (ℕ → ℕ) → ℕ → ℕ
keyboard_map past code = if ltb code 128 then get_or map_table code 0 else past code

pub keyboard_specialchars : ℕ → ℕ
keyboard_specialchars code = get_or specialchars_table code 0

-- `con_input[comlen - 1] = '\0'`.
pub drop_last : List ℕ → List ℕ
drop_last [] = []
drop_last (c ∷ []) = []
drop_last (c ∷ d ∷ cs) = c ∷ drop_last (d ∷ cs)

pub backspace : Keyboard → Keyboard
backspace k =
    if ltb 0 (length k.con_input)
    then record k {
      con_input = drop_last k.con_input;
      bufpos = k.bufpos + 1;
      terminal = term_putchar k.keychar k.terminal;
    }
    else k

pub enter : Keyboard → Keyboard
enter k = record k { terminal = term_putchar b'\n' k.terminal; request = 0; bufpos = 0 }

-- The last branch, for a key that has a character.
pub type_char : Keyboard → Keyboard
type_char k =
    if k.keychar == 0
    then k
    else if leb input_maxlen k.bufpos
    then k
    else if k.request == kbd_char
    then record k { request = 0; bufpos = 0 }
    else record k {
      bufpos = k.bufpos + 1;
      con_input = k.con_input ++ k.keychar ∷ [];
      terminal = term_putchar k.keychar k.terminal;
    }

pub is_arrow : ℕ → Bool
is_arrow c = c == 11 || c == 14 || c == 12 || c == 13

-- The character on the upper half of a key of the first row, with the shift key down.
pub shifted : ℕ → Keyboard → Keyboard
shifted code k =
    if k.shift_down && leb 2 code && leb code 13
    then record k { keychar = keyboard_specialchars code }
    else k

pub key_action : ℕ → Keyboard → Keyboard
key_action code k =
    if is_arrow k.keychar then k else if code == enter_key_code then enter k else type_char k

-- The branch of a key that goes down, with its character in `keychar`.
pub key_down : ℕ → Keyboard → Keyboard
key_down code k =
    if k.keychar == key_shift
    then record k { shift_down = true }
    else key_action code (shifted code k)

pub key_up : ℕ → Keyboard → Keyboard
key_up code k =
    let k = if code == 170 then record k { shift_down = false } else k in record k { keychar = 0 }

-- `keyboard_handler_main` for a status with its lowest bit set, and the code that is read.
pub keyboard_handler_main : (ℕ → ℕ) → ℕ → Keyboard → Keyboard
keyboard_handler_main past code k =
    let k = record k { keychar = keyboard_map past code } in
    if k.keychar == 0x08
    then backspace k
    else if leb 0x80 code
    then key_up code k
    else key_down code k

-- Several interrupts.
pub interrupts : (ℕ → ℕ) → List ℕ → Keyboard → Keyboard
interrupts past [] k = k
interrupts past (c ∷ cs) k = interrupts past cs (keyboard_handler_main past c k)

-- `kbd_get_string` up to its wait, and after it.
pub kbd_get_string : Keyboard → Option Keyboard
kbd_get_string k = if k.request == 0 then some (record k { request = kbd_string }) else none

pub kbd_string_result : Keyboard → List ℕ × Keyboard
kbd_string_result k = (k.con_input, record k { con_input = [] })

pub kbd_get_char : Keyboard → Option Keyboard
kbd_get_char k = if k.request == 0 then some (record k { request = kbd_char }) else none
