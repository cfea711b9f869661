-- ===== src/Terminal/Tests.antt =====
-- The terminal at concrete states.
use owmice.Base.{◌≡◌, refl, arith, true, codes}
use owmice.Terminal.{
  Terminal, vga_entry, vga_entry_color, term_write, term_undo_nl, term_movecur, term_scroll,
}
use owmice.Terminal.Scroll.{buffer-term_scroll}
use owmice.Terminal.Put.{OnScreen, Moved}
use owmice.Terminal.Write.{places, term_write-Moved, term_write-shown}

-- The position is behind the prompt of row 3, and cell `i` holds `i`.
abbrev start : Terminal
start = record {
  term_row = 3;
  term_column = 2;
  term_color = 7;
  term_lastcolor = 7;
  term_buffer = λ i. i;
  scroll_term = true;
  pmt = codes ">";
  pmtlen = 1;
  lastcol = 0;
  lastrow = 0;
  cursor = 0;
}

start-OnScreen : OnScreen start
start-OnScreen = record { row = omega arith; column = omega arith; has_prompt = omega arith }

colors : (vga_entry_color 7 0 ≡ 0x07) × (vga_entry b'A' 0x07 ≡ 0x741)
unfolding vga_entry_color vga_entry
colors = (refl, refl)

-- `term_undo_nl` from row 3 puts the cursor at row 0 and column 2.
undo_nl : (term_undo_nl start).cursor ≡ 2
unfolding term_undo_nl term_movecur
undo_nl = refl

buffer-term_scroll_example : (term_scroll start).term_buffer 100 ≡ 190
buffer-term_scroll_example = buffer-term_scroll start 100 refl

-- Two letters, a backspace and a line break.
term_write-Moved_example :
    OnScreen (term_write (codes "ab\u{8}\n") start)
    × Moved start (term_write (codes "ab\u{8}\n") start) 4 0
unfolding places
term_write-Moved_example = term_write-Moved (codes "ab\u{8}\n") start start-OnScreen

term_write-shown_example : (term_write (codes "ls") start).term_buffer 273 ≡ vga_entry b's' 7
term_write-shown_example =
    term_write-shown (codes "ls") start 273
      ((omega arith, omega arith), ((omega arith, omega arith), tt)) start-OnScreen (omega arith)
