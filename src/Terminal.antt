-- ===== src/Terminal.antt =====
-- The text terminal of screen/terminal.h, with the packing of a cell by screen/vga.h. The globals
-- are a record. `term_buffer` is a function from the index of a cell, also outside the screen;
-- `cursor` is the position that was last sent to the cursor ports. A `size_t` has 32 bits. A string
-- is the list of its bytes before the final 0, also `linebreak`. The prompt's buffer holds what `setprompt` copied.
-- Setting the VGA mode and the font, the shape of the cursor and reading its position back are left
-- out.
pub mod Cells
pub mod Scroll
pub mod Put
pub mod Write
mod Tests
use owmice.Base.{
  ℕ, zero, suc, ◌+◌, ◌-◌, ◌*◌, ◌/◌, ◌%◌, ◌^◌, bit_or, Bool, true, false, not, List, [], ◌∷◌, length,
  codes, ltb, ◌==◌, if◌then◌else◌,
}

abbrev pub Buffer : Type 0
Buffer = ℕ → ℕ

pub record Terminal : Type 0 where
  pub term_row : ℕ
  pub term_column : ℕ
  pub term_color : ℕ
  pub term_lastcolor : ℕ
  pub term_buffer : Buffer
  pub scroll_term : Bool
  pub pmt : List ℕ
  pub pmtlen : ℕ
  pub lastcol : ℕ
  pub lastrow : ℕ
  pub cursor : ℕ

abbrev pub vga_width : ℕ
vga_width = 90

abbrev pub vga_height : ℕ
vga_height = 29

abbrev pub screen_start : ℕ
screen_start = 1

abbrev light_grey : ℕ
light_grey = 7

abbrev backspace_offset : ℕ
backspace_offset = 2

abbrev cursor_stepback : ℕ
cursor_stepback = 1

abbrev u32 : ℕ → ℕ
u32 n = n % 2 ^ 32

abbrev sub32 : ℕ → ℕ → ℕ
sub32 a b = (a + 2 ^ 32 - b) % 2 ^ 32

pub vga_entry_color : ℕ → ℕ → ℕ
vga_entry_color fg bg = bit_or fg (bg * 2 ^ 4) % 2 ^ 8

pub vga_entry : ℕ → ℕ → ℕ
vga_entry uc color = bit_or uc (color * 2 ^ 8)

pub put : Buffer → ℕ → ℕ → Buffer
put b index value i = if i == index then value else b i

-- The loops over a row of cells, `left` cells before their end.
pub fill_cells : ℕ → ℕ → ℕ → Buffer → Buffer
fill_cells zero index value b = b
fill_cells (suc left) index value b = fill_cells left (index + 1) value (put b index value)

pub status_cls : Terminal → Terminal
status_cls t = record t {
  term_buffer =
      fill_cells vga_width 0 (vga_entry b' ' (vga_entry_color light_grey light_grey)) t.term_buffer;
}

pub setcolor : ℕ → Terminal → Terminal
setcolor color t = record t { term_color = color }

pub term_tempcolor : ℕ → Terminal → Terminal
term_tempcolor color t = setcolor color (record t { term_lastcolor = t.term_color })

pub term_revertcolor : Terminal → Terminal
term_revertcolor t = setcolor t.term_lastcolor t

pub setprompt : List ℕ → Terminal → Terminal
setprompt p t = record t { pmtlen = length p; pmt = p }

pub term_movecur : ℕ → ℕ → Terminal → Terminal
term_movecur x y t = record t { cursor = (y * vga_width + x) % 2 ^ 16 }

-- The row stands in the place of `x`, and the column in that of `y`.
pub term_undo_nl : Terminal → Terminal
term_undo_nl t =
    let t = record t { term_row = sub32 t.term_row 1; term_column = 0 } in
    term_movecur t.term_row t.term_column t

pub clear_rows : ℕ → ℕ → ℕ → Buffer → Buffer
clear_rows zero y value b = b
clear_rows (suc left) y value b =
    clear_rows left (y + 1) value (fill_cells vga_width (y * vga_width) value b)

pub term_cls : Terminal → Terminal
term_cls t = record t {
  term_row = screen_start;
  term_column = 0;
  term_buffer = clear_rows vga_height screen_start (vga_entry b' ' t.term_color) t.term_buffer;
}

-- The inner loop of `term_scroll`, from column `i` of row `ii`.
pub scroll_row : ℕ → ℕ → ℕ → Buffer → Buffer
scroll_row zero i ii b = b
scroll_row (suc left) i ii b =
    scroll_row left (i + 1) ii (put b (ii * vga_width + i) (b ((ii + 1) * vga_width + i)))

pub scroll_rows : ℕ → ℕ → Buffer → Buffer
scroll_rows zero ii b = b
scroll_rows (suc left) ii b = scroll_rows left (ii + 1) (scroll_row vga_width 0 ii b)

pub term_scroll : Terminal → Terminal
term_scroll t = if not t.scroll_term then t else record t {
  term_buffer = scroll_rows (vga_height - screen_start) screen_start t.term_buffer;
}

pub term_disable_scroll : Terminal → Terminal
term_disable_scroll t = record t { scroll_term = false }

pub term_enable_scroll : Terminal → Terminal
term_enable_scroll t = record t { scroll_term = true }

-- The end of `term_putentryat`, from the index on.
put_entry : ℕ → ℕ → ℕ → ℕ → Terminal → Terminal
put_entry c color x y t =
    let index = u32 (y * vga_width + x) in
    let t = record t { term_buffer = put t.term_buffer index (vga_entry c color) } in
    let x = if c == 0 then sub32 x 1 else x in if y == 0 then t else term_movecur (u32 (x + 1)) y t

pub term_putentryat : ℕ → ℕ → ℕ → ℕ → Terminal → Terminal
term_putentryat c color x y t =
    if c == b'\n'
    then record t { term_row = u32 (t.term_row + 1); term_column = sub32 0 cursor_stepback }
    else if c == 0x08
    then (if ltb t.pmtlen t.term_column
        then put_entry 0 color (sub32 x cursor_stepback) y
            (record t { term_column = sub32 t.term_column backspace_offset })
        else t)
    else put_entry c color x y t

-- `if (++term_column == VGA_WIDTH) …`.
advance : Terminal → Terminal
advance t =
    let column = u32 (t.term_column + 1) in
    if column == vga_width
    then record t { term_column = 0; term_row = u32 (t.term_row + 1) }
    else record t { term_column = column }

stay_on_screen : Terminal → Terminal
stay_on_screen t =
    if ltb (vga_height - 1) t.term_row
    then term_scroll (record t { term_row = sub32 t.term_row 1 })
    else t

pub term_putchar : ℕ → Terminal → Terminal
term_putchar c t =
    stay_on_screen (advance (term_putentryat c t.term_color t.term_column t.term_row t))

pub term_write : List ℕ → Terminal → Terminal
term_write [] t = t
term_write (c ∷ cs) t = term_write cs (term_putchar c t)

pub term_writestring : List ℕ → Terminal → Terminal
term_writestring str t = term_write str t

pub write_statusbar : ℕ → Terminal → Terminal
write_statusbar x t = record t {
  lastcol = t.term_column;
  lastrow = t.term_row;
  term_row = 0;
  term_column = x;
}

pub statusbar_rev : Terminal → Terminal
statusbar_rev t = record t { term_row = t.lastrow; term_column = t.lastcol }

pub draw : ℕ → ℕ → ℕ → Terminal → Terminal
draw x y color t =
    let t = record t { lastcol = t.term_column; lastrow = t.term_row } in
    let t = record t { term_row = y; term_column = x } in
    let tcolor = t.term_color in
    let t = record t { term_color = vga_entry_color (color % 2 ^ 8) (color % 2 ^ 8) } in
    let t = term_putchar b' ' t in
    record t { term_color = tcolor; term_column = t.lastcol; term_row = t.lastrow }

pub kprint : List ℕ → Terminal → Terminal
kprint s t = term_writestring (codes "\n") (term_writestring s t)

pub cprint : List ℕ → ℕ → Terminal → Terminal
cprint s newc t =
    let last = t.term_color in
    let t = record t { term_color = newc } in
    setcolor last (term_writestring (codes "\n") (term_writestring s t))

pub term_set_title : List ℕ → Terminal → Terminal
term_set_title str t =
    let t = write_statusbar (sub32 vga_width (length str)) t in
    let tmp = t.term_color in
    let t = record t { term_color = vga_entry_color 0 light_grey } in
    statusbar_rev (setcolor tmp (term_writestring str t))

-- `term_initialize` after the mode and the font are set.
pub term_initialize : Terminal → Terminal
term_initialize t =
    let t = record t { term_color = vga_entry_color light_grey 0 } in status_cls (term_cls t)

-- `console_init`, with the text of `BUILD_STRING`.
pub console_init : List ℕ → Terminal → Terminal
console_init build t =
    let t = write_statusbar 0 (term_initialize t) in
    statusbar_rev (cprint build (vga_entry_color 5 light_grey) t)

pub prompt : Terminal → Terminal
prompt t =
    let t = if t.term_row == screen_start then t else term_writestring (codes "\n") t in
    term_writestring t.pmt t
