-- ===== src/Terminal/Scroll.antt =====
-- Scrolling and clearing the screen.
use owmice.Base.{
  ℕ, ◌+◌, ◌*◌, ◌≤◌, ◌≡◌, refl, arith, if◌then◌else◌, true, leb, ltb, ◌&&◌, ◌∙◌, Bool-cases, inl,
  inr,
}
use owmice.Terminal.{
  Terminal, vga_width, vga_entry, vga_height, screen_start, term_scroll, term_cls,
}
use owmice.Terminal.Cells.{clear_rows_lem, scroll_rows_lem}

-- The cells of the rows and columns of the screen.
abbrev pub screen_cells : ℕ
screen_cells = 2700

-- With scrolling on, `term_scroll` copies each row under the status bar from the one below it, in
-- place, and leaves the status bar, the last row and all else as they are.
pub buffer-term_scroll :
    (t : Terminal) (j : ℕ)
    → t.scroll_term ≡ true
    → (term_scroll t).term_buffer j ≡ (
        if leb (screen_start * vga_width) j && ltb j (vga_height * vga_width)
        then t.term_buffer (j + vga_width)
        else t.term_buffer j)
unfolding term_scroll
buffer-term_scroll t j on = rw on (scroll_rows_lem 28 1 t.term_buffer j)

pub buffer-term_cls :
    (t : Terminal) (j : ℕ)
    → (term_cls t).term_buffer j ≡ (
        if leb (screen_start * vga_width) j && ltb j screen_cells
        then vga_entry b' ' t.term_color
        else t.term_buffer j)
unfolding term_cls
buffer-term_cls t j =
    clear_rows_lem vga_height screen_start (vga_entry b' ' t.term_color) t.term_buffer j

-- What scrolling keeps.
pub scroll_keeps :
    (t : Terminal)
    → ((term_scroll t).term_row ≡ t.term_row)
      × ((term_scroll t).term_column ≡ t.term_column)
      × ((term_scroll t).pmtlen ≡ t.pmtlen)
      × ((term_scroll t).term_color ≡ t.term_color)
      × ((j : ℕ) → screen_cells ≤ j → (term_scroll t).term_buffer j ≡ t.term_buffer j)
unfolding term_scroll
scroll_keeps t = elim (Bool-cases t.scroll_term) [
  | inl on ↦
      rw on (refl, refl, refl, refl, λ j far. scroll_rows_lem 28 1 t.term_buffer j ∙ ground arith)
  | inr off ↦ rw off (refl, refl, refl, refl, λ j far. refl)
]
