-- ===== src/Terminal/Cells.antt =====
-- The loops over rows of cells, cell by cell.
use owmice.Base.{
  ℕ, zero, suc, ◌+◌, ◌*◌, ◌≤◌, ◌≡◌, arith, if◌then◌else◌, leb, ltb, ◌==◌, ◌&&◌, ◌∙◌, inl, inr,
  Bool-cases, ==→eq, ==→ne,
}
use owmice.Terminal.{Buffer, vga_width, put, fill_cells, clear_rows, scroll_row, scroll_rows}

pub fill_cells_lem :
    (left index value : ℕ) (b : Buffer) (j : ℕ)
    → fill_cells left index value b j ≡ (if leb index j && ltb j (index + left) then value else b j)
unfolding fill_cells put
fill_cells_lem zero index value b j = ground arith
fill_cells_lem (suc left) index value b j =
    fill_cells_lem left (index + 1) value (put b index value) j ∙ ground arith

pub clear_rows_lem :
    (left y value : ℕ) (b : Buffer) (j : ℕ)
    → clear_rows left y value b j
      ≡ (if leb (y * vga_width) j && ltb j ((y + left) * vga_width) then value else b j)
unfolding clear_rows
clear_rows_lem zero y value b j = ground arith
clear_rows_lem (suc left) y value b j =
    let row = fill_cells_lem vga_width (y * vga_width) value b j in
    clear_rows_lem left (y + 1) value (fill_cells vga_width (y * vga_width) value b) j
    ∙ rw row (ground arith)

-- A row is copied from the one below it, which the copy does not write.
scroll_row_lem :
    (left i ii : ℕ) (b : Buffer) (j : ℕ)
    → i + left ≤ vga_width
    → scroll_row left i ii b j ≡ (
        if leb (ii * vga_width + i) j && ltb j (ii * vga_width + i + left)
        then b (j + vga_width)
        else b j)
unfolding scroll_row put
scroll_row_lem zero i ii b j h = ground arith
scroll_row_lem (suc left) i ii b j h =
    scroll_row_lem left (i + 1) ii _ j (omega arith)
    ∙ (let below : (ii + 1) * vga_width + i ≡ ii * vga_width + i + vga_width = omega arith in
        rw below (elim (Bool-cases (j == ii * vga_width + i)) [
          | inl here ↦ rw (==→eq _ _ here) (ground arith)
          | inr other ↦ let apart = ==→ne _ _ other in ground arith
        ]))

pub scroll_rows_lem :
    (left ii : ℕ) (b : Buffer) (j : ℕ)
    → scroll_rows left ii b j ≡ (
        if leb (ii * vga_width) j && ltb j ((ii + left) * vga_width)
        then b (j + vga_width)
        else b j)
unfolding scroll_rows
scroll_rows_lem zero ii b j = ground arith
scroll_rows_lem (suc left) ii b j =
    scroll_rows_lem left (ii + 1) (scroll_row vga_width 0 ii b) j
    ∙ rw
        (
          scroll_row_lem vga_width 0 ii b j (omega arith),
          scroll_row_lem vga_width 0 ii b (j + vga_width) (omega arith),
        )
        (ground arith)
