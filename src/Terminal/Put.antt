-- ===== src/Terminal/Put.antt =====
-- One character on the terminal: where it leaves the position, and which cells it may write.
use owmice.Base.{
  ℕ, ◌+◌, ◌-◌, ◌*◌, ◌%◌, ◌^◌, ◌≤◌, ◌<◌, ◌≡◌, refl, arith, if◌then◌else◌, false, ltb, ◌==◌, ◌&&◌,
  ◌∙◌, Bool-cases, inl, inr, ltb→lt, ==→eq, ==→ne, ne→==,
}
use owmice.Terminal.{
  Terminal, vga_width, put, put_entry, term_movecur, term_putentryat, advance, stay_on_screen,
  term_putchar,
}
use owmice.Terminal.Scroll.{screen_cells, scroll_keeps}

-- The position lies on the rows that are written, and the prompt is not empty.
pub record OnScreen (t : Terminal) : Type 0 where
  pub row : t.term_row ≤ 28
  pub column : t.term_column < vga_width
  pub has_prompt : 1 ≤ t.pmtlen

-- `t'` is `t` at another position, with changes on the screen only.
pub record Moved (t t' : Terminal) (row column : ℕ) : Type 0 where
  pub to_row : t'.term_row ≡ row
  pub to_column : t'.term_column ≡ column
  pub same_pmtlen : t'.pmtlen ≡ t.pmtlen
  pub same_color : t'.term_color ≡ t.term_color
  pub outside : (j : ℕ) → screen_cells ≤ j → t'.term_buffer j ≡ t.term_buffer j

pub chained :
    {t t' t'' : Terminal} {row column row' column' : ℕ}
    → Moved t t' row column
    → Moved t' t'' row' column'
    → Moved t t'' row' column'
chained a b = record {
  to_row = b.to_row;
  to_column = b.to_column;
  same_pmtlen = b.same_pmtlen ∙ a.same_pmtlen;
  same_color = b.same_color ∙ a.same_color;
  outside = λ j far. b.outside j far ∙ a.outside j far;
}

put_entry-Moved :
    (c color x y : ℕ) (t : Terminal)
    → (y * vga_width + x) % 2 ^ 32 < screen_cells
    → Moved t (put_entry c color x y t) t.term_row t.term_column
unfolding put_entry put term_movecur
put_entry-Moved c color x y t inside =
    let elsewhere : (j : ℕ) → screen_cells ≤ j → (j == (y * vga_width + x) % 2 ^ 32) ≡ false =
      λ j far. ne→== _ _ (omega arith) in
    elim (Bool-cases (y == 0)) [
      | inl bar ↦ rw bar (record {
        to_row = refl;
        to_column = refl;
        same_pmtlen = refl;
        same_color = refl;
        outside = λ j far. rw (elsewhere j far) refl;
      })
      | inr other ↦ rw other (record {
        to_row = refl;
        to_column = refl;
        same_pmtlen = refl;
        same_color = refl;
        outside = λ j far. rw (elsewhere j far) refl;
      })
    ]

-- The row below, or the last one.
abbrev pub below : ℕ → ℕ
below row = if ltb row 28 then row + 1 else 28

-- The place to the right, or the start of the row below.
abbrev pub right_of : ℕ → ℕ → ℕ × ℕ
right_of row column = if column == 89 then (below row, 0) else (row, column + 1)

-- The position after a character.
abbrev pub next_place : ℕ → ℕ → ℕ → ℕ → ℕ × ℕ
next_place c pmtlen row column =
    if c == b'\n'
    then (below row, 0)
    else if c == 0x08 && ltb pmtlen column
    then (row, column - 1)
    else right_of row column

stay_on_screen-Moved :
    (t : Terminal)
    → t.term_row ≤ 29
    → Moved t (stay_on_screen t) (if ltb 28 t.term_row then 28 else t.term_row) t.term_column
unfolding stay_on_screen
stay_on_screen-Moved t h = elim (Bool-cases (ltb 28 t.term_row)) [
  | inl over ↦
      let (row, column, pmtlen, color, outside) =
        scroll_keeps (record t { term_row = (t.term_row + 2 ^ 32 - 1) % 2 ^ 32 }) in
      let bound = ltb→lt _ _ over in
      rw over (record {
        to_row = omega (arith, row);
        to_column = column;
        same_pmtlen = pmtlen;
        same_color = color;
        outside = outside;
      })
  | inr inside ↦ rw inside (record {
    to_row = refl;
    to_column = refl;
    same_pmtlen = refl;
    same_color = refl;
    outside = λ j far. refl;
  })
]

-- `advance` within a row, and at the end of one.
within_row :
    (t : Terminal) (column : ℕ)
    → (t.term_column + 1) % 2 ^ 32 ≡ column
    → column < vga_width
    → t.term_row ≤ 29
    → Moved t (stay_on_screen (advance t)) (if ltb 28 t.term_row then 28 else t.term_row) column
unfolding advance
within_row t column e small h =
    let inside : (column == 90) ≡ false = ne→== _ _ (omega arith) in
    let moved = stay_on_screen-Moved (record t { term_column = column }) h in
    rw (e, inside)
      (record {
        to_row = moved.to_row;
        to_column = moved.to_column;
        same_pmtlen = moved.same_pmtlen;
        same_color = moved.same_color;
        outside = moved.outside;
      })

end_of_row :
    (t : Terminal)
    → t.term_column ≡ 89
    → t.term_row ≤ 28
    → Moved t (stay_on_screen (advance t)) (below t.term_row) 0
unfolding advance
end_of_row t e h =
    let row : (t.term_row + 1) % 2 ^ 32 ≡ t.term_row + 1 = omega arith in
    let moved =
      stay_on_screen-Moved (record t { term_column = 0; term_row = t.term_row + 1 })
        (omega arith) in
    rw (e, row)
      (record {
        to_row = moved.to_row ∙ ground arith;
        to_column = moved.to_column;
        same_pmtlen = moved.same_pmtlen;
        same_color = moved.same_color;
        outside = moved.outside;
      })

pub relocated :
    {t t' : Terminal} {row column row' column' : ℕ}
    → Moved t t' row column
    → row ≡ row'
    → column ≡ column'
    → Moved t t' row' column'
relocated moved er ec = record {
  to_row = moved.to_row ∙ er;
  to_column = moved.to_column ∙ ec;
  same_pmtlen = moved.same_pmtlen;
  same_color = moved.same_color;
  outside = moved.outside;
}

pub placed :
    (t : Terminal) (row column : ℕ)
    → Moved t (record t { term_row = row; term_column = column }) row column
placed t row column = record {
  to_row = refl;
  to_column = refl;
  same_pmtlen = refl;
  same_color = refl;
  outside = λ j far. refl;
}

new_line :
    (t : Terminal)
    → OnScreen t
    → Moved t
        (stay_on_screen
          (advance (record t { term_row = (t.term_row + 1) % 2 ^ 32; term_column = 2 ^ 32 - 1 })))
        (below t.term_row)
        0
new_line t on =
    let row = on.row in
    let lower : (t.term_row + 1) % 2 ^ 32 ≡ t.term_row + 1 = omega arith in
    let t' = record t { term_row = t.term_row + 1; term_column = 2 ^ 32 - 1 } in
    let step = within_row t' 0 refl (omega arith) (omega arith) in
    rw lower (relocated (chained (placed t (t.term_row + 1) (2 ^ 32 - 1)) step) (ground arith) refl)

-- A backspace clears the cell on the left and leaves the position there.
step_back :
    (t : Terminal) (color : ℕ)
    → OnScreen t
    → t.pmtlen < t.term_column
    → Moved t
        (stay_on_screen (
          advance (
            put_entry 0 color
              ((t.term_column + 2 ^ 32 - 1) % 2 ^ 32)
              t.term_row
              (record t { term_column = (t.term_column + 2 ^ 32 - 2) % 2 ^ 32 }))))
        t.term_row
        (t.term_column - 1)
step_back t color on room =
    let row = on.row in
    let column = on.column in
    let has_prompt = on.has_prompt in
    let left : (t.term_column + 2 ^ 32 - 1) % 2 ^ 32 ≡ t.term_column - 1 = omega arith in
    let before : (t.term_column + 2 ^ 32 - 2) % 2 ^ 32 ≡ t.term_column - 2 = omega arith in
    let t' = record t { term_column = t.term_column - 2 } in
    let cleared = put_entry-Moved 0 color (t.term_column - 1) t.term_row t' (omega arith) in
    let to_row = cleared.to_row in
    let to_column = cleared.to_column in
    let step =
      within_row (put_entry 0 color (t.term_column - 1) t.term_row t') (t.term_column - 1)
        (omega arith) (omega arith) (omega arith) in
    rw (left, before)
      (relocated (chained (chained (placed t t.term_row (t.term_column - 2)) cleared) step)
        (rw to_row (ground arith)) refl)

right_step :
    (t t' : Terminal)
    → OnScreen t
    → Moved t t' t.term_row t.term_column
    → Moved t
        (stay_on_screen (advance t'))
        (right_of t.term_row t.term_column).0
        (right_of t.term_row t.term_column).1
right_step t t' on moved =
    let row = on.row in
    let column = on.column in
    let here = moved.to_row in
    let there = moved.to_column in
    elim (Bool-cases (t.term_column == 89)) [
      | inl last ↦
          let at_end = ==→eq _ _ last in
          let lower : below t'.term_row ≡ below t.term_row = rw here refl in
          rw last (relocated (chained moved (end_of_row t' (omega arith) (omega arith))) lower refl)
      | inr inner ↦
          let apart = ==→ne _ _ inner in
          let step = within_row t' (t.term_column + 1) (omega arith) (omega arith) (omega arith) in
          rw inner (relocated (chained moved step) (ground arith) refl)
    ]

-- A character moves the position to the next place, keeps the prompt and the color, and writes no
-- cell outside the 90 by 30 of the screen.
pub term_putchar-Moved :
    (c : ℕ) (t : Terminal)
    → OnScreen t
    → Moved t
        (term_putchar c t)
        (next_place c t.pmtlen t.term_row t.term_column).0
        (next_place c t.pmtlen t.term_row t.term_column).1
unfolding term_putchar term_putentryat
term_putchar-Moved c t on =
    let row = on.row in
    let column = on.column in
    elim (Bool-cases (c == b'\n')) [
      | inl newline ↦ rw newline (new_line t on)
      | inr other ↦ elim (Bool-cases (c == 0x08)) [
        | inl back ↦ elim (Bool-cases (ltb t.pmtlen t.term_column)) [
          | inl room ↦ rw (other, back, room) (step_back t t.term_color on (ltb→lt _ _ room))
          | inr prompt ↦
              rw (other, back, prompt) (right_step t t on (placed t t.term_row t.term_column))
        ]
        | inr plain ↦
            rw (other, plain)
              (right_step t (put_entry c t.term_color t.term_column t.term_row t) on
                (put_entry-Moved c t.term_color t.term_column t.term_row t (omega arith)))
      ]
    ]
