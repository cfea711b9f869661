-- ===== src/Terminal/Write.antt =====
-- Texts on the terminal.
use owmice.Base.{
  ℕ, suc, ◌+◌, ◌-◌, ◌*◌, ◌%◌, ◌^◌, ◌≤◌, ◌<◌, ◌≡◌, ◌≢◌, refl, arith, if◌then◌else◌, false, leb, ltb,
  ◌==◌, ◌&&◌, ap, ◌∙◌, Bool-cases, inl, inr, ltb→lt, ltb→le, ==→eq, ==→ne, ne→==, le→ltb, List, [],
  ◌∷◌, length, get_or,
}
use owmice.Terminal.{
  Terminal, vga_width, vga_entry, put, put_entry, term_movecur, term_putentryat, advance,
  stay_on_screen, term_putchar, term_write,
}
use owmice.Terminal.Put.{
  OnScreen, Moved, chained, relocated, placed, next_place, term_putchar-Moved,
}

-- The position behind a text.
unfoldable pub places : List ℕ → ℕ → ℕ → ℕ → ℕ × ℕ
places [] pmtlen row column = (row, column)
places (c ∷ cs) pmtlen row column =
    let (row', column') = next_place c pmtlen row column in places cs pmtlen row' column'

next_place-lt :
    (c pmtlen row column : ℕ)
    → row ≤ 28
    → column < vga_width
    → ((next_place c pmtlen row column).0 ≤ 28) × ((next_place c pmtlen row column).1 < vga_width)
next_place-lt c pmtlen row column hr hc = elim (Bool-cases (c == b'\n')) [
  | inl newline ↦ rw newline (ground arith, omega arith)
  | inr other ↦ elim (Bool-cases (c == 0x08 && ltb pmtlen column)) [
    | inl back ↦ rw (other, back) (hr, omega arith)
    | inr plain ↦ elim (Bool-cases (column == 89)) [
      | inl last ↦ rw (other, plain, last) (ground arith, omega arith)
      | inr inner ↦ let apart = ==→ne _ _ inner in rw (other, plain, inner) (hr, omega arith)
    ]
  ]
]

pub term_putchar-OnScreen : (c : ℕ) (t : Terminal) → OnScreen t → OnScreen (term_putchar c t)
term_putchar-OnScreen c t on =
    let moved = term_putchar-Moved c t on in
    let (row, column) = next_place-lt c t.pmtlen t.term_row t.term_column on.row on.column in
    let to_row = moved.to_row in
    let to_column = moved.to_column in
    let same = moved.same_pmtlen in
    let has_prompt = on.has_prompt in
    record { row = rw to_row row; column = rw to_column column; has_prompt = omega arith }

-- From a row of at most 28 and a column below 90, with a prompt length of at least 1, a text takes the
-- position from place to place and leaves it on such a row and column, keeps the prompt length and the
-- color, and writes no cell outside the screen.
pub term_write-Moved :
    (cs : List ℕ) (t : Terminal)
    → OnScreen t
    → OnScreen (term_write cs t)
      × Moved t
          (term_write cs t)
          (places cs t.pmtlen t.term_row t.term_column).0
          (places cs t.pmtlen t.term_row t.term_column).1
unfolding term_write places
term_write-Moved [] t on = (on, placed t t.term_row t.term_column)
term_write-Moved (c ∷ cs) t on =
    let step = term_putchar-Moved c t on in
    let (on', rest) = term_write-Moved cs (term_putchar c t) (term_putchar-OnScreen c t on) in
    let same_pmtlen = step.same_pmtlen in
    let to_row = step.to_row in
    let to_column = step.to_column in
    let next = next_place c t.pmtlen t.term_row t.term_column in
    let same : places cs (term_putchar c t).pmtlen (term_putchar c t).term_row
          (term_putchar c t).term_column
        ≡ places cs t.pmtlen next.0 next.1 =
      rw (same_pmtlen, to_row, to_column) refl in
    (
      on',
      chained step (relocated rest (ap (λ (p : ℕ × ℕ). p.0) same) (ap (λ (p : ℕ × ℕ). p.1) same)),
    )

abbrev pub IsPlain : ℕ → Type 0
IsPlain c = (c ≢ b'\n') × (c ≢ 0x08)

abbrev pub Plain : List ℕ → Type 0
Plain [] = Unit
Plain (c ∷ cs) = IsPlain c × Plain cs

-- A plain character within a row.
term_putchar_plain :
    (c : ℕ) (t : Terminal) (j : ℕ)
    → IsPlain c
    → t.term_row ≤ 28
    → t.term_column < 89
    → (term_putchar c t).term_buffer j ≡ (
        if j == t.term_row * vga_width + t.term_column
        then vga_entry c t.term_color
        else t.term_buffer j)
unfolding term_putchar term_putentryat put_entry advance stay_on_screen put term_movecur
term_putchar_plain c t j plain row column =
    let not_newline = ne→== _ _ plain.0 in
    let not_back = ne→== _ _ plain.1 in
    let right : (t.term_column + 1) % 2 ^ 32 ≡ t.term_column + 1 = omega arith in
    let inner : (t.term_column + 1 == 90) ≡ false = ne→== _ _ (omega arith) in
    let index : (t.term_row * vga_width + t.term_column) % 2 ^ 32
        ≡ t.term_row * vga_width + t.term_column =
      omega arith in
    rw (not_newline, not_back, index)
      (elim (Bool-cases (t.term_row == 0)) [
        | inl bar ↦ rw (bar, right, inner, le→ltb 28 t.term_row row) refl
        | inr other ↦ rw (other, right, inner, le→ltb 28 t.term_row row) refl
      ])

plain_place :
    (c : ℕ) (t : Terminal)
    → OnScreen t
    → IsPlain c
    → t.term_column < 89
    → next_place c t.pmtlen t.term_row t.term_column ≡ (t.term_row, t.term_column + 1)
plain_place c t on plain small =
    let not_newline = ne→== _ _ plain.0 in
    let not_back = ne→== _ _ plain.1 in
    let inner : (t.term_column == 89) ≡ false = ne→== _ _ (omega arith) in
    rw (not_newline, not_back, inner) refl

-- What stands in cell `j` when a text is shown from the cell `start` on.
abbrev pub shown : List ℕ → ℕ → ℕ → ℕ → ℕ → ℕ
shown cs start color old j =
    if leb start j && ltb j (start + length cs)
    then vga_entry (get_or cs (j - start) 0) color
    else old

shown_cons :
    (c : ℕ) (cs : List ℕ) (start color old j : ℕ)
    → shown cs (suc start) color (if j == start then vga_entry c color else old) j
      ≡ shown (c ∷ cs) start color old j
shown_cons c cs start color old j = elim (Bool-cases (j == start)) [
  | inl here ↦
      let at_start = ==→eq _ _ here in
      let zero_off : j - start ≡ 0 = omega arith in rw (here, zero_off) (ground arith)
  | inr other ↦
      let apart = ==→ne _ _ other in
      rw other (elim (Bool-cases (ltb start j)) [
        | inl behind ↦
            let bound = ltb→lt _ _ behind in
            let off : j - start ≡ suc (j - suc start) = omega arith in rw off (ground arith)
        | inr before ↦ let bound = ltb→le _ _ before in ground arith
      ])
]

-- From a row of at most 28 and a column below 90, with a prompt length of at least 1, a text without
-- line breaks and backspaces that ends before the last column is shown in its row from the position
-- on, in the color of the terminal, and no other cell changes.
pub term_write-shown :
    (cs : List ℕ) (t : Terminal) (j : ℕ)
    → Plain cs
    → OnScreen t
    → t.term_column + length cs ≤ 89
    → (term_write cs t).term_buffer j
      ≡ shown cs (t.term_row * vga_width + t.term_column) t.term_color (t.term_buffer j) j
unfolding term_write
term_write-shown [] t j plain on room = ground arith
term_write-shown (c ∷ cs) t j (first, plain) on room =
    let on' = term_putchar-OnScreen c t on in
    let step = term_putchar-Moved c t on in
    let row = on.row in
    let place = plain_place c t on first (omega arith) in
    let to_row = step.to_row ∙ ap (λ (p : ℕ × ℕ). p.0) place in
    let to_column = step.to_column ∙ ap (λ (p : ℕ × ℕ). p.1) place in
    let color = step.same_color in
    let start = t.term_row * vga_width + t.term_column in
    let put_first = term_putchar_plain c t j first row (omega arith) in
    let after = term_putchar c t in
    let later : t.term_row * vga_width + (t.term_column + 1) ≡ suc start = omega arith in
    let rest = term_write-shown cs after j plain on' (omega arith) in
    let same : shown cs (after.term_row * vga_width + after.term_column) after.term_color
          (after.term_buffer j) j
        ≡ shown cs (suc start) t.term_color
            (if j == start then vga_entry c t.term_color else t.term_buffer j) j =
      rw (to_row, to_column, color, put_first, later) refl in
    rest ∙ same ∙ shown_cons c cs start t.term_color (t.term_buffer j) j
