-- ===== src/Keyboard/Input.antt =====
-- The string in the input buffer.
use mathlib.Core.List.{append-nil, append_assoc, map}
use owmice.Base.{
  ℕ, ◌≤◌, ◌≡◌, ◌≢◌, refl, arith, false, List, [], ◌∷◌, ◌++◌, length, length-append, ltb, leb, ◌==◌,
  ◌&&◌, Bool-cases, inl, inr, ne→==, ap, sym, ◌∙◌, ◌<◌,
}
use owmice.Terminal.{Terminal, term_putchar}
use owmice.Keyboard.{
  Keyboard, drop_last, backspace, enter, type_char, shifted, key_action, key_down, key_up,
  keyboard_handler_main, interrupts, kbd_char, enter_key_code, keyboard_map, map_table,
  keyboard_specialchars, is_arrow,
}

-- The string fits the positions that are counted, and the 128 of the buffer.
pub record Fits (k : Keyboard) : Type 0 where
  pub counted : length k.con_input ≤ k.bufpos
  pub bounded : length k.con_input ≤ 128

length-drop_last : (cs : List ℕ) → length (drop_last cs) ≤ length cs
unfolding drop_last
length-drop_last [] = omega arith
length-drop_last (c ∷ []) = omega arith
length-drop_last (c ∷ d ∷ cs) = omega (arith, length-drop_last (d ∷ cs))

backspace-Fits : (k : Keyboard) → Fits k → Fits (backspace k)
unfolding backspace
backspace-Fits k fits =
    let counted = fits.counted in
    let bounded = fits.bounded in
    let shorter = length-drop_last k.con_input in
    elim (Bool-cases (ltb 0 (length k.con_input))) [
      | inl some ↦ rw some (record { counted = omega arith; bounded = omega arith })
      | inr none ↦ rw none fits
    ]

type_char-Fits : (k : Keyboard) → k.request ≢ kbd_char → Fits k → Fits (type_char k)
unfolding type_char
type_char-Fits k line fits =
    let counted = fits.counted in
    let bounded = fits.bounded in
    elim (Bool-cases (k.keychar == 0)) [
      | inl nothing ↦ rw nothing fits
      | inr char ↦ elim (Bool-cases (leb 128 k.bufpos)) [
        | inl full ↦ rw (char, full) fits
        | inr room ↦
            let below : k.bufpos ≤ 127 = ground arith in
            let longer = length-append k.con_input (k.keychar ∷ []) in
            rw (char, room, ne→== _ _ line)
              (record { counted = omega arith; bounded = omega arith })
      ]
    ]

module _ (code : ℕ) (k : Keyboard) (line : k.request ≢ kbd_char) (other : code ≢ enter_key_code)
    (fits : Fits k) where
  key_action-Fits : Fits (key_action code k)
  unfolding key_action
  key_action-Fits = elim (Bool-cases (is_arrow k.keychar)) [
    | inl arrow ↦ rw arrow fits
    | inr char ↦ rw (char, ne→== _ _ other) (type_char-Fits k line fits)
  ]

  key_up-Fits : Fits (key_up code k)
  unfolding key_up
  key_up-Fits = elim (Bool-cases (code == 170)) [
    | inl shift ↦ rw shift (record { counted = fits.counted; bounded = fits.bounded })
    | inr plain ↦ rw plain (record { counted = fits.counted; bounded = fits.bounded })
  ]

key_down-Fits :
    (code : ℕ) (k : Keyboard)
    → k.request ≢ kbd_char
    → code ≢ enter_key_code
    → Fits k
    → Fits (key_down code k)
unfolding key_down shifted
key_down-Fits code k line other fits = elim (Bool-cases (k.keychar == 15)) [
  | inl shift ↦ rw shift (record { counted = fits.counted; bounded = fits.bounded })
  | inr plain ↦ elim (Bool-cases (k.shift_down && leb 2 code && leb code 13)) [
    | inl upper ↦
        rw (plain, upper)
          (key_action-Fits code (record k { keychar = keyboard_specialchars code }) line other
            (record { counted = fits.counted; bounded = fits.bounded }))
    | inr lower ↦ rw (plain, lower) (key_action-Fits code k line other fits)
  ]
]

-- While no single character is asked for, every key but the enter key keeps the string within the
-- count of positions and the 128 of the buffer.
pub keyboard_handler_main-Fits :
    (past : ℕ → ℕ) (code : ℕ) (k : Keyboard)
    → k.request ≢ kbd_char
    → code ≢ enter_key_code
    → Fits k
    → Fits (keyboard_handler_main past code k)
unfolding keyboard_handler_main
keyboard_handler_main-Fits past code k line other fits =
    let k' = record k { keychar = keyboard_map past code } in
    let fits' : Fits k' = record { counted = fits.counted; bounded = fits.bounded } in
    elim (Bool-cases (keyboard_map past code == 0x08)) [
      | inl back ↦ rw back (backspace-Fits k' fits')
      | inr char ↦ elim (Bool-cases (leb 0x80 code)) [
        | inl up ↦ rw (char, up) (key_up-Fits code k' line other fits')
        | inr down ↦ rw (char, down) (key_down-Fits code k' line other fits')
      ]
    ]

-- The keys of some letters, each with the enter key behind it.
abbrev pub lines : List ℕ → List ℕ
lines [] = []
lines (c ∷ cs) = c ∷ enter_key_code ∷ lines cs

-- All of the codes are those of letters that go down.
abbrev pub Letters : (ℕ → ℕ) → List ℕ → Type 0
Letters past [] = Unit
Letters past (c ∷ cs) =
    (c < 0x80) × (b'a' ≤ keyboard_map past c) × (keyboard_map past c ≤ b'z') × Letters past cs

-- No request, a count of 0 and the shift key up, as at the start.
abbrev pub idle : List ℕ → ℕ → Terminal → Keyboard
idle cs c t = record {
  con_input = cs;
  bufpos = 0;
  request = 0;
  keychar = c;
  shift_down = false;
  terminal = t;
}

enter_line :
    (past : ℕ → ℕ) (cs : List ℕ) (c : ℕ) (t : Terminal)
    → keyboard_handler_main past enter_key_code (record (idle cs c t) { bufpos = 1 })
      ≡ idle cs b'\n' (term_putchar b'\n' t)
unfolding keyboard_handler_main key_down shifted key_action enter is_arrow keyboard_map map_table
enter_line past cs c t = refl

not_enter :
    (past : ℕ → ℕ) (code : ℕ) → b'a' ≤ keyboard_map past code → (code == enter_key_code) ≡ false
unfolding keyboard_map map_table
not_enter past code low = ne→== _ _ (λ e. absurd (omega (arith, rw e at low)))

letter_key :
    (past : ℕ → ℕ) (code : ℕ) (cs : List ℕ) (c : ℕ) (t : Terminal)
    → code < 0x80
    → b'a' ≤ keyboard_map past code
    → keyboard_map past code ≤ b'z'
    → keyboard_handler_main past code (idle cs c t)
      ≡ record (idle
          (cs ++ keyboard_map past code ∷ [])
          (keyboard_map past code)
          (term_putchar (keyboard_map past code) t)) { bufpos = 1 }
unfolding keyboard_handler_main key_down shifted key_action type_char is_arrow
letter_key past code cs c t down low high =
    let back : (keyboard_map past code == 0x08) ≡ false = ne→== _ _ (omega arith) in
    let up : leb 0x80 code ≡ false = ground arith in
    let shift : (keyboard_map past code == 15) ≡ false = ne→== _ _ (omega arith) in
    let a1 : (keyboard_map past code == 11) ≡ false = ne→== _ _ (omega arith) in
    let a2 : (keyboard_map past code == 14) ≡ false = ne→== _ _ (omega arith) in
    let a3 : (keyboard_map past code == 12) ≡ false = ne→== _ _ (omega arith) in
    let a4 : (keyboard_map past code == 13) ≡ false = ne→== _ _ (omega arith) in
    let char : (keyboard_map past code == 0) ≡ false = ne→== _ _ (omega arith) in
    rw (back, up, shift, a1, a2, a3, a4, not_enter past code low, char) refl

-- From a count of positions of 0, while no line is asked for and shift is up, the keys of any number of
-- letters, each with the enter key behind it, put all of these letters behind the string of the input
-- buffer, however many they are, since the enter key sets the count back to 0 and leaves the string.
pub interrupts-lines :
    (past : ℕ → ℕ) (codes : List ℕ) (cs : List ℕ) (c : ℕ) (t : Terminal)
    → Letters past codes
    → (interrupts past (lines codes) (idle cs c t)).con_input ≡ cs ++ map (keyboard_map past) codes
unfolding interrupts
interrupts-lines past [] cs c t letters = sym (append-nil cs)
interrupts-lines past (k ∷ codes) cs c t (down, low, high, letters) =
    let ch = keyboard_map past k in
    ap
      (λ (k' : Keyboard).
        (interrupts past (lines codes) (keyboard_handler_main past enter_key_code k')).con_input)
      (letter_key past k cs c t down low high)
    ∙ ap (λ (k' : Keyboard). (interrupts past (lines codes) k').con_input)
        (enter_line past (cs ++ ch ∷ []) ch (term_putchar ch t))
    ∙ interrupts-lines past codes (cs ++ ch ∷ []) b'\n' (term_putchar b'\n' (term_putchar ch t))
        letters
    ∙ append_assoc cs (ch ∷ []) (map (keyboard_map past) codes)
