-- ===== src/Programs/Draw.antt =====
-- The random numbers of standard/stdio.h, and programs/drawtest.c and programs/kbdmove.c, which draw by
-- them. A program is the list of its calls of the kernel; what `printf` prints is left out. `next` is
-- the state of the random numbers, and what a call returns is an argument.
pub mod Cover
mod Tests
use owmice.Base.{
  ℕ, zero, suc, ◌+◌, ◌-◌, ◌*◌, ◌/◌, ◌%◌, ◌^◌, List, [], ◌∷◌, ◌++◌, ◌==◌, if◌then◌else◌,
}
use owmice.Calls.{
  Reply, owmice_now, owmice_disable_scroll, owmice_enable_scroll, owmice_cls, owmice_status_cls,
  owmice_draw, owmice_sleep, owmice_get_char, owmice_kbd_current_char,
}

-- The number, and the next state: an `unsigned long` of 32 bits.
unfoldable pub rand : ℕ → ℕ × ℕ
rand next = let next = (next * 1103515245 + 12345) % 2 ^ 32 in (next / 65536 % 32768, next)

unfoldable pub srand : ℕ → ℕ
srand seed = seed % 2 ^ 32

-- For `0 ≤ min ≤ max` and a sum that no `int` overflows at.
unfoldable pub rand_range : ℕ → ℕ → ℕ → ℕ × ℕ
rand_range min max next = let (r, next) = rand next in (r % (max - min + 1) + min, next)

-- The loop over `j` of `drawtest`, with `left` to go.
pub draw_column : ℕ → ℕ → ℕ → ℕ → List Reply × ℕ
draw_column zero i j next = ([], next)
draw_column (suc left) i j next =
    let (color, next) = rand_range 0 15 next in
    let (calls, next) = draw_column left i (j + 1) next in (owmice_draw i j color ∷ calls, next)

-- The loop over `i`.
pub draw_columns : ℕ → ℕ → ℕ → List Reply × ℕ
draw_columns zero i next = ([], next)
draw_columns (suc left) i next =
    let (column, next) = draw_column 30 i 0 next in
    let (calls, next) = draw_columns left (i + 1) next in (column ++ calls, next)

-- The loop over `n`.
pub draw_frames : ℕ → ℕ → List Reply × ℕ
draw_frames zero next = ([], next)
draw_frames (suc left) next =
    let (frame, next) = draw_columns 90 0 next in
    let (calls, next) = draw_frames left next in (frame ++ owmice_sleep 100 ∷ calls, next)

-- `main` of drawtest.c; `now` is what the first call returns.
pub drawtest : ℕ → List Reply
drawtest now =
    (owmice_now ∷ owmice_disable_scroll ∷ owmice_cls ∷ (draw_frames 25 (srand now)).0)
    ++ (owmice_get_char ∷ owmice_enable_scroll ∷ owmice_cls ∷ owmice_status_cls ∷ [])

-- The variables of kbdmove.c; `x` and `y` are the 32-bit patterns of `int`s.
pub record Mover : Type 0 where
  pub x : ℕ
  pub y : ℕ
  pub color : ℕ
  pub next : ℕ

abbrev pub up_key : ℕ
up_key = 11

abbrev pub left_key : ℕ
left_key = 12

abbrev pub down_key : ℕ
down_key = 14

abbrev pub right_key : ℕ
right_key = 13

-- The `switch`, for a character that is not 0.
pub move_key : Mover → ℕ → Mover
move_key p kb =
    if kb == up_key
    then record p { y = (p.y + 2 ^ 32 - 1) % 2 ^ 32 }
    else if kb == down_key
    then record p { y = (p.y + 1) % 2 ^ 32 }
    else if kb == left_key
    then record p { x = (p.x + 2 ^ 32 - 1) % 2 ^ 32 }
    else if kb == right_key
    then record p { x = (p.x + 1) % 2 ^ 32 }
    else if kb == b' '
    then (let (color, next) = rand_range 0 15 p.next in record p { color = color; next = next })
    else p

-- The loop while the characters that are read last; a line break ends it.
pub move_loop : List ℕ → Mover → List Reply
move_loop [] p = []
move_loop (kb ∷ kbs) p =
    let q = if kb == 0 then p else move_key p kb in
    let rest = if kb == 10 then [] else move_loop kbs q in
    owmice_kbd_current_char ∷ owmice_draw p.x p.y p.color ∷ owmice_sleep 80 ∷ rest
