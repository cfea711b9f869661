-- ===== src/Programs/Draw/Cover.antt =====
-- What the programs that draw reach of the screen.
use mathlib.Core.Path.{subst}
use owmice.Base.{
  ℕ, zero, suc, ◌+◌, ◌-◌, ◌*◌, ◌%◌, ◌^◌, ◌<◌, ◌≤◌, ◌≡◌, refl, ap, ◌∙◌, arith, Option, some, List,
  [], ◌∷◌, ◌++◌, length, length-append, get_elem?,
}
use owmice.Calls.{Reply, owmice_draw}
use owmice.Programs.Draw.{
  rand, rand_range, draw_column, draw_columns, Mover, right_key, move_key, move_loop,
}

-- Between the bounds.
rand_range_bounds :
    (min max next : ℕ)
    → min ≤ max
    → (min ≤ (rand_range min max next).0) × ((rand_range min max next).0 ≤ max)
unfolding rand_range rand
rand_range_bounds min max next le =
    let r = (rand next).0 in
    let low : r % (max - min + 1) < max - min + 1 = omega arith in (omega arith, omega (arith, low))

get_elem?-append_left :
    (xs ys : List Reply) (k : ℕ) → k < length xs → get_elem? (xs ++ ys) k ≡ get_elem? xs k
get_elem?-append_left [] ys k low = absurd (omega arith)
get_elem?-append_left (x ∷ xs) ys zero low = refl
get_elem?-append_left (x ∷ xs) ys (suc k) low = get_elem?-append_left xs ys k (omega arith)

get_elem?-append_right :
    (xs ys : List Reply) (n k : ℕ) → n ≡ length xs + k → get_elem? (xs ++ ys) n ≡ get_elem? ys k
get_elem?-append_right [] ys n k e = ap (get_elem? ys) (omega (arith, e))
get_elem?-append_right (x ∷ xs) ys zero k e = absurd (omega arith)
get_elem?-append_right (x ∷ xs) ys (suc n) k e = get_elem?-append_right xs ys n k (omega arith)

-- A call that draws at `x` and `y` in a color of the screen.
abbrev pub DrawnAt : Option Reply → ℕ → ℕ → Type 0
DrawnAt o x y = (color : ℕ) × (o ≡ some (owmice_draw x y color)) × (color ≤ 15)

length-draw_column : (left i j next : ℕ) → length ((draw_column left i j next).0) ≡ left
unfolding draw_column
length-draw_column zero i j next = refl
length-draw_column (suc left) i j next =
    ap suc (length-draw_column left i (j + 1) ((rand_range 0 15 next).1))

draw_column-DrawnAt :
    (left i j next k : ℕ)
    → k < left
    → DrawnAt (get_elem? ((draw_column left i j next).0) k) i (j + k)
unfolding draw_column
draw_column-DrawnAt zero i j next k low = absurd (omega arith)
draw_column-DrawnAt (suc left) i j next zero low =
    let same : j ≡ j + 0 = omega arith in
    let color = (rand_range 0 15 next).0 in
    (
      color,
      ap (λ (y : ℕ). some (owmice_draw i y color)) same,
      (rand_range_bounds 0 15 next (omega arith)).1,
    )
draw_column-DrawnAt (suc left) i j next (suc k) low =
    let (color, call, small) =
      draw_column-DrawnAt left i (j + 1) ((rand_range 0 15 next).1) k (omega arith) in
    let same : j + 1 + k ≡ j + suc k = omega arith in
    (color, call ∙ ap (λ (y : ℕ). some (owmice_draw i y color)) same, small)

length-draw_columns : (left i next : ℕ) → length ((draw_columns left i next).0) ≡ left * 30
unfolding draw_columns
length-draw_columns zero i next = omega arith
length-draw_columns (suc left) i next =
    let (column, next') = draw_column 30 i 0 next in
    length-append column ((draw_columns left (i + 1) next').0)
    ∙ omega (arith, length-draw_column 30 i 0 next, length-draw_columns left (i + 1) next')

draw_columns-DrawnAt :
    (left i next x y : ℕ)
    → x < left
    → y < 30
    → DrawnAt (get_elem? ((draw_columns left i next).0) (x * 30 + y)) (i + x) y
unfolding draw_columns
draw_columns-DrawnAt zero i next x y low in_row = absurd (omega arith)
draw_columns-DrawnAt (suc left) i next zero y low in_row =
    let (column, next') = draw_column 30 i 0 next in
    let rest = (draw_columns left (i + 1) next').0 in
    let long = length-draw_column 30 i 0 next in
    let (color, call, small) = draw_column-DrawnAt 30 i 0 next y in_row in
    (
      color,
      get_elem?-append_left column rest (0 * 30 + y) (omega (arith, long))
          ∙ ap (get_elem? column) (omega arith)
          ∙ call
          ∙ drawn i (i + 0) (0 + y) y color (omega arith) (omega arith),
      small,
    )
  where
    drawn :
        (x x' y y' color : ℕ)
        → x ≡ x'
        → y ≡ y'
        → some (owmice_draw x y color) ≡ some (owmice_draw x' y' color)
    drawn x x' y y' color e f = cc (e, f)
draw_columns-DrawnAt (suc left) i next (suc x) y low in_row =
    let (column, next') = draw_column 30 i 0 next in
    let rest = (draw_columns left (i + 1) next').0 in
    let long = length-draw_column 30 i 0 next in
    let (color, call, small) = draw_columns-DrawnAt left (i + 1) next' x y (omega arith) in_row in
    let same : i + 1 + x ≡ i + suc x = omega arith in
    (
      color,
      get_elem?-append_right column rest (suc x * 30 + y) (x * 30 + y) (omega (arith, long))
          ∙ call
          ∙ ap (λ (a : ℕ). some (owmice_draw a y color)) same,
      small,
    )

from_0 : (x : ℕ) → 0 + x ≡ x
from_0 x = omega arith

-- Each frame of drawtest is 2700 calls, and draws each cell of the 90 columns and 30 rows once, column
-- by column, in one of the 16 colors.
pub draw_columns-frame :
    (next : ℕ)
    → let calls = (draw_columns 90 0 next).0 in
      (length calls ≡ 2700)
      × ((x y : ℕ) → x < 90 → y < 30 → DrawnAt (get_elem? calls (x * 30 + y)) x y)
draw_columns-frame next = (
  length-draw_columns 90 0 next,
  λ x y low in_row.
      subst (λ a. DrawnAt (get_elem? ((draw_columns 90 0 next).0) (x * 30 + y)) a y) (from_0 x)
        (draw_columns-DrawnAt 90 0 next x y low in_row),
)

-- The key to the right, `n` times, and then the enter key.
abbrev pub to_the_right : ℕ → List ℕ
to_the_right zero = 10 ∷ []
to_the_right (suc n) = right_key ∷ to_the_right n

-- kbdmove does not stop at the edge of the screen: with the key to the right down for `n` rounds, the
-- round `k` of them draws `k` columns to the right of the start, whatever the width of the screen is.
pub move_loop-to_the_right :
    (n k : ℕ) (p : Mover)
    → k ≤ n
    → p.x + n < 2 ^ 32
    → get_elem? (move_loop (to_the_right n) p) (k * 3 + 1)
      ≡ some (owmice_draw (p.x + k) p.y p.color)
unfolding move_loop move_key
move_loop-to_the_right zero zero p low fits =
    ap (λ (x : ℕ). some (owmice_draw x p.y p.color)) (omega arith)
move_loop-to_the_right zero (suc k) p low fits = absurd (omega arith)
move_loop-to_the_right (suc n) zero p low fits =
    ap (λ (x : ℕ). some (owmice_draw x p.y p.color)) (omega arith)
move_loop-to_the_right (suc n) (suc k) p low fits =
    let q = record p { x = (p.x + 1) % 2 ^ 32 } in
    let at_index : suc k * 3 + 1 ≡ suc (suc (suc (k * 3 + 1))) = omega arith in
    ap (get_elem? (move_loop (to_the_right (suc n)) p)) at_index
    ∙ move_loop-to_the_right n k q (omega arith) (omega arith)
    ∙ ap (λ (x : ℕ). some (owmice_draw x p.y p.color)) (omega arith)
