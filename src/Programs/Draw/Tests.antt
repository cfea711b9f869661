-- ===== src/Programs/Draw/Tests.antt =====
-- The first frame of drawtest, and a key of kbdmove.
use owmice.Base.{ℕ, ◌+◌, ◌*◌, ◌<◌, ◌≡◌, refl, arith, some, length, get_elem?}
use owmice.Calls.{owmice_draw}
use owmice.Programs.Draw.{Mover, move_loop, draw_columns, rand, srand, rand_range}
use owmice.Programs.Draw.Cover.{DrawnAt, draw_columns-frame, to_the_right, move_loop-to_the_right}

-- Seed 1.
first_number : (rand_range 0 15 (srand 1)).0 ≡ 6
unfolding rand_range rand srand
first_number = refl

draw_columns-frame_example :
    let calls = (draw_columns 90 0 1).0 in
    (length calls ≡ 2700)
    × ((x y : ℕ) → x < 90 → y < 30 → DrawnAt (get_elem? calls (x * 30 + y)) x y)
draw_columns-frame_example = draw_columns-frame 1

abbrev start : Mover
start = record { x = 10; y = 10; color = 6; next = 1 }

-- Column 110 of a screen of 90.
beyond_the_edge :
    get_elem? (move_loop (to_the_right 200) start) (100 * 3 + 1)
    ≡ some (owmice_draw (10 + 100) 10 6)
beyond_the_edge = move_loop-to_the_right 200 100 start (omega arith) (omega arith)
