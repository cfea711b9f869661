-- ===== src/Shell/Tests.antt =====
-- The shell at the line "echo hi".
use owmice.Base.{ℕ, ◌+◌, ◌<◌, ◌≤◌, ◌≡◌, refl, arith, some, [], ◌++◌, length, codes}
use owmice.Memory.{Memory, load8, written}
use owmice.Memory.Block.{CString-frame, CString}
use owmice.Strings.Length.{index_of}
use owmice.Strings.Token.{before}
use owmice.Shell.{Places, Round, Ran, execute, owshell_loop}
use owmice.Shell.Session.{Plays, Answered, owshell_loop-Answered}
use owmice.Shell.Split.{Laid, request, requested}
use owmice.Base.{◌∙◌, ◌∷◌, List, if◌then◌else◌, leb, ltb, ◌&&◌}
use owmice.Shell.Execute.{Ready, run_calls, execute-runs}

abbrev places : Places
places = record { bin_ext_str = 4000; space = 3000; tbuf = 2000 }

abbrev memory : Memory
memory a =
    written 1000 (codes "echo hi") a + written 3000 (codes " ") a + written 4000 (codes ".owb") a

line : CString memory 1000 (codes "echo hi")
unfolding load8
line = ground arith

token_buffer : CString memory 2000 []
unfolding load8
token_buffer = refl

clean : (a : ℕ) → 2000 + 0 ≤ a → a < 2000 + 129 → load8 memory a ≡ 0
unfolding load8
clean a from below = ground arith

space : CString memory 3000 (codes " ")
unfolding load8
space = ground arith

extension : CString memory 4000 (codes ".owb")
unfolding load8
extension = ground arith

apart : Laid places 1000 5000
apart = ground arith

-- "echo" with the address of the line, which then holds "hi".
asked : request 1000 (codes "echo hi") ≡ (codes "echo", 1000, codes "hi")
unfolding request requested index_of before
asked = refl

-- A line that starts with a space, and one without.
asked_later : request 1000 (codes " ls") ≡ (codes "ls", 0, codes "ls")
unfolding request requested index_of before
asked_later = refl

ready : Ready memory places
ready = (([], token_buffer, omega arith, clean), space, extension)

execute-runs_example :
    let (name, arg1, left) = request 1000 (codes "echo hi") in
    (m' : Memory) × (execute 134 5000 memory places 1000
      ≡ some (m', run_calls (length name) 5000 arg1))
    × CString m' 5000 (name ++ codes ".owb")
    × CString m' 1000 left
    × Ready m' places
execute-runs_example =
    execute-runs 134 5000 memory places 1000 (codes "echo hi") line (omega arith) ready apart
      (omega arith)

-- The line "echo hi" at 1000, over what was there.
abbrev type_line : Memory → Memory
type_line m a = if leb 1000 a && ltb a 1008 then written 1000 (codes "echo hi") a else m a

abbrev round : Round
round = record { typed = type_line; bin_name = 5000; ran = λ m. m }

typed_string : (m : Memory) → CString (type_line m) 1000 (codes "echo hi")
unfolding load8
typed_string m = ground arith

typed_outside : (m : Memory) (a : ℕ) → 1008 ≤ a → load8 (type_line m) a ≡ load8 m a
unfolding load8
typed_outside m a out = ground arith

typed_ready : (m : Memory) → Ready m places → Ready (type_line m) places
typed_ready m ((old, hold, less, zeros), space, ext) = (
  (
    old,
    CString-frame m (type_line m) 2000 old (λ a lo hi. typed_outside m a (omega arith)) hold,
    less,
    λ a from below. typed_outside m a (omega arith) ∙ zeros a from below,
  ),
  CString-frame m (type_line m) 3000 (codes " ") (λ a lo hi. typed_outside m a (omega arith)) space,
  CString-frame m (type_line m) 4000 (codes ".owb") (λ a lo hi. typed_outside m a (omega arith))
      ext,
)

plays : Plays places 1000 (codes "echo hi") round
plays = (omega arith, apart, λ m h. (typed_string m, typed_ready m h), λ m h. h)

abbrev lines : List (List ℕ)
lines = codes "echo hi" ∷ codes "echo hi" ∷ []

owshell_loop-Answered_example :
    (m' : Memory) × (xs : List Ran) × (owshell_loop 134 (round ∷ round ∷ []) memory places 1000
      ≡ some (m', xs))
    × Answered 1000 lines (round ∷ round ∷ []) xs
    × Ready m' places
owshell_loop-Answered_example =
    owshell_loop-Answered 134 lines (round ∷ round ∷ []) memory places 1000 (plays, (plays, tt))
      ready (omega arith)
