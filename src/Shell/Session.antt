-- ===== src/Shell/Session.antt =====
-- A session of the shell.
use owmice.Base.{ℕ, ◌<◌, ◌≤◌, ◌≡◌, refl, some, List, [], ◌∷◌, ◌++◌, length, codes}
use owmice.Memory.{Memory}
use owmice.Memory.Block.{CString}
use owmice.Calls.{owmice_prompt, owmice_kbd_get_string}
use owmice.Shell.{Places, Round, Ran, owshell_loop}
use owmice.Shell.Split.{Laid, request}
use owmice.Shell.Execute.{Ready, run_calls, execute-runs}

-- A round in which the line `s` is typed, and nothing but the line and the name is written to where the
-- shell keeps its strings.
abbrev pub Plays : Places → ℕ → List ℕ → Round → Type 0
Plays p cmd s r =
    (length s < 129)
    × Laid p cmd r.bin_name
    × ((m : Memory) → Ready m p → CString (r.typed m) cmd s × Ready (r.typed m) p)
    × ((m : Memory) → Ready m p → Ready (r.ran m) p)

-- The rounds in which the lines are typed.
abbrev pub Session : Places → ℕ → List (List ℕ) → List Round → Type 0
Session p cmd [] [] = Unit
Session p cmd [] (r ∷ rs) = ⊥
Session p cmd (s ∷ ss) [] = ⊥
Session p cmd (s ∷ ss) (r ∷ rs) = Plays p cmd s r × Session p cmd ss rs

-- What the rounds come to for the lines: each one prompts, reads the line, and makes the calls of the
-- request of its own line, which find the name of the file with the extension where they look for it,
-- and the argument in the buffer of the line.
abbrev pub Answered : ℕ → List (List ℕ) → List Round → List Ran → Type 0
Answered cmd [] [] [] = Unit
Answered cmd (s ∷ ss) (r ∷ rs) (x ∷ xs) =
    let (name, arg1, left) = request cmd s in
    (x.calls ≡ owmice_prompt ∷ owmice_kbd_get_string cmd ∷ run_calls (length name) r.bin_name arg1)
    × CString x.memory r.bin_name (name ++ codes ".owb")
    × CString x.memory cmd left
    × Answered cmd ss rs xs
Answered cmd ss rs xs = ⊥

-- The loop of the shell always goes on, for any number of lines of less than 129 bytes, when what is
-- typed and what is run leave the strings of the shell and tbuf in order: each round prompts, reads its
-- line, and makes the calls of the request of that line, whatever the lines before it were, with the
-- name of the request and its extension in the allocated bytes and what the request leaves in the
-- buffer of the line.
pub owshell_loop-Answered :
    (fuel : ℕ) (lines : List (List ℕ)) (rounds : List Round) (m : Memory) (p : Places) (cmd : ℕ)
    → Session p cmd lines rounds
    → Ready m p
    → 134 ≤ fuel
    → (m' : Memory) × (xs : List Ran) × (owshell_loop fuel rounds m p cmd ≡ some (m', xs))
      × Answered cmd lines rounds xs
      × Ready m' p
unfolding owshell_loop
owshell_loop-Answered fuel [] [] m p cmd played ready enough = (m, [], refl, tt, ready)
owshell_loop-Answered fuel [] (r ∷ rs) m p cmd played ready enough = absurd played
owshell_loop-Answered fuel (s ∷ ss) [] m p cmd played ready enough = absurd played
owshell_loop-Answered fuel (s ∷ ss) (r ∷ rs) m p cmd played ready enough =
    let ((short, laid, types, runs), later) = played in
    let (line, ready1) = types m ready in
    let (m1, run, named, left, ready2) =
      execute-runs fuel r.bin_name (r.typed m) p cmd s line short ready1 laid enough in
    let (m2, xs, rest, answered, ready3) =
      owshell_loop-Answered fuel ss rs (r.ran m1) p cmd later (runs m1 ready2) enough in
    let (name, arg1, after) = request cmd s in
    let x : Ran = record {
      calls = owmice_prompt ∷ owmice_kbd_get_string cmd ∷ run_calls (length name) r.bin_name arg1;
      memory = m1;
    } in
    (m2, x ∷ xs, rw (run, rest) refl, (refl, named, left, answered), ready3)
