-- ===== src/Shell/Execute.antt =====
-- What the shell runs for a line.
use mathlib.Core.Path.{subst}
use owmice.Base.{
  ℕ, ◌+◌, ◌<◌, ◌≤◌, ◌≡◌, ◌≢◌, ◌⊎◌, refl, sym, ◌∙◌, arith, Bool, true, false, some, List, [], ◌∷◌,
  ◌++◌, length, codes, if◌then◌else◌,
}
use owmice.Memory.{Memory}
use owmice.Memory.Block.{CString, SameOutside, CString-frame}
use owmice.Strings.Length.{strlen-length, index_of, load8-clearchar}
use owmice.Strings.Copy.{strcpy_lem, strcat-append}
use owmice.Strings.Token.{length-before, before}
use owmice.Calls.{Reply, owmice_malloc, owmice_exec_initrd, owmice_free}
use owmice.Shell.Split.{Laid, Buffered, request, Splits, split-requested, length-request}
use owmice.Shell.{Places, bin_file_exec, execute}

abbrev extension : List ℕ
extension = codes ".owb"

-- The calls that run a program under a name of `n` bytes.
abbrev pub run_calls : ℕ → ℕ → ℕ → List Reply
run_calls n bin_name arg1 =
    owmice_malloc (n + 4 + 1) ∷ owmice_exec_initrd bin_name arg1 0 ∷ owmice_free bin_name ∷ []

bin_file_exec-runs :
    (fuel bin_name : ℕ) (m : Memory) (p : Places) (command arg1 : ℕ) (s : List ℕ)
    → CString m command s
    → CString m p.bin_ext_str extension
    → bin_name ≢ 0
    → length s + 4 < fuel
    → (bin_name + length s + 5 ≤ command) ⊎ (command + length s < bin_name)
    → (bin_name + length s + 5 ≤ p.bin_ext_str) ⊎ (p.bin_ext_str + 5 ≤ bin_name)
    → (m' : Memory) × (bin_file_exec fuel bin_name m p command arg1 0
        ≡ some (m', run_calls (length s) bin_name arg1))
      × CString m' bin_name (s ++ extension)
      × SameOutside bin_name (bin_name + length s + 5) m m'
unfolding bin_file_exec
bin_file_exec-runs fuel bin_name m p command arg1 s h ext ne enough apart away =
    let (m1, copy, copied, out1) =
      strcpy_lem fuel m bin_name command s h (omega arith) ne (omega arith) in
    let ext1 : CString m1 p.bin_ext_str extension =
      CString-frame m m1 p.bin_ext_str extension (λ a lo hi. out1 a (omega arith)) ext in
    let (m2, cat, named, out2) =
      strcat-append fuel m1 bin_name p.bin_ext_str s extension copied ext1 (omega arith)
        (omega arith) (omega arith) in
    (
      m2,
      rw (strlen-length fuel m command s h (omega arith), copy, cat) refl,
      named,
      λ a away. out2 a (omega arith) ∙ out1 a (omega arith),
    )

-- The branches of `execute`.
branch-runs :
    (b : Bool) (fuel bin_name : ℕ) (m : Memory) (p : Places) (command : ℕ) (name left : List ℕ)
    → CString m (if b then p.tbuf else command) name
    → CString m command left
    → length name < 129
    → length left < 129
    → CString m p.bin_ext_str extension
    → Laid p command bin_name
    → 134 ≤ fuel
    → (m' : Memory) × ((if b
          then bin_file_exec fuel bin_name m p p.tbuf command 0
          else bin_file_exec fuel bin_name m p command 0 0)
        ≡ some (m', run_calls (length name) bin_name (if b then command else 0)))
      × CString m' bin_name (name ++ extension)
      × CString m' command left
      × SameOutside bin_name (bin_name + 134) m m'
branch-runs true fuel bin_name m p command name left named h short fits ext laid enough =
    let (pc, pt, pb, ct, cs, ce, cb, ts, te, tb, eb, sb) = laid in
    let (m', run, full_name, out) =
      bin_file_exec-runs fuel bin_name m p p.tbuf command name named ext (λ e. absurd (omega arith))
        (omega arith) (omega arith) (omega arith) in
    (
      m',
      run,
      full_name,
      CString-frame m m' command left (λ a lo hi. out a (omega arith)) h,
      λ a away. out a (omega arith),
    )
branch-runs false fuel bin_name m p command name left named h short fits ext laid enough =
    let (pc, pt, pb, ct, cs, ce, cb, ts, te, tb, eb, sb) = laid in
    let (m', run, full_name, out) =
      bin_file_exec-runs fuel bin_name m p command 0 name named ext (λ e. absurd (omega arith))
        (omega arith) (omega arith) (omega arith) in
    (
      m',
      run,
      full_name,
      CString-frame m m' command left (λ a lo hi. out a (omega arith)) h,
      λ a away. out a (omega arith),
    )

-- What the shell keeps between two lines.
abbrev pub Ready : Memory → Places → Type 0
Ready m p = Buffered m p × CString m p.space (codes " ") × CString m p.bin_ext_str extension

-- For a line of less than 129 bytes that shares no byte with the buffers and the strings of the shell,
-- with `tbuf` 0 behind the string that it holds, `execute` always makes three calls: it allocates the
-- name, executes the file, and frees the name. The file is that of the request, with the extension
-- `.owb`, its argument is that of the request, the line holds what the request leaves, and `tbuf` is
-- 0 again behind what it holds.
pub execute-runs :
    (fuel bin_name : ℕ) (m : Memory) (p : Places) (command : ℕ) (s : List ℕ)
    → CString m command s
    → length s < 129
    → Ready m p
    → Laid p command bin_name
    → 134 ≤ fuel
    → let (name, arg1, left) = request command s in
      (m' : Memory) × (execute fuel bin_name m p command
        ≡ some (m', run_calls (length name) bin_name arg1))
      × CString m' bin_name (name ++ extension)
      × CString m' command left
      × Ready m' p
unfolding execute request Splits
execute-runs fuel bin_name m p command s h fits ready laid enough =
    let ((old, hold, less, clean), space, ext) = ready in
    let (pc, pt, pb, ct, cs, ce, cb, ts, te, tb, eb, sb) = laid in
    let (m1, cleared, bytes) = load8-clearchar fuel m p.tbuf old hold (omega arith) in
    let (m2, b, run, left, named, given, out, (old', hold', less', clean')) =
      split-requested fuel m1 p command bin_name s (index_of b' ' s) (before b' ' s) refl refl
        (CString-frame m m1 command s (λ a lo hi. ground (arith, bytes a)) h) fits
        (CString-frame m m1 p.space (codes " ") (λ a lo hi. ground (arith, bytes a)) space)
        (λ a lo hi. ground (arith, bytes a, clean a)) laid (omega arith) in
    let (short, fits') =
      length-request command s (index_of b' ' s) (before b' ' s) (length-before b' ' s) in
    let space2 : CString m2 p.space (codes " ") =
      CString-frame m m2 p.space (codes " ")
        (λ a lo hi. out a (omega arith) (omega arith) ∙ ground (arith, bytes a)) space in
    let ext2 : CString m2 p.bin_ext_str extension =
      CString-frame m m2 p.bin_ext_str extension
        (λ a lo hi. out a (omega arith) (omega arith) ∙ ground (arith, bytes a)) ext in
    let (m3, ran, full_name, still, apart) =
      branch-runs b fuel bin_name m2 p command ((request command s).0) ((request command s).2) named
        left (omega (arith, short)) (omega (arith, fits')) ext2 laid enough in
    (
      m3,
      subst
          (λ (a : ℕ).
            execute fuel bin_name m p command
            ≡ some (m3, run_calls (length (request command s).0) bin_name a))
          (sym given) (rw (cleared, run) ran),
      full_name,
      still,
      (
        (
          old',
          CString-frame m2 m3 p.tbuf old' (λ a lo hi. apart a (omega arith)) hold',
          less',
          λ a from below. apart a (omega arith) ∙ clean' a from below,
        ),
        CString-frame m2 m3 p.space (codes " ") (λ a lo hi. apart a (omega arith)) space2,
        CString-frame m2 m3 p.bin_ext_str extension (λ a lo hi. apart a (omega arith)) ext2,
      ),
    )
