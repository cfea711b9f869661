-- ===== src/Shell.antt =====
-- programs/owshell.c over Strings and Calls. A command is run by calls of the kernel: the model
-- returns the calls in their order and the memory that the program is run with, and takes the address
-- that `owmice_malloc` returns as an argument. What a call does is its routine's part.
pub mod Split
pub mod Execute
pub mod Session
mod Tests
use owmice.Base.{
  ℕ, ◌+◌, Option, none, some, ◌>>=◌, List, [], ◌∷◌, Bool, true, false, ◌==◌, if◌then◌else◌,
}
use owmice.Memory.{Memory}
use owmice.Strings.{strlen, strcpy, strcat, strchr, clearchar, strtok}
use owmice.Calls.{
  Reply, owmice_malloc, owmice_exec_initrd, owmice_free, owmice_prompt, owmice_kbd_get_string,
}

abbrev pub input_buffer_size : ℕ
input_buffer_size = 129

abbrev bin_ext : ℕ
bin_ext = 4

-- The addresses of the strings of the program: `bin_ext_str`, the literal `" "` and `tbuf`.
pub record Places : Type 0 where
  pub bin_ext_str : ℕ
  pub space : ℕ
  pub tbuf : ℕ

-- `bin_name` is the address that `owmice_malloc` returns.
pub bin_file_exec : ℕ → ℕ → Memory → Places → ℕ → ℕ → ℕ → Option (Memory × List Reply)
bin_file_exec fuel bin_name m p command arg1 arg2 = do
  clen ← strlen fuel m command
  (m, copy) ← strcpy fuel m bin_name command
  m ← strcat fuel m bin_name p.bin_ext_str
  some (
    m,
    owmice_malloc (clen + bin_ext + 1)
        ∷ owmice_exec_initrd bin_name arg1 arg2
        ∷ owmice_free bin_name
        ∷ [],
  )

-- The test of `execute`, with the memory that it leaves; `strtok` is only called behind a space.
pub split : ℕ → Memory → Places → ℕ → Option (Memory × Bool)
split fuel m p command = do
  found ← strchr fuel m command b' '
  (if found == 0 then some (m, false) else (do
    (m, token) ← strtok fuel m p.tbuf command p.space
    some (m, if token == 0 then false else true)))

pub execute : ℕ → ℕ → Memory → Places → ℕ → Option (Memory × List Reply)
execute fuel bin_name m p command = do
  m ← clearchar fuel m p.tbuf
  (m, has_argument) ← split fuel m p command
  (if has_argument
      then bin_file_exec fuel bin_name m p p.tbuf command 0
      else bin_file_exec fuel bin_name m p command 0 0)

-- A round of `owshell_main`: what `owmice_prompt` and `owmice_kbd_get_string` do to the memory, the
-- address that `owmice_malloc` returns, and what the calls of `execute` do to the memory.
pub record Round : Type 0 where
  pub typed : Memory → Memory
  pub bin_name : ℕ
  pub ran : Memory → Memory

-- The calls of a round, and the memory that those of `execute` find.
pub record Ran : Type 0 where
  pub calls : List Reply
  pub memory : Memory

-- `while (true)` in `owshell_main`, for the rounds that are played; `cmd` is the buffer of the line.
pub owshell_loop : ℕ → List Round → Memory → Places → ℕ → Option (Memory × List Ran)
owshell_loop fuel [] m p cmd = some (m, [])
owshell_loop fuel (r ∷ rs) m p cmd = do
  (m, calls) ← execute fuel (r.bin_name) (r.typed m) p cmd
  let ran : Ran = record { calls = owmice_prompt ∷ owmice_kbd_get_string cmd ∷ calls; memory = m }
  (m, rest) ← owshell_loop fuel rs (r.ran m) p cmd
  some (m, ran ∷ rest)
