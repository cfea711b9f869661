-- ===== src/Ramdisk/Load.antt =====
-- `initrd_init` of io/initrd.h from the memory: the word that counts the files, and behind it the
-- headers of 76 bytes: `magic` at 0, `name` at 1, `offset` at 68 and `length` at 72.
use owmice.Base.{ℕ, zero, suc, ◌+◌, Option, none, some, ◌>>=◌, List, [], ◌∷◌, ◌==◌, if◌then◌else◌}
use owmice.Memory.{Memory, load8, load32, store32}
use owmice.Ramdisk.{FileHeader, Ramdisk, ramdisk_of, u32}

-- The bytes that `strcpy` copies before the 0; `none` if there is none among the first `fuel`.
unfoldable pub string_at : ℕ → Memory → ℕ → Option (List ℕ)
string_at zero m p = none
string_at (suc fuel) m p =
    let rest = string_at fuel m (p + 1) in
    if load8 m p == 0 then some [] else (do s ← rest; some (load8 m p ∷ s))

-- The loop of `initrd_init` on `n` headers from `p` on: the headers with the offsets as they were, and
-- the memory, in which the offsets are moved by `location`.
unfoldable pub load_headers : ℕ → ℕ → ℕ → ℕ → Memory → Option (List FileHeader × Memory)
load_headers fuel zero location p m = some ([], m)
load_headers fuel (suc n) location p m = (do
  let offset = load32 m (p + 68)
  let m = store32 m (p + 68) (u32 (offset + location))
  name ← string_at fuel m (p + 1)
  (hs, m') ← load_headers fuel n location (p + 76) m
  some (
    record { magic = load8 m p; name = name; offset = offset; length = load32 m (p + 72) } ∷ hs,
    m',
  ))

unfoldable pub initrd_init : ℕ → ℕ → Memory → Option Ramdisk
initrd_init fuel location m = (do
  (headers, m) ← load_headers fuel (load32 m location) location (location + 4) m
  some (ramdisk_of location headers m))
