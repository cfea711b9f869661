-- ===== src/Shell/Split.antt =====
-- How `execute` splits a line with `strchr` and `strtok`.
use mathlib.Core.Path.{subst}
use owmice.Base.{
  ℕ, ◌+◌, ◌<◌, ◌≤◌, ◌≡◌, ◌⊎◌, refl, ◌∙◌, arith, Bool, true, false, Option, none, some, List, [],
  ◌∷◌, length, length-drop, drop, codes, ◌==◌, if◌then◌else◌, ne→==,
}
use owmice.Memory.{Memory, load8}
use owmice.Memory.Block.{CString}
use owmice.Strings.{strchr, strtok}
use owmice.Strings.Length.{strchr-found_at, index_of}
use owmice.Strings.Token.{length-before, before, token_at, strtok-before}
use owmice.Shell.{Places, split}

-- Ranges that share no byte: `n` bytes at `a` and `k` at `b`.
abbrev pub Clear : ℕ → ℕ → ℕ → ℕ → Type 0
Clear a n b k = (a + n ≤ b) ⊎ (b + k ≤ a)

-- The buffers and the strings of the shell share no byte, and none of the buffers is at 0.
abbrev pub Laid : Places → ℕ → ℕ → Type 0
Laid p command bin_name =
    (0 < command)
    × (0 < p.tbuf)
    × (0 < bin_name)
    × Clear command 129 p.tbuf 129
    × Clear command 129 p.space 2
    × Clear command 129 p.bin_ext_str 5
    × Clear command 129 bin_name 134
    × Clear p.tbuf 129 p.space 2
    × Clear p.tbuf 129 p.bin_ext_str 5
    × Clear p.tbuf 129 bin_name 134
    × Clear p.bin_ext_str 5 bin_name 134
    × Clear p.space 2 bin_name 134

-- `request` with the place of the first space and what stands before it.
unfoldable pub requested : ℕ → List ℕ → Option ℕ → List ℕ → List ℕ × ℕ × List ℕ
requested command s none t = (s, 0, s)
requested command s (some i) [] = (drop 1 s, 0, drop 1 s)
requested command s (some i) (c ∷ t) = (c ∷ t, command, drop (length (c ∷ t) + 1) s)

-- The name of the program that a line runs, without its extension, the argument, and what is left of
-- the line: without a space the whole line and no argument; with a space at the start the rest of the
-- line and no argument; otherwise what stands before the space, and the rest of the line, in its place.
unfoldable pub request : ℕ → List ℕ → List ℕ × ℕ × List ℕ
request command s = requested command s (index_of b' ' s) (before b' ' s)

-- `tbuf` holds a string, and is 0 behind it.
abbrev pub Buffered : Memory → Places → Type 0
Buffered m p =
    (old : List ℕ) × CString m p.tbuf old
    × (length old < 129)
    × ((a : ℕ) → p.tbuf + length old ≤ a → a < p.tbuf + 129 → load8 m a ≡ 0)

-- The line as the test of `execute` leaves it, for the request `r`.
unfoldable pub Splits : ℕ → Memory → Places → ℕ → List ℕ × ℕ × List ℕ → Type 0
Splits fuel m p command r =
    (m' : Memory) × (b : Bool) × (split fuel m p command ≡ some (m', b))
    × CString m' command (r.2)
    × CString m' (if b then p.tbuf else command) (r.0)
    × (r.1 ≡ (if b then command else 0))
    × ((a : ℕ)
        → (a < p.tbuf) ⊎ (p.tbuf + 129 ≤ a)
        → (a < command) ⊎ (command + 129 ≤ a)
        → load8 m' a ≡ load8 m a)
    × Buffered m' p

-- What `strchr` finds.
place_of : ℕ → Option ℕ → ℕ
place_of command none = 0
place_of command (some i) = command + i

strchr-place_of :
    (fuel : ℕ) (m : Memory) (command : ℕ) (s : List ℕ) (o : Option ℕ)
    → index_of b' ' s ≡ o
    → CString m command s
    → length s < fuel
    → strchr fuel m command b' ' ≡ some (place_of command o)
unfolding place_of
strchr-place_of fuel m command s o e h enough =
    subst
      (λ o.
        strchr fuel m command b' '
        ≡ some
            (elim o [ some i ↦ command + i | none ↦ if b' ' == 0 then command + length s else 0 ]))
      e (strchr-found_at fuel m command b' ' s h enough)
    ∙ opened o
  where
    opened :
        (o : Option ℕ)
        → some
            (elim o [ some i ↦ command + i | none ↦ if b' ' == 0 then command + length s else 0 ])
          ≡ some (place_of command o)
    opened none = refl
    opened (some i) = refl

index_of-full : (c i : ℕ) (s : List ℕ) → index_of c s ≡ some i → 0 < length s
unfolding index_of
index_of-full c i [] e = cc e
index_of-full c i (x ∷ s) e = omega arith

-- What `strtok` does to the line, for the token `t`.
Tokens : ℕ → Memory → Places → ℕ → List ℕ → List ℕ → Type 0
Tokens fuel m p command s t =
    (m' : Memory) × (strtok fuel m p.tbuf command p.space ≡ some (m', token_at p.tbuf t))
    × CString m' p.tbuf t
    × CString m' command (drop (length t + 1) s)
    × ((a : ℕ)
        → (a < p.tbuf) ⊎ (p.tbuf + 129 ≤ a)
        → (a < command) ⊎ (command + length s ≤ a)
        → load8 m' a ≡ load8 m a)
    × ((a : ℕ) → p.tbuf + length t ≤ a → a < p.tbuf + 129 → load8 m' a ≡ 0)

strtok-Tokens :
    (fuel : ℕ) (m : Memory) (p : Places) (command bin_name : ℕ) (s t : List ℕ)
    → before b' ' s ≡ t
    → 0 < length s
    → CString m command s
    → length s < 129
    → CString m p.space (codes " ")
    → ((a : ℕ) → p.tbuf ≤ a → a < p.tbuf + 129 → load8 m a ≡ 0)
    → Laid p command bin_name
    → 129 ≤ fuel
    → Tokens fuel m p command s t
unfolding Tokens
strtok-Tokens fuel m p command bin_name s t e full h fits space clean laid enough =
    let (pc, pt, pb, ct, cs, ce, cb, ts, te, tb, eb, sb) = laid in
    subst (Tokens fuel m p command s) e (
      strtok-before fuel m p.tbuf command p.space b' ' 129 [] s h full space
        (clean p.tbuf (omega arith) (omega arith)) (omega arith) fits
        (λ a lo hi. clean a (omega arith) hi) enough (omega arith) (omega arith) (omega arith))

pub split-requested :
    (fuel : ℕ) (m : Memory) (p : Places) (command bin_name : ℕ) (s : List ℕ) (o : Option ℕ)
    (t : List ℕ)
    → index_of b' ' s ≡ o
    → before b' ' s ≡ t
    → CString m command s
    → length s < 129
    → CString m p.space (codes " ")
    → ((a : ℕ) → p.tbuf ≤ a → a < p.tbuf + 129 → load8 m a ≡ 0)
    → Laid p command bin_name
    → 129 ≤ fuel
    → Splits fuel m p command (requested command s o t)
unfolding Splits split requested Tokens place_of
split-requested fuel m p command bin_name s none t index text h fits space clean laid enough =
    let found : strchr fuel m command b' ' ≡ some 0 =
      strchr-place_of fuel m command s none index h (omega arith) in
    (
      m,
      false,
      rw found refl,
      h,
      h,
      refl,
      λ a x y. refl,
      (
        [],
        clean p.tbuf (omega arith) (omega arith),
        omega arith,
        λ a from below. clean a (omega arith) below,
      ),
    )
split-requested fuel m p command bin_name s (some i) [] index text h fits space clean laid enough =
    let found : strchr fuel m command b' ' ≡ some (command + i) =
      strchr-place_of fuel m command s (some i) index h (omega arith) in
    let some_place : (command + i == 0) ≡ false = ne→== (command + i) 0 (omega (arith, laid.0)) in
    let (m', run, token, left, out, behind) =
      strtok-Tokens fuel m p command bin_name s [] text (index_of-full b' ' i s index) h fits space
        clean laid enough in
    (
      m',
      false,
      rw (found, some_place, run) refl,
      left,
      left,
      refl,
      λ a x y. out a x (omega arith),
      ([], token, omega arith, behind),
    )
split-requested fuel m p command bin_name s (some i) (c ∷ t) index text h fits space clean laid
      enough =
    let found : strchr fuel m command b' ' ≡ some (command + i) =
      strchr-place_of fuel m command s (some i) index h (omega arith) in
    let some_place : (command + i == 0) ≡ false = ne→== (command + i) 0 (omega (arith, laid.0)) in
    let (m', run, token, left, out, behind) =
      strtok-Tokens fuel m p command bin_name s (c ∷ t) text (index_of-full b' ' i s index) h fits
        space clean laid enough in
    let most : length (c ∷ t) ≤ length s = rw text at (length-before b' ' s) in
    let short : length (c ∷ t) < 129 = omega (arith, most) in
    let some_token : (p.tbuf == 0) ≡ false = ne→== (p.tbuf) 0 (omega (arith, laid.1)) in
    (
      m',
      true,
      rw (found, some_place, run, some_token) refl,
      left,
      token,
      refl,
      λ a x y. out a x (omega arith),
      (c ∷ t, token, short, behind),
    )

-- The request is no longer than the line.
pub length-request :
    (command : ℕ) (s : List ℕ) (o : Option ℕ) (t : List ℕ)
    → length t ≤ length s
    → (length (requested command s o t).0 ≤ length s)
      × (length (requested command s o t).2 ≤ length s)
unfolding requested
length-request command s none t most = (omega arith, omega arith)
length-request command s (some i) [] most =
    (omega (arith, length-drop 1 s), omega (arith, length-drop 1 s))
length-request command s (some i) (c ∷ t) most =
    (most, omega (arith, length-drop (length (c ∷ t) + 1) s))
