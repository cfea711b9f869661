-- ===== src/Strings/Token.antt =====
-- `strtok` of standard/strings.h splits a string at a character.
use mathlib.Core.Path.{subst}
use owmice.Base.{
  ℕ, zero, suc, ◌+◌, ◌<◌, ◌≤◌, ◌≡◌, ◌≢◌, ◌⊎◌, refl, sym, ◌∙◌, arith, true, false, Option, some,
  List, [], ◌∷◌, length, drop, Bool-cases, inl, inr, ◌==◌, ◌||◌, if◌then◌else◌, ne→==,
}
use owmice.Memory.{Memory, load8, store8, load8-store8, load8-lt}
use owmice.Memory.Block.{CString, SameOutside, CString-frame, CString-full, byte_at}
use owmice.Strings.{strshl, token_loop, delim_loop, strtok}
use owmice.Strings.Length.{load8-clearchar}
use owmice.Strings.Shift.{strshl-drop}

-- The bytes before the first one that is `d`.
unfoldable pub before : ℕ → List ℕ → List ℕ
before d [] = []
before d (c ∷ s) = if c == d then [] else c ∷ before d s

-- What `strtok` returns: no token is NULL.
abbrev pub token_at : ℕ → List ℕ → ℕ
token_at dest [] = 0
token_at dest (c ∷ t) = dest

pub length-before : (d : ℕ) (s : List ℕ) → length (before d s) ≤ length s
unfolding before
length-before d [] = omega arith
length-before d (c ∷ s) = elim (Bool-cases (c == d)) [
  | inl stop ↦ rw stop (omega arith)
  | inr on ↦ rw on (omega (arith, length-before d s))
]

-- What the loop comes to when it copies `t` to `p`.
abbrev Tokened : Option (Memory × ℕ) → Memory → ℕ → ℕ → List ℕ → Type 0
Tokened r m p i t =
    (m' : Memory) × (r ≡ some (m', i + length t))
    × CString m' p t
    × SameOutside p (p + length t) m m'

counted :
    (r : Option (Memory × ℕ)) (m : Memory) (i j : ℕ) → r ≡ some (m, i) → i ≡ j → r ≡ some (m, j)
counted r m i j h e = subst (λ (n : ℕ). r ≡ some (m, n)) e h

before_empty : (d : ℕ) → before d [] ≡ []
unfolding before
before_empty d = refl

before_stop : (c d : ℕ) (s : List ℕ) → (c == d) ≡ true → before d (c ∷ s) ≡ []
unfolding before
before_stop c d s h = rw h refl

before_on : (c d : ℕ) (s : List ℕ) → (c == d) ≡ false → before d (c ∷ s) ≡ c ∷ before d s
unfolding before
before_on c d s h = rw h refl

token_loop_on :
    (fuel : ℕ) (m : Memory) (dest src d i c : ℕ)
    → load8 m (src + i) ≡ c
    → c ≢ 0
    → (c == d) ≡ false
    → token_loop (suc fuel) m dest src d i
      ≡ (token_loop fuel (store8 m (dest + i) (load8 m (src + i))) dest src d (i + 1))
unfolding token_loop
token_loop_on fuel m dest src d i c here full on =
    let no_delimiter : (load8 m (src + i) == d) ≡ false = rw here on in
    let no_end : (load8 m (src + i) == 0) ≡ false = rw here (ne→== c 0 full) in
    rw (no_delimiter, no_end) refl

token_loop_stop :
    (fuel : ℕ) (m : Memory) (dest src d i c : ℕ)
    → load8 m (src + i) ≡ c
    → ((c == d) || (c == 0)) ≡ true
    → token_loop (suc fuel) m dest src d i ≡ some (m, i + 0)
unfolding token_loop
token_loop_stop fuel m dest src d i c here stop =
    let stops : ((load8 m (src + i) == d) || (load8 m (src + i) == 0)) ≡ true = rw here stop in
    counted (token_loop (suc fuel) m dest src d i) m i (i + 0) (rw stops refl) (omega arith)

-- The loop, with the places that it is at.
token_loop-before :
    (fuel : ℕ) (m : Memory) (dest src d i p q : ℕ) (s : List ℕ)
    → p ≡ dest + i
    → q ≡ src + i
    → CString m q s
    → length s < fuel
    → (q + length s < p) ⊎ (p + length s < q)
    → load8 m (p + length (before d s)) ≡ 0
    → Tokened (token_loop fuel m dest src d i) m p i (before d s)
token_loop-before zero m dest src d i p q s ep eq h enough apart end = absurd (omega arith)
token_loop-before (suc fuel) m dest src d i p q [] ep eq h enough apart end =
    let here : load8 m (src + i) ≡ 0 = byte_at m (src + i) q (omega arith) ∙ h in
    let end : load8 m (p + 0) ≡ 0 = rw (before_empty d) at end in
    let r : Tokened (token_loop (suc fuel) m dest src d i) m p i [] = (
      m,
      token_loop_stop fuel m dest src d i 0 here (ground arith),
      byte_at m p (p + 0) (omega arith) ∙ end,
      λ a out. refl,
    ) in
    subst (λ t. Tokened (token_loop (suc fuel) m dest src d i) m p i t) (sym (before_empty d)) r
token_loop-before (suc fuel) m dest src d i p q (c ∷ s) ep eq h enough apart end =
    let here : load8 m (src + i) ≡ c = byte_at m (src + i) q (omega arith) ∙ h.0 in
    elim (Bool-cases (c == d)) [
      | inl stop ↦
          let none_left = before_stop c d s stop in
          let end : load8 m (p + 0) ≡ 0 = rw none_left at end in
          let r : Tokened (token_loop (suc fuel) m dest src d i) m p i [] = (
            m,
            token_loop_stop fuel m dest src d i c here (rw stop refl),
            byte_at m p (p + 0) (omega arith) ∙ end,
            λ a out. refl,
          ) in
          subst (λ t. Tokened (token_loop (suc fuel) m dest src d i) m p i t) (sym none_left) r
      | inr on ↦
          let more = before_on c d s on in
          let end : load8 m (p + suc (length (before d s))) ≡ 0 = rw more at end in
          let m1 = store8 m (dest + i) (load8 m (src + i)) in
          let stored = load8-store8 m (dest + i) (load8 m (src + i)) in
          let (m', run, token, out) =
            token_loop-before fuel m1 dest src d (i + 1) (p + 1) (q + 1) s (omega arith)
              (omega arith) (CString-frame m m1 (q + 1) s (λ a lo hi. ground (arith, stored a)) h.2)
              (omega arith) (omega arith)
              (byte_at m1 (p + 1 + length (before d s)) (p + suc (length (before d s)))
                  (omega arith)
                ∙ ground (arith, stored (p + suc (length (before d s))))) in
          let r : Tokened (token_loop (suc fuel) m dest src d i) m p i (c ∷ before d s) = (
            m',
            token_loop_on fuel m dest src d i c here h.1 on
                ∙ counted (token_loop fuel m1 dest src d (i + 1)) m' (i + 1 + length (before d s))
                    (i + suc (length (before d s))) run (omega arith),
            (ground (arith, out p, stored p, load8-lt m (src + i)), h.1, token),
            λ a away. ground (arith, out a, stored a),
          ) in
          subst (λ t. Tokened (token_loop (suc fuel) m dest src d i) m p i t) (sym more) r
    ]

-- With the one delimiter `d`, the loop over the delimiters copies up to it and shifts once.
delim_loop_once :
    (fuel : ℕ) (m m' : Memory) (dest src delim d n : ℕ) (m'' : Memory)
    → load8 m delim ≡ d
    → d ≢ 0
    → token_loop fuel m dest src d 0 ≡ some (m', n)
    → strshl fuel m' src (n + 1) ≡ some m''
    → load8 m'' (delim + 1) ≡ 0
    → 1 < fuel
    → delim_loop fuel m dest src delim ≡ some m''
unfolding delim_loop
delim_loop_once zero m m' dest src delim d n m'' first full copied moved last enough =
    absurd (omega arith)
delim_loop_once (suc zero) m m' dest src delim d n m'' first full copied moved last enough =
    absurd (omega arith)
delim_loop_once (suc (suc fuel)) m m' dest src delim d n m'' first full copied moved last enough =
    rw (first, ne→== d 0 full, copied, moved, last) refl

returned :
    (m : Memory) (dest : ℕ) (t : List ℕ)
    → CString m dest t
    → (if load8 m dest == 0 then 0 else dest) ≡ token_at dest t
returned m dest [] h = rw h refl
returned m dest (c ∷ t) h = let full = ne→== c 0 h.1 in rw h.0 (rw full refl)

-- `strtok` with one delimiter, on a string that is not empty and a buffer that is apart from the
-- string and the delimiter, larger than the string, and 0 behind the string that it held before,
-- always returns: the buffer holds what stands before the first delimiter, and the string is cut to
-- what stands behind it, which is nothing if there is none, the buffer is 0 behind the token, and
-- nothing else is written. It returns the buffer, or NULL if there is nothing before the delimiter.
pub strtok-before :
    (fuel : ℕ) (m : Memory) (dest src delim d room : ℕ) (old s : List ℕ)
    → CString m src s
    → 0 < length s
    → CString m delim (d ∷ [])
    → CString m dest old
    → length old < room
    → length s < room
    → ((a : ℕ) → dest + length old ≤ a → a < dest + room → load8 m a ≡ 0)
    → room ≤ fuel
    → (src + length s < dest) ⊎ (dest + room ≤ src)
    → (delim + 1 < dest) ⊎ (dest + room ≤ delim)
    → (delim + 1 < src) ⊎ (src + length s < delim)
    → (m' : Memory) × (strtok fuel m dest src delim ≡ some (m', token_at dest (before d s)))
      × CString m' dest (before d s)
      × CString m' src (drop (length (before d s) + 1) s)
      × ((a : ℕ)
          → (a < dest) ⊎ (dest + room ≤ a)
          → (a < src) ⊎ (src + length s ≤ a)
          → load8 m' a ≡ load8 m a)
      × ((a : ℕ) → dest + length (before d s) ≤ a → a < dest + room → load8 m' a ≡ 0)
unfolding strtok
strtok-before fuel m dest src delim d room old s hs some_text hd hold less fits clean enough apart
      away beside =
    let t = before d s in
    let short = length-before d s in
    let (m1, cleared, bytes) = load8-clearchar fuel m dest old hold (omega arith) in
    let hs1 : CString m1 src s = CString-frame m m1 src s (λ a lo hi. ground (arith, bytes a)) hs in
    let hd1 : CString m1 delim (d ∷ []) =
      CString-frame m m1 delim (d ∷ []) (λ a lo hi. ground (arith, bytes a)) hd in
    let (m2, copied, token, out2) =
      token_loop-before fuel m1 dest src d 0 dest src s (omega arith) (omega arith) hs1
        (omega arith) (omega arith)
        (ground (arith, bytes (dest + length t), clean (dest + length t))) in
    let hs2 : CString m2 src s =
      CString-frame m1 m2 src s (λ a lo hi. out2 a (omega (arith, short))) hs1 in
    let (m3, moved, left, out3) =
      strshl-drop fuel m2 src (0 + length t + 1) s hs2 (omega arith) (omega arith) in
    let last : load8 m3 (delim + 1) ≡ 0 =
      out3 (delim + 1) (omega arith) ∙ out2 (delim + 1) (omega (arith, short)) ∙ hd1.2 in
    let token3 : CString m3 dest t =
      CString-frame m2 m3 dest t (λ a lo hi. out3 a (omega (arith, short))) token in
    let run : delim_loop fuel m1 dest src delim ≡ some m3 =
      delim_loop_once fuel m1 m2 dest src delim d (0 + length t) m3 hd1.0 hd1.1 copied moved last
        (omega arith) in
    let full : (load8 m src == 0) ≡ false =
      ne→== (load8 m src) 0
        (λ e. CString-full m src 0 s hs some_text (byte_at m (src + 0) src (omega arith) ∙ e)) in
    let same : length t + 1 ≡ 0 + length t + 1 = omega arith in
    (
      m3,
      rw (full, cleared, run, returned m3 dest t token3) refl,
      token3,
      rw same left,
      λ a not_dest not_src.
          out3 a not_src ∙ out2 a (omega (arith, short)) ∙ ground (arith, bytes a),
      λ a from below. out3 a (omega arith) ∙ out2 a (inr from) ∙ ground (arith, bytes a, clean a),
    )
