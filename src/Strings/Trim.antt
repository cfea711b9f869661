-- ===== src/Strings/Trim.antt =====
-- `ltrim`, `rtrim` and `trim` of standard/strings.h.
use owmice.Base.{
  ℕ, zero, suc, ◌+◌, ◌-◌, ◌<◌, ◌≤◌, ◌≡◌, refl, ap, ◌∙◌, arith, true, false, some, List, [], ◌∷◌,
  length, drop, length-drop, get_or,
}
use owmice.Memory.{Memory, load8, store8, load8-store8}
use owmice.Memory.Block.{CString, SameOutside, CString-drop, byte_at}
use owmice.Strings.{isspace, ltrim, rtrim_loop, rtrim, trim}
use owmice.Strings.Length.{strlen-length}

abbrev pub take : ℕ → List ℕ → List ℕ
take zero s = []
take (suc n) [] = []
take (suc n) (c ∷ s) = c ∷ take n s

-- The bytes of a string by their index.
load8-CString :
    (m : Memory) (p k : ℕ) (s : List ℕ)
    → CString m p s
    → k < length s
    → load8 m (p + k) ≡ get_or s k 0
load8-CString m p k [] h low = absurd (omega arith)
load8-CString m p zero (c ∷ s) h low = byte_at m (p + 0) p (omega arith) ∙ h.0
load8-CString m p (suc k) (c ∷ s) h low =
    byte_at m (p + suc k) (p + 1 + k) (omega arith) ∙ load8-CString m (p + 1) k s h.2 (omega arith)

-- A string that a 0 cuts off.
CString-take :
    (m m' : Memory) (p q n : ℕ) (s : List ℕ)
    → CString m p s
    → n ≤ length s
    → q ≡ p + n
    → load8 m' q ≡ 0
    → ((a : ℕ) → p ≤ a → a < q → load8 m' a ≡ load8 m a)
    → CString m' p (take n s)
CString-take m m' p q zero s h low e end same = byte_at m' p q (omega arith) ∙ end
CString-take m m' p q (suc n) [] h low e end same = absurd (omega arith)
CString-take m m' p q (suc n) (c ∷ s) h low e end same = (
  same p (omega arith) (omega arith) ∙ h.0,
  h.1,
  CString-take m m' (p + 1) q n s h.2 (omega arith) (omega arith) end
      (λ a from below. same a (omega arith) below),
)

-- `ltrim` goes over the spaces.
ltrim_skip :
    (fuel : ℕ) (m : Memory) (p i : ℕ)
    → ((k : ℕ) → k < i → isspace (load8 m (p + k)) ≡ true)
    → isspace (load8 m (p + i)) ≡ false
    → i < fuel
    → ltrim fuel m p ≡ some (p + i)
unfolding ltrim
ltrim_skip zero m p i spaces stop enough = absurd (omega arith)
ltrim_skip (suc fuel) m p zero spaces stop enough =
    let here : p ≡ p + 0 = omega arith in
    rw (ap (λ (a : ℕ). isspace (load8 m a)) here ∙ stop) (ap some here)
ltrim_skip (suc fuel) m p (suc i) spaces stop enough =
    let here : p ≡ p + 0 = omega arith in
    let far : p + 1 + i ≡ p + suc i = omega arith in
    rw (ap (λ (a : ℕ). isspace (load8 m a)) here ∙ spaces 0 (omega arith)) (
      ltrim_skip fuel m (p + 1) i
        (λ k low. ap (λ (a : ℕ). isspace (load8 m a)) (omega arith) ∙ spaces (suc k) (omega arith))
        (ap (λ (a : ℕ). isspace (load8 m a)) far ∙ stop) (omega arith)
      ∙ ap some far)

-- `rtrim` goes back over the `n` spaces behind `q`.
rtrim_loop_skip :
    (fuel : ℕ) (m : Memory) (q n back : ℕ)
    → back ≡ q + 1 + n
    → ((k : ℕ) → k < n → isspace (load8 m (q + 1 + k)) ≡ true)
    → isspace (load8 m q) ≡ false
    → n < fuel
    → rtrim_loop fuel m back ≡ some q
unfolding rtrim_loop
rtrim_loop_skip zero m q n back e spaces stop enough = absurd (omega arith)
rtrim_loop_skip (suc fuel) m q zero back e spaces stop enough =
    let here : back - 1 ≡ q = omega arith in rw (here, stop) refl
rtrim_loop_skip (suc fuel) m q (suc n) back e spaces stop enough =
    let here : back - 1 ≡ q + 1 + n = omega arith in
    rw (here, spaces n (omega arith))
      (rtrim_loop_skip fuel m q n (q + 1 + n) refl (λ k low. spaces k (omega arith)) stop
        (omega arith))

-- For a string of `i` spaces, a text of `len` bytes that neither starts nor ends with a space, and `n`
-- spaces, `trim` always returns: the pointer to the text, with a 0 behind it, which is the only byte
-- that is written.
pub trim-take :
    (fuel : ℕ) (m : Memory) (p i len n : ℕ) (s : List ℕ)
    → CString m p s
    → length s ≡ i + len + n
    → 0 < len
    → ((k : ℕ) → k < i → isspace (get_or s k 0) ≡ true)
    → isspace (get_or s i 0) ≡ false
    → isspace (get_or s (i + len - 1) 0) ≡ false
    → ((k : ℕ) → k < n → isspace (get_or s (i + len + k) 0) ≡ true)
    → length s < fuel
    → (m' : Memory) × (trim fuel m p ≡ some (m', p + i))
      × CString m' (p + i) (take len (drop i s))
      × SameOutside (p + i + len) (p + i + len + 1) m m'
unfolding trim rtrim
trim-take fuel m p i len n s h total some_text lead first last trail enough =
    let byte = λ (k : ℕ). load8-CString m p k s h in
    let space_at = λ (a : ℕ). isspace (load8 m a) in
    let short = length-drop i s in
    let rest : CString m (p + i) (drop i s) = CString-drop m p i s h (omega arith) in
    let left : ltrim fuel m p ≡ some (p + i) =
      ltrim_skip fuel m p i (λ k low. ap isspace (byte k (omega arith)) ∙ lead k low)
        (ap isspace (byte i (omega arith)) ∙ first) (omega arith) in
    let size = strlen-length fuel m (p + i) (drop i s) rest (omega (arith, short)) in
    let q = p + (i + len - 1) in
    let back : rtrim_loop fuel m (p + i + length (drop i s)) ≡ some q =
      rtrim_loop_skip fuel m q n (p + i + length (drop i s)) (omega (arith, short))
        (λ k low.
          ap space_at (omega arith) ∙ ap isspace (byte (i + len + k) (omega arith)) ∙ trail k low)
        (ap isspace (byte (i + len - 1) (omega arith)) ∙ last) (omega arith) in
    let stored = load8-store8 m (q + 1) 0 in
    (
      store8 m (q + 1) 0,
      rw (left, size, back) refl,
      CString-take m (store8 m (q + 1) 0) (p + i) (q + 1) len (drop i s) rest (omega (arith, short))
          (omega arith) (ground (arith, stored (q + 1))) (λ a from below. ground (arith, stored a)),
      λ a away. ground (arith, stored a),
    )
