-- ===== src/Memory/Block.antt =====
-- What a range of memory holds, as a list of bytes.
use owmice.Base.{
  ℕ, zero, suc, sym, ap, ◌∙◌, drop, ◌+◌, ◌≡◌, ◌≢◌, ◌<◌, ◌≤◌, ◌⊎◌, List, [], ◌∷◌, arith, length,
}
use owmice.Memory.{Memory, load8}

-- From `p` on the memory holds the bytes `s`.
abbrev pub Holds : Memory → ℕ → List ℕ → Type 0
Holds m p [] = Unit
Holds m p (c ∷ s) = (load8 m p ≡ c) × Holds m (p + 1) s

-- From `p` on the memory holds the C string `s`: no byte of it is 0, and a 0 follows.
abbrev pub CString : Memory → ℕ → List ℕ → Type 0
CString m p [] = load8 m p ≡ 0
CString m p (c ∷ s) = (load8 m p ≡ c) × (c ≢ 0) × CString m (p + 1) s

-- The two memories agree on `[lo, hi)`.
abbrev pub SameOn : ℕ → ℕ → Memory → Memory → Type 0
SameOn lo hi m m' = (a : ℕ) → lo ≤ a → a < hi → load8 m' a ≡ load8 m a

-- The two memories agree outside `[lo, hi)`.
abbrev pub SameOutside : ℕ → ℕ → Memory → Memory → Type 0
SameOutside lo hi m m' = (a : ℕ) → (a < lo) ⊎ (hi ≤ a) → load8 m' a ≡ load8 m a

pub Holds-frame :
    (m m' : Memory) (p : ℕ) (s : List ℕ) → SameOn p (p + length s) m m' → Holds m p s → Holds m' p s
Holds-frame m m' p [] same h = tt
Holds-frame m m' p (c ∷ s) same h = (
  ground (arith, same p (omega arith) (omega arith)),
  Holds-frame m m' (p + 1) s (λ a q r. same a (omega arith) (omega arith)) h.1,
)

pub CString-frame :
    (m m' : Memory) (p : ℕ) (s : List ℕ)
    → SameOn p (p + length s + 1) m m'
    → CString m p s
    → CString m' p s
CString-frame m m' p [] same h = ground (arith, same p (omega arith) (omega arith))
CString-frame m m' p (c ∷ s) same h = (
  ground (arith, same p (omega arith) (omega arith)),
  h.1,
  CString-frame m m' (p + 1) s (λ a q r. same a (omega arith) (omega arith)) h.2,
)

pub CString-Holds : (m : Memory) (p : ℕ) (s : List ℕ) → CString m p s → Holds m p s
CString-Holds m p [] h = tt
CString-Holds m p (c ∷ s) h = (h.0, CString-Holds m (p + 1) s h.2)

-- The 0 behind a string.
pub CString-end :
    (m : Memory) (p q : ℕ) (s : List ℕ) → CString m p s → q ≡ p + length s → load8 m q ≡ 0
CString-end m p q [] h e = let e' : q ≡ p = omega arith in rw e' h
CString-end m p q (c ∷ s) h e = CString-end m (p + 1) q s h.2 (omega arith)

-- No byte of a string is 0.
pub CString-full :
    (m : Memory) (p k : ℕ) (s : List ℕ) → CString m p s → k < length s → load8 m (p + k) ≢ 0
CString-full m p k [] h low = absurd (omega arith)
CString-full m p zero (c ∷ s) h low =
    let e : p + 0 ≡ p = omega arith in rw e (λ z. h.1 (sym h.0 ∙ z))
CString-full m p (suc k) (c ∷ s) h low =
    let e : p + suc k ≡ p + 1 + k = omega arith in
    rw e (CString-full m (p + 1) k s h.2 (omega arith))

-- What is left of a string behind its first bytes.
pub CString-drop :
    (m : Memory) (p k : ℕ) (s : List ℕ)
    → CString m p s
    → k ≤ length s
    → CString m (p + k) (drop k s)
CString-drop m p zero s h low = let e : p + 0 ≡ p = omega arith in rw e h
CString-drop m p (suc k) [] h low = absurd (omega arith)
CString-drop m p (suc k) (c ∷ s) h low =
    let e : p + suc k ≡ p + 1 + k = omega arith in
    rw e (CString-drop m (p + 1) k s h.2 (omega arith))

pub byte_at : (m : Memory) (a b : ℕ) → a ≡ b → load8 m a ≡ load8 m b
byte_at m a b e = ap (λ (q : ℕ). load8 m q) e

-- The bytes of a string in another place, with a 0 behind them.
pub CString-copied :
    (m m' : Memory) (p q : ℕ) (s : List ℕ)
    → CString m p s
    → ((k : ℕ) → k < length s → load8 m' (q + k) ≡ load8 m (p + k))
    → load8 m' (q + length s) ≡ 0
    → CString m' q s
CString-copied m m' p q [] h same end = let e : q ≡ q + 0 = omega arith in rw e end
CString-copied m m' p q (c ∷ s) h same end = (
  byte_at m' q (q + 0) (omega arith)
      ∙ same 0 (omega arith)
      ∙ byte_at m (p + 0) p (omega arith)
      ∙ h.0,
  h.1,
  CString-copied m m' (p + 1) (q + 1) s h.2
      (λ k low.
        byte_at m' (q + 1 + k) (q + (k + 1)) (omega arith)
        ∙ same (k + 1) (omega arith)
        ∙ byte_at m (p + (k + 1)) (p + 1 + k) (omega arith))
      (byte_at m' (q + 1 + length s) (q + length (c ∷ s)) (omega arith) ∙ end),
)
