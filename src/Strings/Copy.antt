-- ===== src/Strings/Copy.antt =====
-- `strcpy` and `strcat` of standard/strings.h.
use owmice.Base.{
  ℕ, zero, suc, ◌+◌, ◌<◌, ◌≤◌, ◌≡◌, ◌≢◌, ◌⊎◌, inl, refl, Option, some, List, [], ◌∷◌, ◌++◌, length,
  arith,
}
use owmice.Memory.{Memory, load8, store8, load8-store8, load8-lt}
use owmice.Memory.Block.{CString, SameOn, SameOutside, CString-frame}
use owmice.Strings.{copy_string, strcpy, strcat}
use owmice.Strings.Length.{strlen-length}

-- A target with room for the string, that no byte of the source lies in.
abbrev pub Apart : ℕ → ℕ → ℕ → Type 0
Apart dest src n = (dest + n ≤ src) ⊎ (src + n ≤ dest)

abbrev pub Copied : Memory → ℕ → List ℕ → Option Memory → Type 0
Copied m dest s r =
    (m' : Memory) × (r ≡ some m') × CString m' dest s × SameOutside dest (dest + length s + 1) m m'

pub copy_string-Copied :
    (fuel : ℕ) (m : Memory) (dest src : ℕ) (s : List ℕ)
    → CString m src s
    → Apart dest src (length s + 1)
    → length s < fuel
    → Copied m dest s (copy_string fuel m dest src)
unfolding copy_string
copy_string-Copied zero m dest src s h apart f = absurd (omega arith)
copy_string-Copied (suc fuel) m dest src [] h apart f = (
  store8 m dest 0,
  ground arith,
  ground (arith, load8-store8 m dest 0 dest),
  λ a out. ground (arith, load8-store8 m dest 0 a),
)
copy_string-Copied (suc fuel) m dest src (c ∷ s) h apart f =
    let m₁ = store8 m dest (load8 m src) in
    let kept : CString m₁ (src + 1) s =
      CString-frame m m₁ (src + 1) s (λ a p q. ground (arith, load8-store8 m dest (load8 m src) a))
        h.2 in
    let (m', run, copied, same) =
      copy_string-Copied fuel m₁ (dest + 1) (src + 1) s kept (omega arith) (omega arith) in
    (
      m',
      ground arith,
      (
        ground (
          arith,
          same dest (omega arith),
          load8-store8 m dest (load8 m src) dest,
          load8-lt m src,
        ),
        h.1,
        copied,
      ),
      λ a out. ground (arith, same a (omega arith), load8-store8 m dest (load8 m src) a),
    )

-- `strcpy` to a target apart from the source leaves the source's string there, writes nothing else
-- than it and its final 0, and returns the target.
pub strcpy_lem :
    (fuel : ℕ) (m : Memory) (dest src : ℕ) (s : List ℕ)
    → CString m src s
    → Apart dest src (length s + 1)
    → dest ≢ 0
    → length s < fuel
    → (m' : Memory) × (strcpy fuel m dest src ≡ some (m', dest))
      × CString m' dest s
      × SameOutside dest (dest + length s + 1) m m'
unfolding strcpy
strcpy_lem fuel m dest src s h apart ne f =
    let (m', run, copied, same) = copy_string-Copied fuel m dest src s h apart f in
    (m', ground arith, copied, same)

-- A string whose 0 is overwritten by the start of another one.
pub CString-append :
    (m m' : Memory) (p q : ℕ) (s t : List ℕ)
    → CString m p s
    → SameOn p (p + length s) m m'
    → q ≡ p + length s
    → CString m' q t
    → CString m' p (s ++ t)
CString-append m m' p q [] t h same e ht = let e' : p ≡ q = omega arith in rw e' ht
CString-append m m' p q (c ∷ s) t h same e ht = (
  ground (arith, same p (omega arith) (omega arith)),
  h.1,
  CString-append m m' (p + 1) q s t h.2 (λ a lo hi. same a (omega arith) (omega arith))
      (omega arith) ht,
)

-- `strcat` to a target apart from the source leaves the target's string with the source's behind
-- it, and writes only from the target's old 0 to the new one.
pub strcat-append :
    (fuel : ℕ) (m : Memory) (dest src : ℕ) (t s : List ℕ)
    → CString m dest t
    → CString m src s
    → Apart (dest + length t) src (length s + 1)
    → length t < fuel
    → length s < fuel
    → (m' : Memory) × (strcat fuel m dest src ≡ some m')
      × CString m' dest (t ++ s)
      × SameOutside (dest + length t) (dest + length t + length s + 1) m m'
unfolding strcat
strcat-append fuel m dest src t s ht hs apart ft fs =
    let (m', run, copied, same) = copy_string-Copied fuel m (dest + length t) src s hs apart fs in
    (
      m',
      rw (strlen-length fuel m dest t ht ft) run,
      CString-append m m' dest (dest + length t) t s ht (λ a p q. same a (inl q)) refl copied,
      same,
    )
