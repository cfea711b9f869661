-- ===== src/Strings/Shift.antt =====
-- `strshl` of standard/strings.h moves a string to the left in place.
use owmice.Base.{
  leb→lt, leb→le, drop_all, ℕ, zero, suc, ◌+◌, ◌-◌, ◌<◌, ◌≤◌, ◌≡◌, ◌≢◌, ◌⊎◌, refl, sym, ap, ◌∙◌,
  arith, ◌&&◌, some, ◌>>=◌, List, length, Bool-cases, inl, inr, ◌==◌, if◌then◌else◌, ltb, leb,
  ltb→lt, ltb→le, ==→eq, ==→ne,
}
use owmice.Memory.{Memory, load8, store8, load8-store8, load8-lt}
use owmice.Memory.Block.{
  byte_at, CString, SameOutside, CString-end, CString-full, CString-drop, CString-copied,
}
use owmice.Bytes.{memset}
use owmice.Bytes.Copy.{load8-memset}
use owmice.Strings.{strlen_from, strlen, substr, shift_loop, strshl}
use owmice.Strings.Length.{strlen-length}
use owmice.Base.{drop, length-drop}

-- The loop: each byte of the range is the one `amt` places on, and those that are moved away are 0.
load8-shift_loop :
    (left : ℕ) (m : Memory) (str i amt size k : ℕ)
    → 0 < amt
    → i + left + amt ≤ size
    → load8 (shift_loop left m str i amt size) (str + k) ≡ (
        if leb i k && ltb k (i + left)
        then load8 m (str + (k + amt))
        else if leb (i + amt) k && ltb k (i + left + amt)
        then 0
        else load8 m (str + k))
unfolding shift_loop
load8-shift_loop zero m str i amt size k pos room = ground arith
load8-shift_loop (suc left) m str i amt size k pos room =
    let v = load8 m (str + (i + amt)) in
    let moved = store8 m (str + i) v in
    let next = store8 moved (str + (i + amt)) 0 in
    ground (
      arith,
      load8-shift_loop left next str (i + 1) amt size k pos (omega arith),
      load8-store8 moved (str + (i + amt)) 0 (str + k),
      load8-store8 moved (str + (i + amt)) 0 (str + (k + amt)),
      load8-store8 m (str + i) v (str + k),
      load8-store8 m (str + i) v (str + (k + amt)),
      load8-lt m (str + (i + amt)),
    )

-- Outside the string nothing is written.
shift_loop_outside :
    (left : ℕ) (m : Memory) (str i amt size a : ℕ)
    → i + left + amt ≤ size
    → (a < str) ⊎ (str + size ≤ a)
    → load8 (shift_loop left m str i amt size) a ≡ load8 m a
unfolding shift_loop
shift_loop_outside zero m str i amt size a room out = refl
shift_loop_outside (suc left) m str i amt size a room out =
    let v = load8 m (str + (i + amt)) in
    let moved = store8 m (str + i) v in
    let next = store8 moved (str + (i + amt)) 0 in
    ground (
      arith,
      shift_loop_outside left next str (i + 1) amt size a (omega arith) out,
      load8-store8 moved (str + (i + amt)) 0 a,
      load8-store8 m (str + i) v a,
    )

-- A string copied onto itself and cut off.
load8-substr :
    (m : Memory) (p len a : ℕ)
    → load8 (substr m p p 0 len).0 a ≡ (if p + len == a then 0 else load8 m a)
unfolding substr
load8-substr m p zero a = ground (arith, load8-store8 m p 0 a)
load8-substr m p (suc len) a =
    let same = store8 m p (load8 m (p + 0)) in
    ground (
      arith,
      load8-substr same (p + 1) len a,
      load8-store8 m p (load8 m (p + 0)) a,
      load8-lt m a,
      ap (λ (q : ℕ). load8 m q) (zero_on p),
    )
  where
    zero_on : (p : ℕ) → p + 0 ≡ p
    zero_on p = omega arith

-- `strlen` stops at the first 0.
strlen_from_stops :
    (fuel : ℕ) (m : Memory) (p len z : ℕ)
    → len ≤ z
    → z < len + fuel
    → load8 m (p + z) ≡ 0
    → (r : ℕ) × (strlen_from fuel m p len ≡ some r)
      × (load8 m (p + r) ≡ 0)
      × (len ≤ r)
      × ((k : ℕ) → len ≤ k → k < r → load8 m (p + k) ≢ 0)
unfolding strlen_from
strlen_from_stops zero m p len z low high end = absurd (omega arith)
strlen_from_stops (suc fuel) m p len z low high end = elim (Bool-cases (load8 m (p + len) == 0)) [
  | inl stop ↦ (len, rw stop refl, ==→eq _ _ stop, omega arith, λ k a b. absurd (omega arith))
  | inr on ↦
      let differs = ==→ne (load8 m (p + len)) 0 on in
      let ahead : len ≢ z = λ e. differs (ap (λ (q : ℕ). load8 m (p + q)) e ∙ end) in
      let (r, run, zero_at, low', full) =
        strlen_from_stops fuel m p (len + 1) z (omega (arith, ahead)) (omega arith) end in
      (
        r,
        rw on run,
        zero_at,
        omega (arith, low'),
        λ k a b. elim (Bool-cases (len == k)) [
          | inl here ↦ λ e. differs (ap (λ (q : ℕ). load8 m (p + q)) (==→eq len k here) ∙ e)
          | inr past ↦ full k (omega (arith, ==→ne len k past)) b
        ],
      )
]

-- The string behind the loop and the cut.
shifted :
    (fuel : ℕ) (m m1 : Memory) (str amt : ℕ) (s : List ℕ)
    → CString m str s
    → 0 < amt
    → amt < length s
    → length s < fuel
    → m1 ≡ shift_loop (length s - amt) m str 0 amt (length s)
    → (m' : Memory) × ((do
      n ← strlen fuel m1 str
      some (if ltb (length s - amt) n then (substr m1 str str 0 (length s - amt)).0 else m1))
        ≡ some m')
      × ((k : ℕ) → k < length s - amt → load8 m' (str + k) ≡ load8 m (str + amt + k))
      × (load8 m' (str + (length s - amt)) ≡ 0)
      × SameOutside str (str + length s) m m'
unfolding strlen
shifted fuel m m1 str amt s h pos low enough e =
    let size = length s in
    let moved = λ (k : ℕ). load8-shift_loop (size - amt) m str 0 amt size k pos (omega arith) in
    let out = λ (a : ℕ). shift_loop_outside (size - amt) m str 0 amt size a (omega arith) in
    let bytes : (k : ℕ) → k < size - amt → load8 m1 (str + k) ≡ load8 m (str + amt + k) = λ k lt.
      rw e (ground (arith, moved k, byte_at m (str + (k + amt)) (str + amt + k) (omega arith))) in
    let end : load8 m1 (str + size) ≡ 0 =
      rw e (out (str + size) (inr (omega arith)) ∙ CString-end m str (str + size) s h refl) in
    let (r, run, zero_at, from, full) =
      strlen_from_stops fuel m1 str 0 size (omega arith) (omega arith) end in
    let cut = load8-substr m1 str (size - amt) in
    elim (Bool-cases (ltb (size - amt) r)) [
      | inl more ↦ (
        (substr m1 str str 0 (size - amt)).0,
        rw (run, more) refl,
        λ k lt. ground (arith, cut (str + k), bytes k lt),
        ground (arith, cut (str + (size - amt))),
        λ a away. ground (arith, cut a, ap (λ (n : Memory). load8 n a) e, out a away),
      )
      | inr no_more ↦
          let most = ltb→le (size - amt) r no_more in
          let exact : r ≡ size - amt = elim (Bool-cases (ltb r (size - amt))) [
            | inl below ↦
                let lt = ltb→lt r (size - amt) below in
                absurd (
                  CString-full m str (amt + r) s h (omega (arith, lt)) (
                    byte_at m (str + (amt + r)) (str + amt + r) (omega arith)
                    ∙ sym (bytes r lt)
                    ∙ zero_at))
            | inr not_below ↦ omega (arith, most, ltb→le r (size - amt) not_below)
          ] in
          (
            m1,
            rw (run, no_more) refl,
            bytes,
            byte_at m1 (str + (size - amt)) (str + r) (omega (arith, exact)) ∙ zero_at,
            λ a away. rw e (out a away),
          )
    ]

-- `strshl` of a string by at least one place always returns. It leaves the string without its first
-- bytes, the empty one when there are no more of them, and writes only where its bytes were.
pub strshl-drop :
    (fuel : ℕ) (m : Memory) (str amt : ℕ) (s : List ℕ)
    → CString m str s
    → 0 < amt
    → length s < fuel
    → (m' : Memory) × (strshl fuel m str amt ≡ some m')
      × CString m' str (drop amt s)
      × SameOutside str (str + length s) m m'
unfolding strshl
strshl-drop fuel m str amt s h pos enough =
    rw (strlen-length fuel m str s h enough) (elim (Bool-cases (leb (length s) amt)) [
      | inl all ↦ (
        memset m str 0 (length s),
        rw all refl,
        rw (drop_all amt s (leb→le (length s) amt all))
            (ground (arith, load8-memset m str 0 (length s) str, CString-end m str str s h)),
        λ a away. ground (arith, load8-memset m str 0 (length s) a),
      )
      | inr some_left ↦
          let low = leb→lt (length s) amt some_left in
          let m1 = shift_loop (length s - amt) m str 0 amt (length s) in
          let (m', run, bytes, end, out) = shifted fuel m m1 str amt s h pos low enough refl in
          let short = length-drop amt s in
          (
            m',
            rw some_left run,
            CString-copied m m' (str + amt) str (drop amt s)
                (CString-drop m str amt s h (omega arith)) (λ k lt. bytes k (omega (arith, short)))
                (byte_at m' (str + length (drop amt s)) (str + (length s - amt))
                    (omega (arith, short))
                  ∙ end),
            out,
          )
    ])
