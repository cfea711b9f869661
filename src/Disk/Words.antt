-- ===== src/Disk/Words.antt =====
-- The bytes that `ATA_read28` makes of the words that it reads.
use owmice.Base.{
  ℕ, zero, suc, length, get_elem?, ◌+◌, ◌*◌, ◌/◌, ◌%◌, ◌^◌, ◌<◌, ◌≡◌, refl, ap, ◌∙◌, arith, some,
  List,
}
use owmice.Bits.{bit_and_low}
use owmice.Disk.{read_words}

-- The bytes of a sector: of each word in its order the low byte and then the high one.
pub record IsSector (words : ℕ → ℕ) (n i : ℕ) (bytes : List ℕ) : Type 0 where
  pub size : length bytes ≡ 2 * n
  pub low : (k : ℕ) → k < n → get_elem? bytes (2 * k) ≡ some (words (i + k) % 2 ^ 8)
  pub high : (k : ℕ) → k < n → get_elem? bytes (2 * k + 1) ≡ some (words (i + k) / 2 ^ 8 % 2 ^ 8)

read_words-cons :
    (words : ℕ → ℕ) (n i k : ℕ)
    → (get_elem? (read_words (suc n) i words) (2 * suc k)
        ≡ get_elem? (read_words n (i + 1) words) (2 * k))
      × (get_elem? (read_words (suc n) i words) (2 * suc k + 1)
          ≡ get_elem? (read_words n (i + 1) words) (2 * k + 1))
unfolding read_words
read_words-cons words n i k =
    let even : 2 * suc k ≡ suc (suc (2 * k)) = omega arith in
    let odd : 2 * suc k + 1 ≡ suc (suc (2 * k + 1)) = omega arith in (rw even refl, rw odd refl)

first_word :
    (words : ℕ → ℕ) (n i : ℕ)
    → (get_elem? (read_words (suc n) i words) (2 * 0) ≡ some (words (i + 0) % 2 ^ 8))
      × (get_elem? (read_words (suc n) i words) (2 * 0 + 1) ≡ some (words (i + 0) / 2 ^ 8 % 2 ^ 8))
unfolding read_words
first_word words n i =
    let here : i + 0 ≡ i = omega arith in
    rw here (ap some (bit_and_low 8 (words i)), ap some (bit_and_low 8 (words i / 2 ^ 8)))

bytes-read_words :
    (words : ℕ → ℕ) (n i k : ℕ)
    → k < n
    → (get_elem? (read_words n i words) (2 * k) ≡ some (words (i + k) % 2 ^ 8))
      × (get_elem? (read_words n i words) (2 * k + 1) ≡ some (words (i + k) / 2 ^ 8 % 2 ^ 8))
bytes-read_words words zero i k h = absurd (omega arith)
bytes-read_words words (suc n) i zero h = first_word words n i
bytes-read_words words (suc n) i (suc k) h =
    let there : i + suc k ≡ i + 1 + k = omega arith in
    let (even, odd) = read_words-cons words n i k in
    let (low, high) = bytes-read_words words n (i + 1) k (omega arith) in
    (even ∙ rw there low, odd ∙ rw there high)

length-read_words : (words : ℕ → ℕ) (n i : ℕ) → length (read_words n i words) ≡ 2 * n
unfolding read_words
length-read_words words zero i = refl
length-read_words words (suc n) i = omega (arith, length-read_words words n (i + 1))

pub read_words-IsSector : (words : ℕ → ℕ) (n i : ℕ) → IsSector words n i (read_words n i words)
read_words-IsSector words n i = record {
  size = length-read_words words n i;
  low = λ k h. (bytes-read_words words n i k h).0;
  high = λ k h. (bytes-read_words words n i k h).1;
}
