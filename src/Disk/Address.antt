-- ===== src/Disk/Address.antt =====
-- The sector that a read asks the drive for.
use native.Mathlib.Nat.{one-le-pow}
use owmice.Base.{
  ℕ, ◌+◌, ◌*◌, ◌/◌, ◌%◌, ◌^◌, ◌<◌, ◌≡◌, refl, ap, ◌∙◌, arith, bit_and, false, some, List, [], ◌∷◌,
  Bool-cases, inl, inr, ltb, ◌==◌, if◌then◌else◌, ◌⊎◌,
}
use owmice.Bits.{bit_and_low, bit_and_shift, bit_or_add}
use owmice.Interrupts.{PortWrite}
use owmice.Disk.Words.{IsSector, read_words-IsSector}
use owmice.Disk.{new_ata, select_drive, send_sector, is_busy, wait_ready, read_words, ata_read28}

-- What a port holds after some writes, if it held `old`.
abbrev pub latest : ℕ → List PortWrite → ℕ → ℕ
latest port [] old = old
latest port (w ∷ ws) old = latest port ws (if w.port == port then w.value else old)

-- The registers of the drive at `base` after the writes of a command for a sector, whatever they
-- held before.
pub record Addressed (master base sector command : ℕ) (ws : List PortWrite) : Type 0 where
  pub low : (old : ℕ) → latest (base + 3) ws old ≡ sector % 2 ^ 8
  pub mid : (old : ℕ) → latest (base + 4) ws old ≡ sector / 2 ^ 8 % 2 ^ 8
  pub high : (old : ℕ) → latest (base + 5) ws old ≡ sector / 2 ^ 16 % 2 ^ 8
  pub device :
      (old : ℕ) → latest (base + 6) ws old ≡ (if master == 0 then 0xF0 else 0xE0) + sector / 2 ^ 24
  pub count : (old : ℕ) → latest (base + 2) ws old ≡ 1
  pub asked : (old : ℕ) → latest (base + 7) ws old ≡ command

-- A byte of a word.
byte_of : (k m a : ℕ) → bit_and a (m * 2 ^ k) / 2 ^ k ≡ bit_and (a / 2 ^ k) m
byte_of k m a =
    let pos = one-le-pow k 2 in
    let whole : a ≡ a / 2 ^ k * 2 ^ k + a % 2 ^ k = grind arith in
    let below : a % 2 ^ k < 2 ^ k = grind arith in
    let shift = bit_and_shift k (a / 2 ^ k) (a % 2 ^ k) m below in
    let back : bit_and (a / 2 ^ k) m * 2 ^ k / 2 ^ k ≡ bit_and (a / 2 ^ k) m = grind arith in
    ap (λ (t : ℕ). bit_and t (m * 2 ^ k) / 2 ^ k) whole ∙ ap (λ (t : ℕ). t / 2 ^ k) shift ∙ back

select_value :
    (master base sector : ℕ)
    → base + 0x206 < 2 ^ 16
    → master < 2 ^ 8
    → sector < 2 ^ 28
    → (select_drive (new_ata master base) sector).value
      ≡ (if master == 0 then 0xF0 else 0xE0) + sector / 2 ^ 24
unfolding select_drive new_ata
select_value master base sector port small below =
    let top : bit_and sector 0x0F000000 / 2 ^ 24 ≡ sector / 2 ^ 24 =
      omega (arith, byte_of 24 15 sector, bit_and_low 4 (sector / 2 ^ 24)) in
    let exact : master % 2 ^ 8 ≡ master = omega arith in
    rw (top, exact)
      (elim (Bool-cases (master == 0)) [
        | inl second ↦ rw second (omega (arith, bit_or_add 4 0xF (sector / 2 ^ 24)))
        | inr first ↦ rw first (omega (arith, bit_or_add 4 0xE (sector / 2 ^ 24)))
      ])

abbrev at_port : ℕ → ℕ → PortWrite
at_port port value = record { port = port; value = value }

-- Seven writes to seven ports.
abbrev seven : ℕ → ℕ → ℕ → ℕ → ℕ → ℕ → ℕ → ℕ → List PortWrite
seven base v6 v1 v2 v3 v4 v5 v7 =
    at_port (base + 6) v6
    ∷ at_port (base + 1) v1
    ∷ at_port (base + 2) v2
    ∷ at_port (base + 3) v3
    ∷ at_port (base + 4) v4
    ∷ at_port (base + 5) v5
    ∷ at_port (base + 7) v7
    ∷ []

latest-seven :
    (base v6 v1 v2 v3 v4 v5 v7 old : ℕ)
    → (latest (base + 3) (seven base v6 v1 v2 v3 v4 v5 v7) old ≡ v3)
      × (latest (base + 4) (seven base v6 v1 v2 v3 v4 v5 v7) old ≡ v4)
      × (latest (base + 5) (seven base v6 v1 v2 v3 v4 v5 v7) old ≡ v5)
      × (latest (base + 6) (seven base v6 v1 v2 v3 v4 v5 v7) old ≡ v6)
      × (latest (base + 2) (seven base v6 v1 v2 v3 v4 v5 v7) old ≡ v2)
      × (latest (base + 7) (seven base v6 v1 v2 v3 v4 v5 v7) old ≡ v7)
latest-seven base v6 v1 v2 v3 v4 v5 v7 old = ground arith

writes_lem :
    (master base sector command : ℕ)
    → base + 0x206 < 2 ^ 16
    → master < 2 ^ 8
    → sector < 2 ^ 28
    → command < 2 ^ 8
    → select_drive (new_ata master base) sector ∷ send_sector (new_ata master base) sector command
      ≡ seven base
          ((if master == 0 then 0xF0 else 0xE0) + sector / 2 ^ 24)
          0
          1
          (sector % 2 ^ 8)
          (sector / 2 ^ 8 % 2 ^ 8)
          (sector / 2 ^ 16 % 2 ^ 8)
          command
unfolding send_sector select_drive new_ata
writes_lem master base sector command port small below byte =
    let p1 : (base + 0x1) % 2 ^ 16 ≡ base + 1 = omega arith in
    let p2 : (base + 0x2) % 2 ^ 16 ≡ base + 2 = omega arith in
    let p3 : (base + 0x3) % 2 ^ 16 ≡ base + 3 = omega arith in
    let p4 : (base + 0x4) % 2 ^ 16 ≡ base + 4 = omega arith in
    let p5 : (base + 0x5) % 2 ^ 16 ≡ base + 5 = omega arith in
    let p6 : (base + 0x6) % 2 ^ 16 ≡ base + 6 = omega arith in
    let p7 : (base + 0x7) % 2 ^ 16 ≡ base + 7 = omega arith in
    let low : bit_and sector 0xFF % 2 ^ 8 ≡ sector % 2 ^ 8 = omega (arith, bit_and_low 8 sector) in
    let mid : bit_and sector 0xFF00 / 2 ^ 8 % 2 ^ 8 ≡ sector / 2 ^ 8 % 2 ^ 8 =
      omega (arith, byte_of 8 255 sector, bit_and_low 8 (sector / 2 ^ 8)) in
    let high : bit_and sector 0xFF0000 / 2 ^ 16 % 2 ^ 8 ≡ sector / 2 ^ 16 % 2 ^ 8 =
      omega (arith, byte_of 16 255 sector, bit_and_low 8 (sector / 2 ^ 16)) in
    let device = select_value master base sector port small below in
    let asked : command % 2 ^ 8 ≡ command = omega arith in
    rw (p1, p2, p3, p4, p5, p6, p7, low, mid, high, asked)
      (ap
        (λ (v : ℕ).
          seven base v 0 1 (sector % 2 ^ 8) (sector / 2 ^ 8 % 2 ^ 8) (sector / 2 ^ 16 % 2 ^ 8)
            command)
        device)

addressed :
    (master base sector command : ℕ) (ws : List PortWrite)
    → ws
      ≡ seven base
          ((if master == 0 then 0xF0 else 0xE0) + sector / 2 ^ 24)
          0
          1
          (sector % 2 ^ 8)
          (sector / 2 ^ 8 % 2 ^ 8)
          (sector / 2 ^ 16 % 2 ^ 8)
          command
    → Addressed master base sector command ws
addressed master base sector command ws e =
    let held =
      latest-seven base ((if master == 0 then 0xF0 else 0xE0) + sector / 2 ^ 24) 0 1
        (sector % 2 ^ 8) (sector / 2 ^ 8 % 2 ^ 8) (sector / 2 ^ 16 % 2 ^ 8) command in
    rw e (record {
      low = λ old. (held old).0;
      mid = λ old. (held old).1;
      high = λ old. (held old).2;
      device = λ old. (held old).3;
      count = λ old. (held old).4;
      asked = λ old. (held old).5;
    })

-- Some of the values shows the drive ready, or an error.
abbrev pub Answers : List ℕ → Type 0
Answers [] = ⊥
Answers (v ∷ vs) = (is_busy v ≡ false) ⊎ Answers vs

wait_ready_lem :
    (v : ℕ) (vs : List ℕ) → Answers (v ∷ vs) → (r : ℕ × List ℕ) × (wait_ready v vs ≡ some r)
unfolding wait_ready
wait_ready_lem v [] (inl ready) = ((v, []), rw ready refl)
wait_ready_lem v [] (inr never) = absurd never
wait_ready_lem v (w ∷ vs) (inl ready) = ((v, w ∷ vs), rw ready refl)
wait_ready_lem v (w ∷ vs) (inr later) = elim (Bool-cases (is_busy v)) [
  | inl busy ↦ let (r, e) = wait_ready_lem w vs later in (r, rw busy e)
  | inr ready ↦ ((v, w ∷ vs), rw ready refl)
]

-- For a sector below 2^28 and a drive whose status after the selection is not 0xFF and which then
-- shows itself ready or in error, `ATA_read28` returns 512 bytes, the low and then the high byte of
-- each of the 256 words read, and what it wrote before addresses that sector of the drive chosen, one
-- sector, with the command to read.
pub ata_read28-Addressed :
    (master base sector a b c d e : ℕ) (vs : List ℕ) (words : ℕ → ℕ)
    → base + 0x206 < 2 ^ 16
    → master < 2 ^ 8
    → sector < 2 ^ 28
    → (e == 0xFF) ≡ false
    → Answers vs
    → (bytes : List ℕ) × (ws : List PortWrite) × (ata_read28
          (new_ata master base)
          sector
          (a ∷ b ∷ c ∷ d ∷ e ∷ vs)
          words
        ≡ some (some bytes, ws))
      × IsSector words 256 0 bytes
      × Addressed master base sector 0x20 ws
unfolding ata_read28
ata_read28-Addressed master base sector a b c d e [] words port small below there answers =
    absurd answers
ata_read28-Addressed master base sector a b c d e (v ∷ vs) words port small below there answers =
    let iface = new_ata master base in
    let ws = select_drive iface sector ∷ send_sector iface sector 0x20 in
    let inside : ltb 0x0FFFFFFF sector ≡ false = ground arith in
    let (r, ready) = wait_ready_lem v vs answers in
    (
      read_words 256 0 words,
      ws,
      rw (inside, there, ready) refl,
      read_words-IsSector words 256 0,
      addressed master base sector 0x20 ws
          (writes_lem master base sector 0x20 port small below (omega arith)),
    )
