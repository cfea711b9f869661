-- ===== src/Disk/Tests.antt =====
-- The first disk of a PC.
use owmice.Base.{ℕ, ◌≡◌, arith, refl, false, some, List, [], ◌∷◌, inl, inr}
use owmice.Interrupts.{PortWrite}
use owmice.Disk.{new_ata, ata_read28, ata_write28, select_drive}
use owmice.Disk.Words.{IsSector}
use owmice.Disk.Address.{Addressed, ata_read28-Addressed}

-- A drive that does not answer leaves the interrupts off.
no_drive :
    ata_write28 (new_ata 1 0x1F0) 5 [] (0xFF ∷ 0xFF ∷ 0xFF ∷ 0xFF ∷ 0xFF ∷ [])
    ≡ some (record {
      code = 1;
      interrupts_on = false;
      writes = record { port = 0x1F6; value = 0xE0 } ∷ [];
    })
unfolding ata_write28 new_ata select_drive
no_drive = refl

-- Busy once, then ready.
ata_read28-Addressed_example :
    (bytes : List ℕ) × (ws : List PortWrite) × (ata_read28
        (new_ata 1 0x1F0)
        0x1234567
        (0xD0 ∷ 0xD0 ∷ 0xD0 ∷ 0x50 ∷ 0x50 ∷ 0xD0 ∷ 0x58 ∷ [])
        (λ i. 0x4142)
      ≡ some (some bytes, ws))
    × IsSector (λ i. 0x4142) 256 0 bytes
    × Addressed 1 0x1F0 0x1234567 0x20 ws
ata_read28-Addressed_example =
    ata_read28-Addressed 1 0x1F0 0x1234567 0xD0 0xD0 0xD0 0x50 0x50 (0xD0 ∷ 0x58 ∷ []) (λ i. 0x4142)
      (omega arith) (omega arith) (omega arith) refl (inr (inl refl))
