-- ===== src/Disk.antt =====
-- The disk of io/ATA.h. What the status port gives is a list, one value for each read of it, and
-- what the data port gives is a function of the number of the read; what is written to the ports is
-- a list of events. A run is `none` while it still waits at the end of the list. `malloc` finds room.
pub mod Words
pub mod Address
mod Tests
use owmice.Base.{
  ℕ, zero, suc, ◌+◌, ◌*◌, ◌/◌, ◌%◌, ◌^◌, bit_and, bit_or, Bool, true, false, not, ◌&&◌, ◌||◌,
  Option, none, some, ◌>>=◌, List, [], ◌∷◌, ◌++◌, ltb, ◌==◌, if◌then◌else◌,
}
use owmice.Interrupts.{PortWrite, write_port}

-- `struct ATA_INTERFACE`.
pub record AtaInterface : Type 0 where
  pub master : ℕ
  pub data_port : ℕ
  pub error_port : ℕ
  pub sector_count_port : ℕ
  pub lba_low_port : ℕ
  pub lba_mid_port : ℕ
  pub lba_hi_port : ℕ
  pub device_port : ℕ
  pub command_port : ℕ
  pub control_port : ℕ

abbrev u16 : ℕ → ℕ
u16 n = n % 2 ^ 16

-- `newATA`.
unfoldable pub new_ata : ℕ → ℕ → AtaInterface
new_ata master port_base = record {
  master = master % 2 ^ 8;
  data_port = u16 port_base;
  error_port = u16 (port_base + 0x1);
  sector_count_port = u16 (port_base + 0x2);
  lba_low_port = u16 (port_base + 0x3);
  lba_mid_port = u16 (port_base + 0x4);
  lba_hi_port = u16 (port_base + 0x5);
  device_port = u16 (port_base + 0x6);
  command_port = u16 (port_base + 0x7);
  control_port = u16 (port_base + 0x206);
}

-- `n + 1` reads of the status port, of which the last counts.
abbrev pub status_after : ℕ → List ℕ → Option (ℕ × List ℕ)
status_after n [] = none
status_after zero (v ∷ vs) = some (v, vs)
status_after (suc n) (v ∷ vs) = status_after n vs

-- `(status & 0x80) && !(status & 0x01)`.
abbrev pub is_busy : ℕ → Bool
is_busy status = not (bit_and status 0x80 == 0) && bit_and status 0x01 == 0

-- `while ((status & 0x80) && !(status & 0x01)) status = read_port(...)`.
pub wait_ready : ℕ → List ℕ → Option (ℕ × List ℕ)
wait_ready status [] = if is_busy status then none else some (status, [])
wait_ready status (v ∷ vs) =
    let rest = wait_ready v vs in if is_busy status then rest else some (status, v ∷ vs)

-- `while ((status & 0x80) || !(status & 0x08)) status = read_port(...)`.
pub wait_data : ℕ → List ℕ → Option (ℕ × List ℕ)
wait_data status [] =
    if not (bit_and status 0x80 == 0) || bit_and status 0x08 == 0 then none else some (status, [])
wait_data status (v ∷ vs) =
    let rest = wait_data v vs in
    if not (bit_and status 0x80 == 0) || bit_and status 0x08 == 0
    then rest
    else some (status, v ∷ vs)

abbrev pub drive : AtaInterface → ℕ → ℕ → ℕ
drive iface first second = if iface.master == 0 then second else first

-- The write that selects the drive and the top of the sector.
unfoldable pub select_drive : AtaInterface → ℕ → PortWrite
select_drive iface sector =
    write_port iface.device_port
      (bit_or (drive iface 0xE0 0xF0) (bit_and sector 0x0F000000 / 2 ^ 24))

-- The writes of the sector and of the command.
pub send_sector : AtaInterface → ℕ → ℕ → List PortWrite
send_sector iface sector command =
    write_port iface.error_port 0
    ∷ write_port iface.sector_count_port 1
    ∷ write_port iface.lba_low_port (bit_and sector 0x000000FF)
    ∷ write_port iface.lba_mid_port (bit_and sector 0x0000FF00 / 2 ^ 8)
    ∷ write_port iface.lba_hi_port (bit_and sector 0x00FF0000 / 2 ^ 16)
    ∷ write_port iface.command_port command
    ∷ []

-- 0 for a disk, 1 for none; the words that are read and dropped are left out.
pub ata_identify : AtaInterface → List ℕ → Option (ℕ × List PortWrite)
ata_identify iface vs =
    let selected =
      write_port iface.device_port (drive iface 0xA0 0xB0)
      ∷ write_port iface.control_port 0
      ∷ write_port iface.device_port 0xA0
      ∷ [] in
    let sent =
      selected
      ++ write_port iface.device_port (drive iface 0xA0 0xB0)
        ∷ write_port iface.sector_count_port 0
        ∷ write_port iface.lba_low_port 0
        ∷ write_port iface.lba_mid_port 0
        ∷ write_port iface.lba_hi_port 0
        ∷ write_port iface.command_port 0xEC
        ∷ [] in
    (do
      (status, vs) ← status_after 0 vs
      (if status == 0xFF then some (1, selected) else (do
        (status, vs) ← status_after 0 vs
        (if status == 0 then some (1, sent) else (do
          (status, vs) ← wait_ready status vs
          some (if bit_and status 0x01 == 0 then 0 else 1, sent))))))

-- The bytes of `n` words from the read `i` of the data port on.
pub read_words : ℕ → ℕ → (ℕ → ℕ) → List ℕ
read_words zero i words = []
read_words (suc n) i words =
    bit_and (words i) 0xFF ∷ bit_and (words i / 2 ^ 8) 0xFF ∷ read_words n (i + 1) words

-- The bytes of the sector, or NULL.
pub ata_read28 : AtaInterface → ℕ → List ℕ → (ℕ → ℕ) → Option (Option (List ℕ) × List PortWrite)
ata_read28 iface sector vs words = if ltb 0x0FFFFFFF sector then some (none, []) else (do
  (status, vs) ← status_after 4 vs
  (if status == 0xFF then some (none, select_drive iface sector ∷ []) else (do
    (status, vs) ← status_after 0 vs
    (status, vs) ← wait_ready status vs
    some (
      some (read_words 256 0 words),
      select_drive iface sector ∷ send_sector iface sector 0x20,
    ))))

-- The writes to the data port of the words that `bytes` make; `port_write16` writes 16 bits.
abbrev port_write16 : ℕ → ℕ → PortWrite
port_write16 port value = record { port = port; value = value % 2 ^ 16 }

pub write_words : ℕ → ℕ → List ℕ → List PortWrite
write_words port n [] = []
write_words port n (x ∷ []) = []
write_words port zero (x ∷ y ∷ bytes) = []
write_words port (suc n) (x ∷ y ∷ bytes) =
    port_write16 port (bit_or x (y * 2 ^ 8)) ∷ write_words port n bytes

-- The code that is returned, and whether interrupts are on again. Of the status, the test
-- `status & (0x01 || 0x20)` reads the lowest bit.
pub record WriteResult : Type 0 where
  pub code : ℕ
  pub interrupts_on : Bool
  pub writes : List PortWrite

-- For 512 bytes in `contents`, with interrupts on at first.
unfoldable pub ata_write28 : AtaInterface → ℕ → List ℕ → List ℕ → Option WriteResult
ata_write28 iface sector contents vs =
    let sent = select_drive iface sector ∷ send_sector iface sector 0x30 in
    let flushed =
      sent ++ write_words iface.data_port 256 contents ++ write_port iface.command_port 0xE7 ∷ [] in
    if ltb 0x0FFFFFFF sector
    then some (record { code = 1; interrupts_on = true; writes = [] })
    else (do
      (status, vs) ← status_after 4 vs
      (if status == 0xFF
          then some
              (record { code = 1; interrupts_on = false; writes = select_drive iface sector ∷ [] })
          else (do
            (status, vs) ← wait_data status vs
            (if not (bit_and status 0x01 == 0)
                then some (record { code = 2; interrupts_on = false; writes = sent })
                else (do
                  (status, vs) ← status_after 4 vs
                  (if status == 0
                      then some (record { code = 3; interrupts_on = false; writes = flushed })
                      else (do
                        (status, vs) ← wait_ready status vs
                        some (record { code = 0; interrupts_on = true; writes = flushed }))))))))
