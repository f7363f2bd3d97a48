-- ===== src/Demod/Eeprom.antt =====
-- src/librtlsdr.c: `rtlsdr_write_eeprom` and `rtlsdr_read_eeprom`.
pub mod Laws
pub mod Stores
use rtl_sdr_blog.Common.{List, [], if◌then◌else◌, length, ltb, not, ℕ, ◌+◌, ◌==◌, ◌∷◌}
use rtl_sdr_blog.Common.Word.{u8}
use rtl_sdr_blog.State.{
  Host, M, Res, done, failed, err, fail, failed, fault, ignore, ok, pure, when, ◌>>=◌, ◌>>◌,
}
use rtl_sdr_blog.Usb.{byte_or, junk, read_array, status, write_array}
use rtl_sdr_blog.Usb.Block.{iicb}

abbrev pub eeprom_addr : ℕ
eeprom_addr = 0xa0

-- `if (r != sizeof(cmd)) return -3;`
abbrev pub wrote_two : Res ℕ → Res (Unit {0})
wrote_two (ok n e) = if n == 2 then ok tt e else err 2 e
wrote_two (err n e) = err 2 e
wrote_two fault = fault

-- `if (r < 0) return -3;`
abbrev pub or_minus3 : Res ℕ → Res ℕ
or_minus3 (ok n e) = ok n e
or_minus3 (err n e) = err 2 e
or_minus3 fault = fault

module _ (host : Host) where
  unfoldable pub write_two : ℕ → ℕ → M (Unit {0})
  write_two address byte d = wrote_two (write_array host iicb eeprom_addr (address ∷ byte ∷ []) d)

  -- One round of the loop that writes; `old` stands in `cmd[1]` before the read.
  unfoldable pub write_byte : ℕ → ℕ → ℕ → M (Unit {0})
  write_byte address byte old = do
    ignore (write_array host iicb eeprom_addr (address ∷ []))
    r ← read_array host iicb eeprom_addr 1
    when (not (byte_or r 0 old == byte)) (write_two address byte)

  -- After a round, `cmd[1]` is the byte of that round.
  unfoldable pub write_bytes_from : ℕ → ℕ → List ℕ → M (Unit {0})
  write_bytes_from address old [] = pure tt
  write_bytes_from address old (byte ∷ data_left) = do
    write_byte (u8 address) byte old
    write_bytes_from (address + 1) byte data_left

  unfoldable pub write_eeprom : List ℕ → ℕ → M (Unit {0})
  write_eeprom data_in offset =
      if ltb 256 (length data_in + offset)
      then fail 1
      else (do old ← junk host 1; write_bytes_from offset old data_in)

  -- The loop that reads over what the buffer held: the last return value, and the bytes.
  unfoldable pub read_bytes : ℕ → List ℕ → M (ℕ × List ℕ)
  read_bytes r [] = pure (r, [])
  read_bytes r (old ∷ data_left) = do
    reply ← read_array host iicb eeprom_addr 1
    n ← (λ d. or_minus3 (status reply d))
    (r', bytes) ← read_bytes n data_left
    pure (r', byte_or reply 0 old ∷ bytes)

  unfoldable pub read_eeprom : List ℕ → ℕ → M (ℕ × List ℕ)
  read_eeprom data_in offset = if ltb 256 (length data_in + offset) then fail 1 else (do
    r ← (λ d. or_minus3 (write_array host iicb eeprom_addr (offset ∷ []) d))
    read_bytes r data_in)

  -- The buffer after the loop that reads, which a failure leaves as far as it was filled.
  unfoldable pub read_bytes_buf : List ℕ → M (List ℕ)
  read_bytes_buf [] = pure []
  read_bytes_buf (old ∷ data_left) = do
    reply ← read_array host iicb eeprom_addr 1
    let rest = read_bytes_buf data_left
    elim reply [
      | failed n ↦ pure (old ∷ data_left)
      | done n f ↦ do bytes ← rest; pure (byte_or (done n f) 0 old ∷ bytes)
    ]

  -- The buffer of 256 bytes after `rtlsdr_read_eeprom` from 0 on, whatever the call returns.
  unfoldable pub read_eeprom_buf : List ℕ → M (List ℕ)
  read_eeprom_buf data_in d = elim (write_array host iicb eeprom_addr (0 ∷ []) d) [
    | ok n e ↦ read_bytes_buf data_in e
    | err n e ↦ ok data_in e
    | fault ↦ fault
  ]
