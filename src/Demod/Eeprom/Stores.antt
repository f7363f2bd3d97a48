-- ===== src/Demod/Eeprom/Stores.antt =====
-- `rtlsdr_write_eeprom` stores the bytes that it is given, and no others.
use rtl_sdr_blog.Common.{
  Bool-cases, List, [], ap, arith, get_or, inl, inr, length, ltb, suc, ℕ, ◌+◌, ◌-◌, ◌<◌, ◌∙◌, ◌∷◌,
  ◌≡◌, ◌≤◌,
}
use native.Mathlib.Decide.{dec_lt}
use rtl_sdr_blog.Common.Word.{u8}
use rtl_sdr_blog.State.{Dev, Host}
use rtl_sdr_blog.Usb.{junk}
use rtl_sdr_blog.Usb.Laws.{Ensures, Ensures-bind, Ensures-weaken}
use rtl_sdr_blog.R82xx.Chip.{burst, chip}
use rtl_sdr_blog.Demod.Eeprom.{eeprom_addr, write_byte, write_bytes_from, write_eeprom}
use rtl_sdr_blog.Demod.Eeprom.Laws.{HasEeprom, Holds, write_byte-Holds}

-- One byte, and the bytes after it.
burst-cons :
    (a b : ℕ) (bytes : List ℕ) (now before : ℕ → ℕ) (r : ℕ)
    → u8 (now r) ≡ u8 (burst a (b ∷ []) before r)
    → u8 (burst (a + 1) bytes now r) ≡ u8 (burst a (b ∷ bytes) before r)
burst-cons a b bytes now before r h = elim (dec_lt a r) [
  | yes after ↦ ground (arith, h, ap (λ k. get_or (b ∷ bytes) k 0) (next after))
  | no upto ↦ elim (dec_lt r a) [
    | yes below ↦ ground (arith, h)
    | no same ↦ ground (arith, h, ap (λ k. get_or (b ∷ bytes) k 0) (first upto same))
  ]
]
  where
    next : a < r → r - a ≡ suc (r - (a + 1))
    next after = omega arith

    first : ¬ (a < r) → ¬ (r < a) → r - a ≡ 0
    first upto same = omega arith

module _ (base : ℕ → ℕ) (host : Host) (eeprom : HasEeprom base host) where
  write_bytes_from-Holds :
      (a old : ℕ) (bytes : List ℕ) (d : Dev)
      → a + length bytes ≤ 256
      → Ensures (Holds base host eeprom a bytes d) (write_bytes_from host a old bytes d)
  unfolding write_bytes_from
  write_bytes_from-Holds a old [] d h = λ r. ground arith
  write_bytes_from-Holds a old (b ∷ bytes) d h =
      Ensures-bind (Holds base host eeprom a (b ∷ []) d) (Holds base host eeprom a (b ∷ bytes) d)
        (write_byte host (u8 a) b old) (λ x. write_bytes_from host (a + 1) b bytes) d
        (rw in_byte (write_byte-Holds base host eeprom a b old d))
        λ x e first.
          Ensures-weaken (Holds base host eeprom (a + 1) bytes e)
            (Holds base host eeprom a (b ∷ bytes) d) _
            (write_bytes_from-Holds (a + 1) b bytes e (omega arith))
            λ y e' rest r.
              rest r
              ∙ burst-cons a b bytes (chip eeprom_addr base e.log) (chip eeprom_addr base d.log) r
                  (first r)
    where
      in_byte : u8 a ≡ a
      in_byte = omega arith

  -- On a dongle that satisfies `HasEeprom` (it takes each address byte, and the read after it
  -- gives the byte that the acknowledged writes left there), writing any bytes at any offset ends,
  -- and where it returns no error the EEPROM holds exactly those bytes (each modulo 256) from the
  -- offset on and is unchanged elsewhere, though bytes that are there already are not written.
  pub write_eeprom-Holds :
      (bytes : List ℕ) (offset : ℕ) (d : Dev)
      → Ensures (Holds base host eeprom offset bytes d) (write_eeprom host bytes offset d)
  unfolding write_eeprom junk
  write_eeprom-Holds bytes offset d = elim (Bool-cases (ltb 256 (length bytes + offset))) [
    | inl large ↦ rw large tt
    | inr fits ↦ rw fits (write_bytes_from-Holds offset _ bytes d (ground arith))
  ]
