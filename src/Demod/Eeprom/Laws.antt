-- ===== src/Demod/Eeprom/Laws.antt =====
-- Writing the EEPROM: what it holds afterwards, seen through the log of transfers.
use rtl_sdr_blog.Common.{
  ==_iff, Bool-cases, List, [], ap, arith, inl, inr, not, refl, true, ℕ, ◌==◌, ◌∙◌, ◌∷◌, ◌≡◌,
}
use rtl_sdr_blog.Common.Word.{u8}
use rtl_sdr_blog.State.{Dev, Host, Log, M, Reply, Transfer, done, failed, ignore, ok, when, ◌>>=◌}
use rtl_sdr_blog.Usb.{byte_or, in_transfer, out_transfer, read_array, status, transfer, write_array}
use rtl_sdr_blog.Usb.Laws.{Ensures, logged}
use rtl_sdr_blog.R82xx.Chip.{burst, chip, i2c_out}
use rtl_sdr_blog.Demod.Eeprom.{eeprom_addr, write_byte, write_two, wrote_two}
use rtl_sdr_blog.Usb.Frame.{bind_res}

abbrev pub address_out : ℕ → Transfer
address_out a = out_transfer eeprom_addr i2c_out (a ∷ [])

abbrev byte_in : Transfer
byte_in = in_transfer eeprom_addr 0x600 1

-- The dongle takes an address byte, and the read after it gives the byte at that address, as the
-- acknowledged writes left it; `base` is what the EEPROM held before them.
pub record HasEeprom (base : ℕ → ℕ) (host : Host) : Type 0 where
  pub takes_address :
      (log : Log) (a : ℕ) → (f : ℕ → ℕ) × (host.answer log (address_out a) ≡ done 1 f)
  pub reads_back :
      (log : Log) (a : ℕ) (f : ℕ → ℕ)
      → (g : ℕ → ℕ) × (host.answer
            (record { transfer = address_out a; reply = done 1 f } ∷ log)
            byte_in
          ≡ done 1 g)
        × (u8 (g 0) ≡ u8 (chip eeprom_addr base log a))

module _ (host : Host) (a b old : ℕ) (d : Dev) (f g : ℕ → ℕ)
    (takes : host.answer d.log (address_out a) ≡ done 1 f) where
  addressed : Dev
  addressed = logged (address_out a) (done 1 f) d

  module _ (reads : host.answer addressed.log byte_in ≡ done 1 g) where
    -- What is left of a round once the address was taken and the byte was read.
    write_byte-when :
        write_byte host a b old d
        ≡ when (not (u8 (g 0) == b)) (write_two host a b) (logged byte_in (done 1 g) addressed)
    unfolding write_byte write_array read_array transfer bind_res addressed
    write_byte-when =
        ap (λ x. bind_res x (λ u. read_array host 6 eeprom_addr 1 >>= rest))
          (ap (λ r. ignore (status r) (logged (address_out a) r d)) takes)
        ∙ ap (λ r. bind_res (ok r (logged byte_in r addressed)) rest) reads
      where
        rest : Reply → M (Unit {0})
        rest r = when (not (byte_or r 0 old == b)) (write_two host a b)

module _ (base : ℕ → ℕ) (host : Host) (eeprom : HasEeprom base host) where
  -- The bytes of the EEPROM in `e` are those in `d` with `bytes` written from `a` on.
  abbrev pub Holds : ℕ → List ℕ → Dev → Unit {0} → Dev → Type 0
  Holds a bytes d x e =
      (r : ℕ)
      → u8 (chip eeprom_addr base e.log r) ≡ u8 (burst a bytes (chip eeprom_addr base d.log) r)

  pub quiet_address :
      (a : ℕ) (f : ℕ → ℕ) (log : Log) (r : ℕ)
      → chip eeprom_addr base (record { transfer = address_out a; reply = done 1 f } ∷ log) r
        ≡ chip eeprom_addr base log r
  unfolding chip
  quiet_address a f log r = ground arith

  quiet_read :
      (g : ℕ → ℕ) (log : Log) (r : ℕ)
      → chip eeprom_addr base (record { transfer = byte_in; reply = done 1 g } ∷ log) r
        ≡ chip eeprom_addr base log r
  unfolding chip
  quiet_read g log r = refl

  two_taken :
      (a b n : ℕ) (f : ℕ → ℕ) (log : Log) (r : ℕ)
      → (n == 2) ≡ true
      → chip eeprom_addr base
          (record { transfer = out_transfer eeprom_addr i2c_out (a ∷ b ∷ []); reply = done n f }
            ∷ log)
          r
        ≡ burst a (b ∷ []) (chip eeprom_addr base log) r
  unfolding chip
  two_taken a b n f log r h = ground arith

  write_two-Holds :
      (a b : ℕ) (d e : Dev)
      → ((r : ℕ) → chip eeprom_addr base e.log r ≡ chip eeprom_addr base d.log r)
      → Ensures (Holds a (b ∷ []) d) (write_two host a b e)
  unfolding write_two write_array transfer
  write_two-Holds a b d e same = by_reply (host.answer e.log t)
    where
      t : Transfer
      t = out_transfer eeprom_addr i2c_out (a ∷ b ∷ [])

      by_reply : (r : Reply) → Ensures (Holds a (b ∷ []) d) (wrote_two (status r (logged t r e)))
      by_reply (failed n) = tt
      by_reply (done n f) = elim (Bool-cases (n == 2)) [
        | inr short ↦ rw short tt
        | inl both ↦ rw both λ r. ground (arith, two_taken a b n f e.log r both, same r)
      ]

  pub write_byte-Holds :
      (a b old : ℕ) (d : Dev) → Ensures (Holds a (b ∷ []) d) (write_byte host a b old d)
  unfolding addressed
  write_byte-Holds a b old d =
      rw (write_byte-when host a b old d taken.0 back.0 taken.1 back.1)
        (elim (Bool-cases (u8 (back.0 0) == b)) [
          | inl same ↦
              rw same λ r.
                ground (arith, quiet r, back.2, (==_iff (u8 (back.0 0)) b).0 same, at_address r)
          | inr other ↦ rw other (write_two-Holds a b d end quiet)
        ])
    where
      taken : (f : ℕ → ℕ) × (host.answer d.log (address_out a) ≡ done 1 f)
      taken = eeprom.takes_address d.log a

      back :
          (g : ℕ → ℕ) × (host.answer
              (record { transfer = address_out a; reply = done 1 taken.0 } ∷ d.log)
              byte_in
            ≡ done 1 g)
          × (u8 (g 0) ≡ u8 (chip eeprom_addr base d.log a))
      back = eeprom.reads_back d.log a taken.0

      end : Dev
      end = logged byte_in (done 1 back.0) (logged (address_out a) (done 1 taken.0) d)

      quiet : (r : ℕ) → chip eeprom_addr base end.log r ≡ chip eeprom_addr base d.log r
      quiet r = quiet_read back.0 _ r ∙ quiet_address a taken.0 d.log r

      at_address : (r : ℕ) → r ≡ a → chip eeprom_addr base d.log r ≡ chip eeprom_addr base d.log a
      at_address r e = ap (λ k. chip eeprom_addr base d.log k) e
