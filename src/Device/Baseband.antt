-- ===== src/Device/Baseband.antt =====
-- src/librtlsdr.c: `rtlsdr_init_baseband`, and the last write of `rtlsdr_deinit_baseband`.
use rtl_sdr_blog.Common.{List, [], ℕ, ◌+◌, ◌∷◌}
use rtl_sdr_blog.State.{Host, M, ignore, pure, ◌>>◌}
use rtl_sdr_blog.Usb.{demod_write_reg, write_reg}
use rtl_sdr_blog.Usb.Block.{sysb, usbb}
use rtl_sdr_blog.Usb.Reg.{demod_ctl, demod_ctl_1, usb_epa_ctl, usb_epa_maxpkt, usb_sysctl}
use rtl_sdr_blog.Demod.Fir.{set_fir}

-- A register write as data: page, address, value and length.
abbrev pub DemodWrite : Type 0
DemodWrite = ℕ × ℕ × ℕ × ℕ

-- What is written before the FIR filter, from the soft reset on, and after it.
abbrev pub reset_writes : List DemodWrite
reset_writes =
    (1, 0x01, 0x14, 1)
    ∷ (1, 0x01, 0x10, 1)
    ∷ (1, 0x15, 0x00, 1)
    ∷ (1, 0x16, 0x0000, 2)
    ∷ (1, 0x16 + 0, 0x00, 1)
    ∷ (1, 0x16 + 1, 0x00, 1)
    ∷ (1, 0x16 + 2, 0x00, 1)
    ∷ (1, 0x16 + 3, 0x00, 1)
    ∷ (1, 0x16 + 4, 0x00, 1)
    ∷ (1, 0x16 + 5, 0x00, 1)
    ∷ []

abbrev pub sdr_mode_writes : List DemodWrite
sdr_mode_writes =
    (0, 0x19, 0x05, 1)
    ∷ (1, 0x93, 0xf0, 1)
    ∷ (1, 0x94, 0x0f, 1)
    ∷ (1, 0x11, 0x00, 1)
    ∷ (1, 0x04, 0x00, 1)
    ∷ (0, 0x61, 0x60, 1)
    ∷ (0, 0x06, 0x80, 1)
    ∷ (1, 0xb1, 0x1b, 1)
    ∷ (0, 0x0d, 0x83, 1)
    ∷ []

module _ (host : Host) where
  -- Writes whose results are not looked at.
  unfoldable pub demod_writes : List DemodWrite → M (Unit {0})
  demod_writes [] = pure tt
  demod_writes ((page, addr, val, len) ∷ ws) = do
    ignore (demod_write_reg host page addr val len)
    demod_writes ws

  unfoldable pub init_baseband : M (Unit {0})
  init_baseband = do
    ignore (write_reg host usbb usb_sysctl 0x09 1)
    ignore (write_reg host usbb usb_epa_maxpkt 0x0002 2)
    ignore (write_reg host usbb usb_epa_ctl 0x1002 2)
    ignore (write_reg host sysb demod_ctl_1 0x22 1)
    ignore (write_reg host sysb demod_ctl 0xe8 1)
    demod_writes reset_writes
    ignore (set_fir host)
    demod_writes sdr_mode_writes
