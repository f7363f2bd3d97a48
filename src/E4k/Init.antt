-- ===== src/E4k/Init.antt =====
-- src/tuner_e4k.c: standby and initialisation.
use rtl_sdr_blog.Common.{Bool, List, [], false, if◌then◌else◌, true, ℕ, ◌∷◌}
use rtl_sdr_blog.Common.Int.{pos, ℤ}
use rtl_sdr_blog.State.{Host, M, ignore, pure, ◌>>◌}
use rtl_sdr_blog.E4k.{reg_read, reg_set_mask, reg_write}
use rtl_sdr_blog.E4k.Reg.{
  agc1, agc4, agc5, agc6, agc7, clk_inp, clkout_pwdn, dc5, dctime1, dctime2, master1, ref_clk,
}
use rtl_sdr_blog.E4k.Filter.{chan, if_filter_bw_set, if_filter_chan_enable, mix, rc}
use rtl_sdr_blog.E4k.Gain.{enable_manual_gain}
use rtl_sdr_blog.E4k.Dc.{set_gains}

abbrev pub power_writes : List (ℕ × ℕ)
power_writes = (master1, 0x07) ∷ (clk_inp, 0x00) ∷ (ref_clk, 0x00) ∷ (clkout_pwdn, 0x96) ∷ []

abbrev pub magic_writes : List (ℕ × ℕ)
magic_writes =
    (0x7e, 0x01)
    ∷ (0x7f, 0xfe)
    ∷ (0x82, 0x00)
    ∷ (0x86, 0x50)
    ∷ (0x87, 0x20)
    ∷ (0x88, 0x01)
    ∷ (0x9f, 0x7f)
    ∷ (0xa0, 0x07)
    ∷ []

abbrev pub threshold_writes : List (ℕ × ℕ)
threshold_writes = (agc4, 0x10) ∷ (agc5, 0x04) ∷ (agc6, 0x1a) ∷ []

abbrev pub moderate_gains : List (ℕ × ℤ)
moderate_gains = (1, pos 6) ∷ (2, pos 0) ∷ (3, pos 0) ∷ (4, pos 0) ∷ (5, pos 9) ∷ (6, pos 9) ∷ []

module _ (host : Host) where
  -- Writes whose return values are not looked at.
  unfoldable pub write_each : List (ℕ × ℕ) → M (Unit {0})
  write_each [] = pure tt
  write_each ((reg, val) ∷ writes) = do ignore (reg_write host reg val); write_each writes

  unfoldable pub e4k_standby : Bool → M (Unit {0})
  e4k_standby enable = ignore (reg_set_mask host master1 0x02 (if enable then 0 else 0x02))

  unfoldable pub magic_init : M (Unit {0})
  magic_init = write_each magic_writes

  unfoldable pub e4k_init : M (Unit {0})
  e4k_init = do
    ignore (reg_read host 0)
    write_each power_writes
    magic_init
    write_each threshold_writes
    ignore (reg_set_mask host agc1 0xf 0x0)
    ignore (reg_set_mask host agc7 0x01 0)
    enable_manual_gain host false
    set_gains host moderate_gains
    ignore (if_filter_bw_set host mix 1900000)
    ignore (if_filter_bw_set host rc 1000000)
    ignore (if_filter_bw_set host chan 2150000)
    ignore (if_filter_chan_enable host true)
    ignore (reg_set_mask host dc5 0x03 0)
    ignore (reg_set_mask host dctime1 0x03 0)
    ignore (reg_set_mask host dctime2 0x03 0)
