-- ===== src/E4k/Dc.antt =====
-- src/tuner_e4k.c: the offset calibration.
use rtl_sdr_blog.Common.{
  Bool, List, [], bit_and, bit_or, false, if◌then◌else◌, leb, ℕ, ◌&&◌, ◌*◌, ◌+◌, ◌/◌, ◌^◌, ◌∷◌,
}
use rtl_sdr_blog.Common.Int.{negsuc, pos, pos_part, ℤ}
use rtl_sdr_blog.State.{Host, M, fail, ignore, or_value, pure, ◌>>=◌, ◌>>◌}
use rtl_sdr_blog.E4k.{reg_read, reg_set_mask, reg_write}
use rtl_sdr_blog.E4k.Reg.{agc1, agc7, dc1, dc2, dc3, dc4, dc5}
use rtl_sdr_blog.E4k.Gain.{if_gain_set, mixer_gain_set}

-- Gains of the stages 2 to 6.
abbrev pub if_gains_max : List (ℕ × ℤ)
if_gains_max = (2, pos 9) ∷ (3, pos 9) ∷ (4, pos 2) ∷ (5, pos 15) ∷ (6, pos 15) ∷ []

-- `struct gain_comb`.
pub record GainComb : Type 0 where
  pub mixer_gain : ℤ
  pub if1_gain : ℤ
  pub reg : ℕ

abbrev comb : ℤ → ℤ → ℕ → GainComb
comb mixer_gain if1_gain reg = record { mixer_gain = mixer_gain; if1_gain = if1_gain; reg = reg }

abbrev pub dc_gain_comb : List GainComb
dc_gain_comb =
    comb (pos 4) (negsuc 2) 0x50
    ∷ comb (pos 4) (pos 6) 0x51
    ∷ comb (pos 12) (negsuc 2) 0x52
    ∷ comb (pos 12) (pos 6) 0x53
    ∷ []

abbrev pub to_lut : ℕ → ℕ → ℕ
to_lut offset range = bit_or offset (range * 2 ^ 6)

-- An `int8_t` from 0 to `top`.
abbrev pub is_upto : ℕ → ℤ → Bool
is_upto top (pos n) = leb n top
is_upto top (negsuc n) = false

module _ (host : Host) where
  unfoldable pub manual_dc_offset : ℤ → ℤ → ℤ → ℤ → M (Unit {0})
  manual_dc_offset iofs irange qofs qrange =
      if is_upto 0x3f iofs && is_upto 0x03 irange && is_upto 0x3f qofs && is_upto 0x03 qrange
      then (do
        reg_set_mask host dc2 0x3f (pos_part iofs)
        reg_set_mask host dc3 0x3f (pos_part qofs)
        reg_set_mask host dc4 0x33 (bit_or (pos_part qrange * 2 ^ 4) (pos_part irange)))
      else fail 21

  unfoldable pub dc_offset_calibrate : M (Unit {0})
  dc_offset_calibrate = do ignore (reg_set_mask host dc5 0x04 0x04); reg_write host dc1 0x01

  unfoldable pub set_gains : List (ℕ × ℤ) → M (Unit {0})
  set_gains [] = pure tt
  set_gains ((stage, gain) ∷ gains) = do ignore (if_gain_set host stage gain); set_gains gains

  -- A failed read is -1, whose bits are all set.
  unfoldable pub fill_luts : List GainComb → M (Unit {0})
  fill_luts [] = pure tt
  fill_luts (c ∷ combs) = do
    ignore (mixer_gain_set host c.mixer_gain)
    ignore (if_gain_set host 1 c.if1_gain)
    ignore dc_offset_calibrate
    offs_i ← or_value 255 (reg_read host dc2)
    offs_q ← or_value 255 (reg_read host dc3)
    range ← or_value 255 (reg_read host dc4)
    ignore (reg_write host c.reg (to_lut (bit_and offs_q 0x3f) (bit_and (range / 2 ^ 4) 0x3)))
    ignore (reg_write host (c.reg + 0x10) (to_lut (bit_and offs_i 0x3f) (bit_and range 0x3)))
    fill_luts combs

  unfoldable pub dc_offset_gen_table : M (Unit {0})
  dc_offset_gen_table = do
    ignore (reg_set_mask host agc7 0x01 0)
    ignore (reg_set_mask host agc1 0xf 0x0)
    set_gains if_gains_max
    fill_luts dc_gain_comb
