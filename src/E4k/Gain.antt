-- ===== src/E4k/Gain.antt =====
-- src/tuner_e4k.c: the gain of the LNA, the mixer and the stages of the intermediate frequency.
pub mod Reach
use rtl_sdr_blog.Common.{
  Bool, List, Option, [], bit_or, false, get_elem?, if◌then◌else◌, ltb, none, some, true, ℕ, ◌*◌,
  ◌+◌, ◌^◌, ◌∷◌,
}
use rtl_sdr_blog.Common.Int.{negsuc, pos, same_ℤ, ℤ}
use rtl_sdr_blog.Common.Word.{u8}
use rtl_sdr_blog.State.{Host, M, fail, ignore, or_stuck, pure, ◌>>=◌, ◌>>◌}
use rtl_sdr_blog.E4k.{RegField, field_at, field_mask, reg_set_mask}
use rtl_sdr_blog.E4k.Reg.{agc1, agc11, agc7, dc7, gain1, gain2, gain3, gain4}

-- The stages from 0 on; stage 0 is a null pointer of length 0.
abbrev pub if_stage_gain : List (List ℤ)
if_stage_gain =
    []
    ∷ (negsuc 2 ∷ pos 6 ∷ [])
    ∷ (pos 0 ∷ pos 3 ∷ pos 6 ∷ pos 9 ∷ [])
    ∷ (pos 0 ∷ pos 3 ∷ pos 6 ∷ pos 9 ∷ [])
    ∷ (pos 0 ∷ pos 1 ∷ pos 2 ∷ pos 2 ∷ [])
    ∷ (pos 3 ∷ pos 6 ∷ pos 9 ∷ pos 12 ∷ pos 15 ∷ pos 15 ∷ pos 15 ∷ pos 15 ∷ [])
    ∷ (pos 3 ∷ pos 6 ∷ pos 9 ∷ pos 12 ∷ pos 15 ∷ pos 15 ∷ pos 15 ∷ pos 15 ∷ [])
    ∷ []

abbrev pub if_stage_gain_regs : List RegField
if_stage_gain_regs =
    field_at 0 0 0
    ∷ field_at gain3 0 1
    ∷ field_at gain3 1 2
    ∷ field_at gain3 3 2
    ∷ field_at gain3 5 2
    ∷ field_at gain4 0 3
    ∷ field_at gain4 3 3
    ∷ []

-- Gains in tenths of a dB, each with its bits.
abbrev pub lnagain : List (ℤ × ℕ)
lnagain =
    (negsuc 49, 0)
    ∷ (negsuc 24, 1)
    ∷ (pos 0, 4)
    ∷ (pos 25, 5)
    ∷ (pos 50, 6)
    ∷ (pos 75, 7)
    ∷ (pos 100, 8)
    ∷ (pos 125, 9)
    ∷ (pos 150, 10)
    ∷ (pos 175, 11)
    ∷ (pos 200, 12)
    ∷ (pos 250, 13)
    ∷ (pos 300, 14)
    ∷ []

abbrev pub enhgain : List ℤ
enhgain = pos 10 ∷ pos 30 ∷ pos 50 ∷ pos 70 ∷ []

unfoldable pub find_lna : List (ℤ × ℕ) → ℤ → Option ℕ
find_lna [] gain = none
find_lna ((g, bits) ∷ gains) gain = if same_ℤ g gain then some bits else find_lna gains gain

-- The index of a gain, from `i` on.
unfoldable pub index_from : List ℤ → ℕ → ℤ → Option ℕ
index_from [] i val = none
index_from (g ∷ arr) i val = if same_ℤ g val then some i else index_from arr (i + 1) val

unfoldable pub find_stage_gain : ℕ → ℤ → Option ℕ
find_stage_gain stage val = elim (get_elem? if_stage_gain stage) [
  | none ↦ none
  | some arr ↦ index_from arr 0 val
]

-- `-EINVAL` as a value.
abbrev pub minus_einval : ℤ
minus_einval = negsuc 21

module _ (host : Host) where
  -- The gain is returned, which may be negative; the write's return value is not looked at.
  unfoldable pub set_lna_gain : ℤ → M ℤ
  set_lna_gain gain = elim (find_lna lnagain gain) [
    | none ↦ pure minus_einval
    | some bits ↦ ignore (reg_set_mask host gain1 0xf bits) >> pure gain
  ]

  unfoldable pub set_enh_gain : ℤ → M ℤ
  set_enh_gain gain = elim (index_from enhgain 0 gain) [
    | none ↦
        ignore (reg_set_mask host agc11 0x7 0)
        >> pure (if same_ℤ (pos 0) gain then pos 0 else minus_einval)
    | some i ↦ ignore (reg_set_mask host agc11 0x7 (bit_or 0x01 (i * 2))) >> pure gain
  ]

  unfoldable pub enable_manual_gain : Bool → M (Unit {0})
  enable_manual_gain true = do
    ignore (reg_set_mask host agc1 0xf 0x0)
    ignore (reg_set_mask host agc7 0x01 0)
  enable_manual_gain false = do
    ignore (reg_set_mask host agc1 0xf 0x9)
    ignore (reg_set_mask host agc7 0x01 1)
    ignore (reg_set_mask host agc11 0x7 0)

  unfoldable pub if_gain_set : ℕ → ℤ → M (Unit {0})
  if_gain_set stage value = elim (find_stage_gain stage value) [
    | none ↦ fail 21
    | some i ↦ do
      field ← or_stuck (get_elem? if_stage_gain_regs stage)
      reg_set_mask host field.reg (field_mask field) (u8 (i * 2 ^ field.shift))
  ]

  unfoldable pub mixer_gain_set : ℤ → M (Unit {0})
  mixer_gain_set value =
      if same_ℤ value (pos 4)
      then reg_set_mask host gain2 1 0
      else if same_ℤ value (pos 12)
      then reg_set_mask host gain2 1 1
      else fail 21

  unfoldable pub commonmode_set : ℤ → M (Unit {0})
  commonmode_set (negsuc n) = fail 21
  commonmode_set (pos n) = if ltb 7 n then fail 21 else reg_set_mask host dc7 7 n
