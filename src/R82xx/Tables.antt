-- ===== src/R82xx/Tables.antt =====
-- The constant tables of src/tuner_r82xx.c and the constants of include/tuner_r82xx.h.
use rtl_sdr_blog.Common.{List, [], ℕ, ◌∷◌}
use rtl_sdr_blog.Common.Int.{negsuc, pos, ℤ}
use rtl_sdr_blog.State.{XtalCap, high_cap_0p, low_cap_0p, low_cap_10p, low_cap_20p, low_cap_30p}

abbrev pub reg_shadow_start : ℕ
reg_shadow_start = 5

abbrev pub num_regs : ℕ
num_regs = 30

abbrev pub ver_num : ℕ
ver_num = 49

-- 27 values are given; C sets the last three registers to 0.
abbrev pub init_array : List ℕ
init_array =
    0x83 ∷ 0x30 ∷ 0x75 ∷ 0xc0 ∷ 0x40 ∷ 0xd6 ∷ 0x6c ∷ 0xf5 ∷ 0x63 ∷ 0x75 ∷ 0x68 ∷ 0x6c ∷ 0x83 ∷ 0x80
    ∷ 0x00 ∷ 0x0f ∷ 0x00 ∷ 0xc0 ∷ 0x30 ∷ 0x48 ∷ 0xcc ∷ 0x60 ∷ 0x00 ∷ 0x54 ∷ 0xae ∷ 0x4a ∷ 0xc0 ∷ 0
    ∷ 0 ∷ 0 ∷ []

pub record FreqRange : Type 0 where
  pub freq : ℕ
  pub open_d : ℕ
  pub rf_mux_ploy : ℕ
  pub tf_c : ℕ
  pub xtal_cap20p : ℕ
  pub xtal_cap10p : ℕ
  pub xtal_cap0p : ℕ

-- A row of the table, its fields in the order of the struct.
abbrev range : ℕ → ℕ → ℕ → ℕ → ℕ → ℕ → ℕ → FreqRange
range f o m t c20 c10 c0 = record {
  freq = f;
  open_d = o;
  rf_mux_ploy = m;
  tf_c = t;
  xtal_cap20p = c20;
  xtal_cap10p = c10;
  xtal_cap0p = c0;
}

abbrev pub first_range : FreqRange
first_range = range 0 0x08 0x02 0xdf 0x02 0x01 0x00

abbrev pub later_ranges : List FreqRange
later_ranges =
    range 50 0x08 0x02 0xbe 0x02 0x01 0x00
    ∷ range 55 0x08 0x02 0x8b 0x02 0x01 0x00
    ∷ range 60 0x08 0x02 0x7b 0x02 0x01 0x00
    ∷ range 65 0x08 0x02 0x69 0x02 0x01 0x00
    ∷ range 70 0x08 0x02 0x58 0x02 0x01 0x00
    ∷ range 75 0x00 0x02 0x44 0x02 0x01 0x00
    ∷ range 80 0x00 0x02 0x44 0x02 0x01 0x00
    ∷ range 90 0x00 0x02 0x34 0x01 0x01 0x00
    ∷ range 100 0x00 0x02 0x34 0x01 0x01 0x00
    ∷ range 110 0x00 0x02 0x24 0x01 0x01 0x00
    ∷ range 120 0x00 0x02 0x24 0x01 0x01 0x00
    ∷ range 140 0x00 0x02 0x14 0x01 0x01 0x00
    ∷ range 180 0x00 0x02 0x13 0x00 0x00 0x00
    ∷ range 220 0x00 0x02 0x13 0x00 0x00 0x00
    ∷ range 250 0x00 0x02 0x11 0x00 0x00 0x00
    ∷ range 280 0x00 0x02 0x00 0x00 0x00 0x00
    ∷ range 310 0x00 0x41 0x00 0x00 0x00 0x00
    ∷ range 450 0x00 0x41 0x00 0x00 0x00 0x00
    ∷ range 588 0x00 0x40 0x00 0x00 0x00 0x00
    ∷ range 650 0x00 0x40 0x00 0x00 0x00 0x00
    ∷ []

abbrev pub freq_ranges : List FreqRange
freq_ranges = first_range ∷ later_ranges

abbrev pub xtal_capacitor : List (ℕ × XtalCap)
xtal_capacitor =
    (0x0b, low_cap_30p)
    ∷ (0x02, low_cap_20p)
    ∷ (0x01, low_cap_10p)
    ∷ (0x00, low_cap_0p)
    ∷ (0x10, high_cap_0p)
    ∷ []

abbrev pub bitrev_lut : List ℕ
bitrev_lut =
    0x0 ∷ 0x8 ∷ 0x4 ∷ 0xc ∷ 0x2 ∷ 0xa ∷ 0x6 ∷ 0xe ∷ 0x1 ∷ 0x9 ∷ 0x5 ∷ 0xd ∷ 0x3 ∷ 0xb ∷ 0x7 ∷ 0xf
    ∷ []

abbrev pub lna_gain_steps : List ℤ
lna_gain_steps =
    pos 0
    ∷ pos 9
    ∷ pos 13
    ∷ pos 40
    ∷ pos 38
    ∷ pos 13
    ∷ pos 31
    ∷ pos 22
    ∷ pos 26
    ∷ pos 31
    ∷ pos 26
    ∷ pos 14
    ∷ pos 19
    ∷ pos 5
    ∷ pos 35
    ∷ pos 13
    ∷ []

abbrev pub mixer_gain_steps : List ℤ
mixer_gain_steps =
    pos 0
    ∷ pos 5
    ∷ pos 10
    ∷ pos 10
    ∷ pos 19
    ∷ pos 9
    ∷ pos 10
    ∷ pos 25
    ∷ pos 17
    ∷ pos 10
    ∷ pos 8
    ∷ pos 16
    ∷ pos 13
    ∷ pos 6
    ∷ pos 3
    ∷ negsuc 7
    ∷ []

abbrev pub if_low_pass_bw_table : List ℕ
if_low_pass_bw_table =
    1700000 ∷ 1600000 ∷ 1550000 ∷ 1450000 ∷ 1200000 ∷ 900000 ∷ 700000 ∷ 550000 ∷ 450000 ∷ 350000
    ∷ []
