-- ===== src/E4k/Reg.antt =====
-- include/tuner_e4k.h: the numbers of the registers, and masks.
use rtl_sdr_blog.Common.{ℕ}

abbrev pub master1 : ℕ
master1 = 0x00

abbrev pub clk_inp : ℕ
clk_inp = 0x05

abbrev pub ref_clk : ℕ
ref_clk = 0x06

abbrev pub synth1 : ℕ
synth1 = 0x07

abbrev pub synth3 : ℕ
synth3 = 0x09

abbrev pub synth4 : ℕ
synth4 = 0x0a

abbrev pub synth5 : ℕ
synth5 = 0x0b

abbrev pub synth7 : ℕ
synth7 = 0x0d

abbrev pub filt1 : ℕ
filt1 = 0x10

abbrev pub filt2 : ℕ
filt2 = 0x11

abbrev pub filt3 : ℕ
filt3 = 0x12

abbrev pub gain1 : ℕ
gain1 = 0x14

abbrev pub gain2 : ℕ
gain2 = 0x15

abbrev pub gain3 : ℕ
gain3 = 0x16

abbrev pub gain4 : ℕ
gain4 = 0x17

abbrev pub agc1 : ℕ
agc1 = 0x1a

abbrev pub agc4 : ℕ
agc4 = 0x1d

abbrev pub agc5 : ℕ
agc5 = 0x1e

abbrev pub agc6 : ℕ
agc6 = 0x1f

abbrev pub agc7 : ℕ
agc7 = 0x20

abbrev pub agc11 : ℕ
agc11 = 0x24

abbrev pub dc1 : ℕ
dc1 = 0x29

abbrev pub dc2 : ℕ
dc2 = 0x2a

abbrev pub dc3 : ℕ
dc3 = 0x2b

abbrev pub dc4 : ℕ
dc4 = 0x2c

abbrev pub dc5 : ℕ
dc5 = 0x2d

abbrev pub dc7 : ℕ
dc7 = 0x2f

abbrev pub dctime1 : ℕ
dctime1 = 0x70

abbrev pub dctime2 : ℕ
dctime2 = 0x71

abbrev pub bias : ℕ
bias = 0x78

abbrev pub clkout_pwdn : ℕ
clkout_pwdn = 0x7a
