-- ===== src/Device/Gains.antt =====
-- src/librtlsdr.c: `rtlsdr_get_tuner_gains`, the gains that each tuner offers, in tenths of a dB.
pub mod Reach
use rtl_sdr_blog.Common.{List, [], ◌∷◌}
use rtl_sdr_blog.Common.Int.{negsuc, pos, ℤ}
use rtl_sdr_blog.State.{
  TunerType, tuner_e4000, tuner_fc0012, tuner_fc0013, tuner_fc2580, tuner_r820t, tuner_r828d,
  tuner_unknown,
}

abbrev pub e4k_gains : List ℤ
e4k_gains =
    negsuc 9
    ∷ pos 15
    ∷ pos 40
    ∷ pos 65
    ∷ pos 90
    ∷ pos 115
    ∷ pos 140
    ∷ pos 165
    ∷ pos 190
    ∷ pos 215
    ∷ pos 240
    ∷ pos 290
    ∷ pos 340
    ∷ pos 420
    ∷ []

abbrev pub fc0012_gains : List ℤ
fc0012_gains = negsuc 98 ∷ negsuc 39 ∷ pos 71 ∷ pos 179 ∷ pos 192 ∷ []

abbrev pub fc0013_gains : List ℤ
fc0013_gains =
    negsuc 98
    ∷ negsuc 72
    ∷ negsuc 64
    ∷ negsuc 62
    ∷ negsuc 59
    ∷ negsuc 57
    ∷ negsuc 53
    ∷ pos 58
    ∷ pos 61
    ∷ pos 63
    ∷ pos 65
    ∷ pos 67
    ∷ pos 68
    ∷ pos 70
    ∷ pos 71
    ∷ pos 179
    ∷ pos 181
    ∷ pos 182
    ∷ pos 184
    ∷ pos 186
    ∷ pos 188
    ∷ pos 191
    ∷ pos 197
    ∷ []

abbrev pub r82xx_gains : List ℤ
r82xx_gains =
    pos 0
    ∷ pos 9
    ∷ pos 14
    ∷ pos 27
    ∷ pos 37
    ∷ pos 77
    ∷ pos 87
    ∷ pos 125
    ∷ pos 144
    ∷ pos 157
    ∷ pos 166
    ∷ pos 197
    ∷ pos 207
    ∷ pos 229
    ∷ pos 254
    ∷ pos 280
    ∷ pos 297
    ∷ pos 328
    ∷ pos 338
    ∷ pos 364
    ∷ pos 372
    ∷ pos 386
    ∷ pos 402
    ∷ pos 421
    ∷ pos 434
    ∷ pos 439
    ∷ pos 445
    ∷ pos 480
    ∷ pos 496
    ∷ []

-- A tuner without gain values has one, 0.
abbrev pub get_tuner_gains : TunerType → List ℤ
get_tuner_gains tuner_e4000 = e4k_gains
get_tuner_gains tuner_fc0012 = fc0012_gains
get_tuner_gains tuner_fc0013 = fc0013_gains
get_tuner_gains tuner_fc2580 = pos 0 ∷ []
get_tuner_gains tuner_r820t = r82xx_gains
get_tuner_gains tuner_r828d = r82xx_gains
get_tuner_gains tuner_unknown = pos 0 ∷ []
