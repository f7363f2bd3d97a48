-- ===== src/E4k/Filter.antt =====
-- src/tuner_e4k.c: the filters.
pub mod Laws
pub mod Roundtrip
use rtl_sdr_blog.Common.{Bool, List, [], get_elem?, if◌then◌else◌, ltb, map, ℕ, ◌*◌, ◌+◌, ◌-◌, ◌∷◌}
use rtl_sdr_blog.Common.Word.{u8}
use rtl_sdr_blog.State.{Band, Host, M, band_l, get, or_stuck, uhf, vhf2, vhf3, ◌>>=◌, ◌>>◌}
use rtl_sdr_blog.E4k.{RegField, field_at, field_read, field_write, reg_set_mask}
use rtl_sdr_blog.E4k.Reg.{filt1, filt2, filt3}

abbrev mhz : ℕ → ℕ
mhz x = x * 1000 * 1000

abbrev khz : ℕ → ℕ
khz x = x * 1000

abbrev pub rf_filt_center_uhf : List ℕ
rf_filt_center_uhf = map mhz (
    360 ∷ 380 ∷ 405 ∷ 425 ∷ 450 ∷ 475 ∷ 505 ∷ 540 ∷ 575 ∷ 615 ∷ 670 ∷ 720 ∷ 760 ∷ 840 ∷ 890 ∷ 970
    ∷ [])

abbrev pub rf_filt_center_l : List ℕ
rf_filt_center_l = map mhz (
    1300 ∷ 1320 ∷ 1360 ∷ 1410 ∷ 1445 ∷ 1460 ∷ 1490 ∷ 1530 ∷ 1560 ∷ 1590 ∷ 1640 ∷ 1660 ∷ 1680 ∷ 1700
    ∷ 1720 ∷ 1750 ∷ [])

abbrev pub mix_filter_bw : List ℕ
mix_filter_bw = map khz (
    27000 ∷ 27000 ∷ 27000 ∷ 27000 ∷ 27000 ∷ 27000 ∷ 27000 ∷ 27000 ∷ 4600 ∷ 4200 ∷ 3800 ∷ 3400 ∷ 3300
    ∷ 2700 ∷ 2300 ∷ 1900 ∷ [])

abbrev pub ifrc_filter_bw : List ℕ
ifrc_filter_bw = map khz (
    21400 ∷ 21000 ∷ 17600 ∷ 14700 ∷ 12400 ∷ 10600 ∷ 9000 ∷ 7700 ∷ 6400 ∷ 5300 ∷ 4400 ∷ 3400 ∷ 2600
    ∷ 1800 ∷ 1200 ∷ 1000 ∷ [])

abbrev pub ifch_filter_bw : List ℕ
ifch_filter_bw = map khz (
    5500 ∷ 5300 ∷ 5000 ∷ 4800 ∷ 4600 ∷ 4400 ∷ 4300 ∷ 4100 ∷ 3900 ∷ 3800 ∷ 3700 ∷ 3600 ∷ 3400 ∷ 3300
    ∷ 3200 ∷ 3100 ∷ 3000 ∷ 2950 ∷ 2900 ∷ 2800 ∷ 2750 ∷ 2700 ∷ 2600 ∷ 2550 ∷ 2500 ∷ 2450 ∷ 2400
    ∷ 2300 ∷ 2280 ∷ 2240 ∷ 2200 ∷ 2150 ∷ [])

abbrev pub unsigned_delta : ℕ → ℕ → ℕ
unsigned_delta a b = if ltb b a then a - b else b - a

-- The loop of `closest_arr_idx` from the index `i` on.
unfoldable pub closest_from : List ℕ → ℕ → ℕ → ℕ → ℕ → ℕ
closest_from [] i best_delta bi freq = bi
closest_from (center ∷ arr) i best_delta bi freq =
    let delta = unsigned_delta freq center in
    let nearer = closest_from arr (i + 1) delta i freq in
    let rest = closest_from arr (i + 1) best_delta bi freq in
    if ltb delta best_delta then nearer else rest

unfoldable pub closest_arr_idx : List ℕ → ℕ → ℕ
closest_arr_idx arr freq = closest_from arr 0 0xffffffff 0 freq

unfoldable pub choose_rf_filter : Band → ℕ → ℕ
choose_rf_filter vhf2 freq = 0
choose_rf_filter vhf3 freq = 0
choose_rf_filter uhf freq = closest_arr_idx rf_filt_center_uhf freq
choose_rf_filter band_l freq = closest_arr_idx rf_filt_center_l freq

-- `enum e4k_if_filter`.
pub data IfFilter : Type 0 where
  mix chan rc : IfFilter

abbrev pub if_filter_bw : IfFilter → List ℕ
if_filter_bw mix = mix_filter_bw
if_filter_bw chan = ifch_filter_bw
if_filter_bw rc = ifrc_filter_bw

abbrev pub if_filter_field : IfFilter → RegField
if_filter_field mix = field_at filt2 4 4
if_filter_field chan = field_at filt3 0 5
if_filter_field rc = field_at filt2 0 4

unfoldable pub find_if_bw : IfFilter → ℕ → ℕ
find_if_bw filter bw = closest_arr_idx (if_filter_bw filter) bw

module _ (host : Host) where
  unfoldable pub rf_filter_set : M (Unit {0})
  rf_filter_set = do
    d ← get
    reg_set_mask host filt1 0xf (choose_rf_filter d.e4k.band d.e4k.vco.flo)

  unfoldable pub if_filter_bw_set : IfFilter → ℕ → M (Unit {0})
  if_filter_bw_set filter bandwidth =
      field_write host (if_filter_field filter) (u8 (find_if_bw filter bandwidth))

  unfoldable pub if_filter_chan_enable : Bool → M (Unit {0})
  if_filter_chan_enable on = reg_set_mask host filt3 0x20 (if on then 0 else 0x20)

  unfoldable pub if_filter_bw_get : IfFilter → M ℕ
  if_filter_bw_get filter = do
    i ← field_read host (if_filter_field filter)
    or_stuck (get_elem? (if_filter_bw filter) i)
