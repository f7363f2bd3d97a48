-- ===== src/Fm/Demod.antt =====
-- src/rtl_fm.c: the demodulators and the filters of their result.
pub mod Deemph
use rtl_sdr_blog.Common.{
  List, Option, [], if◌then◌else◌, length, none, some, suc, zero, ℕ, ◌/◌, ◌∷◌,
}
use rtl_sdr_blog.Common.Int.{is_pos, pos, ℤ, ◌*ℤ◌, ◌+ℤ◌, ◌-ℤ◌}
use rtl_sdr_blog.Common.Cint.{i16, quot, ◌>>=◌}
use rtl_sdr_blog.Fm.Filter.{Iq}
use rtl_sdr_blog.Fm.Phase.{polar_disc_fast, polar_disc_lut}

-- What the C library computes in `double`: `polar_discriminant`, by `atan2`, and the square root of
-- an `int`.
pub record Float : Type 0 where
  pub polar_discriminant : ℤ → ℤ → ℤ → ℤ → ℤ
  pub sqrt : ℤ → ℤ

module _ (float : Float) (atan_lut : List ℤ) where
  -- The angle by the method that `custom_atan` chooses, between a sample and the one before it.
  unfoldable pub polar : ℕ → Iq → Iq → Option ℤ
  polar zero (ar, aj) (br, bj) = some (float.polar_discriminant ar aj br bj)
  polar (suc zero) (ar, aj) (br, bj) = polar_disc_fast ar aj br bj
  polar (suc (suc n)) (ar, aj) (br, bj) = polar_disc_lut atan_lut ar aj br bj

  unfoldable pub fm_loop : ℕ → Iq → List Iq → Option (Iq × List ℤ)
  fm_loop custom_atan pre [] = some (pre, [])
  fm_loop custom_atan pre (s ∷ lp) = do
    pcm ← polar custom_atan s pre
    rest ← fm_loop custom_atan s lp
    some (rest.0, i16 pcm ∷ rest.1)

  -- The first angle is always that of `polar_discriminant`. With no samples, the last one is read
  -- in front of the buffer.
  unfoldable pub fm_demod : ℕ → Iq → List Iq → Option (Iq × List ℤ)
  fm_demod custom_atan pre [] = none
  fm_demod custom_atan pre (s ∷ lp) = do
    rest ← fm_loop custom_atan s lp
    some (rest.0, i16 (float.polar_discriminant s.0 s.1 pre.0 pre.1) ∷ rest.1)

  unfoldable pub am_demod : ℤ → List Iq → List ℤ
  am_demod output_scale [] = []
  am_demod output_scale ((i, q) ∷ lp) =
      i16 (i16 (float.sqrt (i *ℤ i +ℤ q *ℤ q)) *ℤ output_scale) ∷ am_demod output_scale lp

unfoldable pub usb_demod : ℤ → List Iq → List ℤ
usb_demod output_scale [] = []
usb_demod output_scale ((i, q) ∷ lp) =
    i16 (i16 (i +ℤ q) *ℤ output_scale) ∷ usb_demod output_scale lp

unfoldable pub lsb_demod : ℤ → List Iq → List ℤ
lsb_demod output_scale [] = []
lsb_demod output_scale ((i, q) ∷ lp) =
    i16 (i16 (i -ℤ q) *ℤ output_scale) ∷ lsb_demod output_scale lp

unfoldable pub raw_demod : List Iq → List ℤ
raw_demod [] = []
raw_demod ((i, q) ∷ lp) = i16 i ∷ i16 q ∷ raw_demod lp

-- A step of `deemph_filter`, for `deemph_a` of at least 1.
unfoldable pub deemph_step : ℕ → ℤ → ℤ → ℤ
deemph_step deemph_a avg x =
    let d = x -ℤ avg in
    if is_pos d
    then avg +ℤ quot (d +ℤ pos (deemph_a / 2)) (pos deemph_a)
    else avg +ℤ quot (d -ℤ pos (deemph_a / 2)) (pos deemph_a)

-- The last average, and the result.
unfoldable pub deemph_filter : ℕ → ℤ → List ℤ → ℤ × List ℤ
deemph_filter deemph_a avg [] = (avg, [])
deemph_filter deemph_a avg (x ∷ result) =
    let next = deemph_step deemph_a avg x in
    let rest = deemph_filter deemph_a next result in (rest.0, i16 next ∷ rest.1)

abbrev pub total : List ℤ → ℤ
total [] = pos 0
total (x ∷ xs) = x +ℤ total xs

abbrev pub lower : ℤ → List ℤ → List ℤ
lower avg [] = []
lower avg (x ∷ result) = i16 (x -ℤ avg) ∷ lower avg result

-- A division by zero where there is no result.
unfoldable pub dc_block_filter : ℤ → List ℤ → Option (ℤ × List ℤ)
dc_block_filter dc_avg [] = none
dc_block_filter dc_avg (x ∷ result) =
    let avg = quot (total (x ∷ result)) (pos (length (x ∷ result))) in
    let smooth = quot (avg +ℤ dc_avg *ℤ pos 9) (pos 10) in some (smooth, lower smooth (x ∷ result))
