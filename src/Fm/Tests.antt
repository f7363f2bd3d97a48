-- ===== src/Fm/Tests.antt =====
-- Runs of the signal path, and the theorems at concrete inputs.
use rtl_sdr_blog.Common.{
  List, [], arith, get_elem?, length, map, refl, some, suc, zero, ℕ, ◌∷◌, ◌≡◌, ◌≤◌,
}
use rtl_sdr_blog.Common.Int.{neg_part, negsuc, pos, pos_part, ℤ}
use rtl_sdr_blog.Fm.Filter.{Iq, LowPassReal, low_pass_real, rotate_90}
use rtl_sdr_blog.Fm.Filter.Rotation.{Turns, rotate_90-Turns}
use rtl_sdr_blog.Fm.Filter.Stream.{empty, group_sum, run_buffers, run_buffers-group_sum}
use rtl_sdr_blog.Fm.Filter.Resample.{Counts, low_pass_real-Counts}
use rtl_sdr_blog.Fm.Phase.{atan_lut_size, fast_atan2, polar_disc_lut}
use rtl_sdr_blog.Fm.Phase.Bounds.{InQuadrant, fast_atan2-InQuadrant}
use rtl_sdr_blog.Fm.Phase.Table.{IsAngle, IsTable, polar_disc_lut-IsAngle}
use rtl_sdr_blog.Fm.Demod.{deemph_filter}
use rtl_sdr_blog.Fm.Demod.Deemph.{AllInSpan, InSpan, deemph_filter-InSpan}

abbrev four : List (ℕ × ℕ)
four = (200, 100) ∷ (10, 20) ∷ (127, 128) ∷ (0, 255) ∷ []

rotate_90-Turns_example : Turns four (rotate_90 four)
rotate_90-Turns_example = rotate_90-Turns four (omega arith)

abbrev two_buffers : List (List Iq)
two_buffers =
    ((pos 1, pos 10) ∷ []) ∷ ((pos 2, pos 20) ∷ (pos 3, pos 30) ∷ (pos 4, negsuc 0) ∷ []) ∷ []

abbrev two_groups : List (List Iq)
two_groups =
    ((pos 1, pos 10) ∷ (pos 2, pos 20) ∷ []) ∷ ((pos 3, pos 30) ∷ (pos 4, negsuc 0) ∷ []) ∷ []

run_buffers-group_sum_example :
    run_buffers 2 (empty 2) two_buffers ≡ (empty 2, map (group_sum 2) two_groups)
run_buffers-group_sum_example = run_buffers-group_sum 2 two_buffers two_groups (omega arith) refl

abbrev start : LowPassReal
start = record { now_lpr = pos 0; prev_lpr_index = 0 }

low_pass_real-Counts_example :
    Counts 48 32 start
      (pos 3 ∷ pos 6 ∷ pos 9 ∷ [])
      (low_pass_real 48 32 start (pos 3 ∷ pos 6 ∷ pos 9 ∷ []))
low_pass_real-Counts_example =
    low_pass_real-Counts 48 32 (omega arith) (omega arith) (omega arith) (omega arith) start
      (pos 3 ∷ pos 6 ∷ pos 9 ∷ []) (omega arith) (omega arith)
      (omega arith, (omega arith, (omega arith, tt)))

fast_atan2-InQuadrant_example : InQuadrant (negsuc 99) (pos 200) (fast_atan2 (negsuc 99) (pos 200))
fast_atan2-InQuadrant_example =
    fast_atan2-InQuadrant (negsuc 99) (pos 200) (omega arith) (omega arith)

-- A table of the size that is needed, of the same angle throughout.
filled : ℕ → List ℤ
filled zero = []
filled (suc n) = pos 1000 ∷ filled n

length-filled : (n : ℕ) → length (filled n) ≡ n
unfolding filled
length-filled zero = refl
length-filled (suc n) = omega (arith, length-filled n)

get_elem?-filled :
    (n i : ℕ) (a : ℤ) → get_elem? (filled n) i ≡ some a → (neg_part a ≡ 0) × (pos_part a ≤ 8192)
unfolding filled
get_elem?-filled zero i a h = absurd (cc h)
get_elem?-filled (suc n) zero a h = (ground arith, ground arith)
get_elem?-filled (suc n) (suc i) a h = get_elem?-filled n i a h

filled-IsTable : IsTable (filled atan_lut_size)
filled-IsTable = record {
  size = length-filled atan_lut_size;
  entries = get_elem?-filled atan_lut_size;
}

polar_disc_lut-IsAngle_example :
    IsAngle (polar_disc_lut (filled atan_lut_size) (pos 300) (negsuc 99) (pos 200) (pos 1500))
polar_disc_lut-IsAngle_example =
    polar_disc_lut-IsAngle (filled atan_lut_size) filled-IsTable (pos 300) (negsuc 99) (pos 200)
      (pos 1500) (omega arith) (omega arith) (omega arith) (omega arith)

deemph_filter-InSpan_example :
    InSpan (negsuc 99) (pos 1000) (deemph_filter 10 (pos 0) (pos 1000 ∷ negsuc 99 ∷ [])).0
    × AllInSpan (negsuc 99) (pos 1000) (deemph_filter 10 (pos 0) (pos 1000 ∷ negsuc 99 ∷ [])).1
deemph_filter-InSpan_example =
    deemph_filter-InSpan 10 (negsuc 99) (pos 1000) (pos 0) (pos 1000 ∷ negsuc 99 ∷ []) (omega arith)
      (omega arith) (omega arith) (omega arith) (omega arith)
