-- ===== src/Fm/Filter.antt =====
-- src/rtl_fm.c: the rotation and the filters of the signal path.
pub mod Stream
pub mod Rotation
pub mod Resample
use mathlib.Core.Option
use rtl_sdr_blog.Common.{
  List, Option, [], if◌then◌else◌, ltb, none, some, ℕ, ◌++◌, ◌+◌, ◌-◌, ◌/◌, ◌==◌, ◌∷◌,
}
use rtl_sdr_blog.Common.Int.{pos, pos_part, ℤ, ◌+ℤ◌}
use rtl_sdr_blog.Common.Cint.{i16, int32, quot, ◌>>=◌}

-- I and Q of a sample.
abbrev pub Iq : Type 0
Iq = ℤ × ℤ

-- Four samples at a time; `none` where the last of them are not in the buffer.
unfoldable pub rotate_90 : List (ℕ × ℕ) → Option (List (ℕ × ℕ))
rotate_90 [] = some []
rotate_90 ((i0, q0) ∷ (i1, q1) ∷ (i2, q2) ∷ (i3, q3) ∷ buf) =
    Option.map (λ rest. (i0, q0) ∷ (255 - q1, i1) ∷ (255 - i2, 255 - q2) ∷ (q3, 255 - i3) ∷ rest)
      (rotate_90 buf)
rotate_90 buf = none

-- The fields of `struct demod_state` that `low_pass` keeps between buffers.
pub record LowPass : Type 0 where
  pub now_r : ℤ
  pub now_j : ℤ
  pub prev_index : ℕ

-- A sample that is added: the state after it, and what is put out.
unfoldable pub low_pass_step : ℕ → LowPass → Iq → LowPass × List Iq
low_pass_step downsample d (i, q) =
    if ltb (d.prev_index + 1) downsample
    then (record { now_r = d.now_r +ℤ i; now_j = d.now_j +ℤ q; prev_index = d.prev_index + 1 }, [])
    else (
      record { now_r = pos 0; now_j = pos 0; prev_index = 0 },
      (i16 (d.now_r +ℤ i), i16 (d.now_j +ℤ q)) ∷ [],
    )

-- The samples are written to the front of the buffer that they are read from; at any time no more
-- are written than read.
unfoldable pub low_pass : ℕ → LowPass → List Iq → LowPass × List Iq
low_pass downsample d [] = (d, [])
low_pass downsample d (s ∷ lowpassed) =
    let step = low_pass_step downsample d s in
    let rest = low_pass downsample step.0 lowpassed in (rest.0, step.1 ++ rest.1)

-- The fields of `struct demod_state` that `low_pass_real` keeps between buffers.
pub record LowPassReal : Type 0 where
  pub now_lpr : ℤ
  pub prev_lpr_index : ℕ

-- `none` where a sum is not an `int`, or the division by `fast/slow` is one by zero.
unfoldable pub low_pass_real_step : ℕ → ℕ → LowPassReal → ℤ → Option (LowPassReal × List ℤ)
low_pass_real_step fast slow s x = do
  sum ← int32 (s.now_lpr +ℤ x)
  index ← int32 (pos (s.prev_lpr_index + slow))
  if ltb (pos_part index) fast
      then some (record { now_lpr = sum; prev_lpr_index = pos_part index }, [])
      else if fast / slow == 0
      then none
      else some (
        record { now_lpr = pos 0; prev_lpr_index = pos_part index - fast },
        i16 (quot sum (pos (fast / slow))) ∷ [],
      )

unfoldable pub low_pass_real : ℕ → ℕ → LowPassReal → List ℤ → Option (LowPassReal × List ℤ)
low_pass_real fast slow s [] = some (s, [])
low_pass_real fast slow s (x ∷ result) = do
  step ← low_pass_real_step fast slow s x
  rest ← low_pass_real fast slow step.0 result
  some (rest.0, step.1 ++ rest.1)
