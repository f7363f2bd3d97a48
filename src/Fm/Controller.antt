-- ===== src/Fm/Controller.antt =====
-- src/rtl_fm.c: what the controller sets for a frequency, and its hops.
pub mod Oversample
mod Tests
use rtl_sdr_blog.Common.{
  Bool, List, Option, false, get_or, if◌then◌else◌, leb, length, ltb, none, some, true, ℕ, ◌%◌, ◌*◌,
  ◌+◌, ◌-◌, ◌/◌, ◌==◌, ◌^◌, ◌||◌,
}
use rtl_sdr_blog.Common.Int.{i32, neg_part, pos, pos_part, ℤ, ◌+ℤ◌}
use rtl_sdr_blog.Common.Cint.{int32, ◌>>=◌}
use rtl_sdr_blog.Common.Word.{u32}
use rtl_sdr_blog.Fm.Thread.{Mode, am, fm, lsb, raw, usb}

-- The fields of `struct controller_state`; the frequencies are of 32 bits.
pub record Controller : Type 0 where
  pub freqs : List ℕ
  pub freq_now : ℕ
  pub edge : ℕ

-- What is set of `struct demod_state` and `struct dongle_state`.
pub record Tuned : Type 0 where
  pub downsample : ℕ
  pub downsample_passes : ℕ
  pub output_scale : ℕ
  pub freq : ℕ
  pub rate : ℕ

abbrev pub buffer_dump : ℕ
buffer_dump = 4096

abbrev pub is_fm : Mode → Bool
is_fm fm = true
is_fm am = false
is_fm usb = false
is_fm lsb = false
is_fm raw = false

abbrev pub scale_for : Mode → ℕ → ℕ
scale_for mode_demod downsample =
    let output_scale = 2 ^ 15 / (128 * downsample) in
    if is_fm mode_demod || ltb output_scale 1 then 1 else output_scale

-- An `int` as a `uint32_t`.
abbrev pub as_u32 : ℤ → ℕ
as_u32 a = u32 (2 ^ 32 + pos_part a - neg_part a)

-- The whole part of the logarithm is computed in `double`: a parameter.
module _ (log2 : ℕ → ℕ) where
  -- The passes and the factor; `none` for a rate of 0.
  unfoldable pub oversample : ℕ → ℕ → Option (ℕ × ℕ)
  oversample rate_in downsample_passes =
      let downsample = 1000000 / rate_in + 1 in
      if rate_in == 0
      then none
      else if downsample_passes == 0
      then some (0, downsample)
      else some (log2 downsample + 1, 2 ^ (log2 downsample + 1))

  -- `none` where a sum is not an `int`.
  unfoldable pub optimal_settings : Bool → ℕ → Mode → ℕ → ℕ → ℕ → Option Tuned
  optimal_settings offset_tuning edge mode_demod rate_in downsample_passes freq = do
    factor ← oversample rate_in downsample_passes
    capture_rate ← int32 (pos (factor.1 * rate_in))
    let quarter = if offset_tuning then 0 else pos_part capture_rate / 4
    capture_freq ← int32 (i32 freq +ℤ pos quarter)
    edge_rate ← int32 (pos (edge * rate_in))
    at_edge ← int32 (capture_freq +ℤ pos (pos_part edge_rate / 2))
    some (record {
      downsample = factor.1;
      downsample_passes = factor.0;
      output_scale = scale_for mode_demod factor.1;
      freq = as_u32 at_edge;
      rate = pos_part capture_rate;
    })

  -- A round of the loop: the controller after it, and what is set for the next frequency, with the
  -- bytes to mute; nothing is set where there is one frequency only.
  unfoldable pub next_hop :
      Bool → Mode → ℕ → ℕ → Controller → Option (Controller × Option (Tuned × ℕ))
  next_hop offset_tuning mode_demod rate_in downsample_passes s =
      let next = (s.freq_now + 1) % length s.freqs in
      if leb (length s.freqs) 1 then some (s, none) else (do
        tuned ←
            optimal_settings offset_tuning s.edge mode_demod rate_in downsample_passes
              (get_or s.freqs next 0)
        some (record s { freq_now = next }, some (tuned, buffer_dump)))
