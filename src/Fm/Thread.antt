-- ===== src/Fm/Thread.antt =====
-- src/rtl_fm.c: the callback of the dongle, and what the thread of the demodulator does with each
-- buffer.
pub mod Hops
mod Tests
use mathlib.Core.Option
use rtl_sdr_blog.Common.{
  Bool, List, Option, [], false, get_or, if◌then◌else◌, leb, length, ltb, map, none, not, some, suc,
  true, zero, ℕ, ◌%◌, ◌&&◌, ◌*◌, ◌+◌, ◌==◌, ◌∷◌,
}
use rtl_sdr_blog.Common.Int.{is_pos, ltb_ℤ, pos, pos_part, ℤ, ◌*ℤ◌, ◌+ℤ◌, ◌-ℤ◌}
use rtl_sdr_blog.Common.Cint.{i16, is_null, ◌>>=◌}
use rtl_sdr_blog.Fm.Filter.{Iq, LowPass, LowPassReal, low_pass, low_pass_real, rotate_90}
use rtl_sdr_blog.Fm.Fir.{FifthHist, FirHist, cic_9_tables, fifth_order, generic_fir}
use rtl_sdr_blog.Fm.Demod.{
  Float, am_demod, dc_block_filter, deemph_filter, fm_demod, lsb_demod, raw_demod, usb_demod,
}

-- The fields of `struct dongle_state` that the callback uses.
pub record Dongle : Type 0 where
  pub offset_tuning : Bool
  pub mute : ℕ

-- The first `mute` bytes; `none` where there are fewer.
unfoldable pub muted : ℕ → List (ℕ × ℕ) → Option (List (ℕ × ℕ))
muted zero buf = some buf
muted (suc n) [] = none
muted (suc zero) ((i, q) ∷ buf) = some ((127, q) ∷ buf)
muted (suc (suc n)) ((i, q) ∷ buf) = Option.map (λ rest. (127, 127) ∷ rest) (muted n buf)

abbrev pub centred : List (ℕ × ℕ) → List Iq
centred [] = []
centred ((i, q) ∷ buf) = (pos i -ℤ pos 127, pos q -ℤ pos 127) ∷ centred buf

-- The dongle after it, and what is handed to the demodulator.
unfoldable pub callback : Dongle → List (ℕ × ℕ) → Option (Dongle × List Iq)
callback s buf = do
  heard ← muted s.mute buf
  turned ← if s.offset_tuning then some heard else rotate_90 heard
  some (record s { mute = 0 }, centred turned)

pub data Mode : Type 0 where
  fm : Mode
  am : Mode
  usb : Mode
  lsb : Mode
  raw : Mode

-- The fields of `struct demod_state` that the thread only reads.
pub record Settings : Type 0 where
  pub downsample : ℕ
  pub downsample_passes : ℕ
  pub comp_fir_size : ℕ
  pub squelch_level : ℤ
  pub conseq_squelch : ℕ
  pub mode_demod : Mode
  pub custom_atan : ℕ
  pub output_scale : ℤ
  pub post_downsample : ℕ
  pub deemph : Bool
  pub deemph_a : ℕ
  pub dc_block : Bool
  pub rate_out : ℕ
  pub rate_out2 : ℤ

-- The fields that it keeps between buffers: those of the filters in front of the squelch,
pub record Front : Type 0 where
  pub boxcar : LowPass
  pub lp_i_hist : List FifthHist
  pub lp_q_hist : List FifthHist
  pub droop_i_hist : FirHist
  pub droop_q_hist : FirHist

-- those of the filters of the result, with `avg`, a static variable of `deemph_filter`,
pub record Back : Type 0 where
  pub avg : ℤ
  pub dc_avg : ℤ
  pub resampler : LowPassReal

-- and the rest.
pub record DemodState : Type 0 where
  pub front : Front
  pub squelch_hits : ℕ
  pub pre : Iq
  pub back : Back

-- The passes over one half of the data. `none` past the histories, and for an odd number of values,
-- where the halves of the source no longer end together.
unfoldable pub fifth_passes : ℕ → List FifthHist → List ℤ → Option (List FifthHist × List ℤ)
fifth_passes zero hists half = some (hists, half)
fifth_passes (suc n) [] half = none
fifth_passes (suc n) (hist ∷ hists) half = do
  pass ← if length half % 2 == 0 then fifth_order hist half else none
  rest ← fifth_passes n hists pass.1
  some (pass.0 ∷ rest.0, rest.1)

-- Two halves, interleaved.
abbrev pub interleaved : List ℤ → List ℤ → List Iq
interleaved [] qs = []
interleaved (i ∷ is) [] = []
interleaved (i ∷ is) (q ∷ qs) = (i, q) ∷ interleaved is qs

abbrev pub cic_table_max : ℕ
cic_table_max = 10

abbrev pub levelled : Settings → FirHist → List ℤ → Option (FirHist × List ℤ)
levelled c hist half =
    if c.comp_fir_size == 9 && leb c.downsample_passes cic_table_max
    then generic_fir (get_or cic_9_tables c.downsample_passes []) hist half
    else some (hist, half)

-- The filters in front of the squelch.
unfoldable pub narrowed : Settings → Front → List Iq → Option (Front × List Iq)
narrowed c d lowpassed =
    if c.downsample_passes == 0
    then (let low = low_pass c.downsample d.boxcar lowpassed in
        some (record d { boxcar = low.0 }, low.1))
    else (do
      i_pass ← fifth_passes c.downsample_passes d.lp_i_hist (map (λ s. s.0) lowpassed)
      q_pass ← fifth_passes c.downsample_passes d.lp_q_hist (map (λ s. s.1) lowpassed)
      i_level ← levelled c d.droop_i_hist i_pass.1
      q_level ← levelled c d.droop_q_hist q_pass.1
      some (
        record {
          boxcar = d.boxcar;
          lp_i_hist = i_pass.0;
          lp_q_hist = q_pass.0;
          droop_i_hist = i_level.0;
          droop_q_hist = q_level.0;
        },
        interleaved i_level.1 q_level.1,
      ))

-- `p` and `t` of `rms`.
abbrev pub squares : List Iq → ℤ
squares [] = pos 0
squares ((i, q) ∷ samples) = i *ℤ i +ℤ q *ℤ q +ℤ squares samples

abbrev pub sum_of : List Iq → ℤ
sum_of [] = pos 0
sum_of ((i, q) ∷ samples) = i +ℤ q +ℤ sum_of samples

-- `rms` computes its result in `double` from two sums and the number of values: a parameter.
module _ (level : ℤ → ℤ → ℕ → ℤ) where
  unfoldable pub rms : List Iq → ℤ
  rms samples = level (squares samples) (sum_of samples) (2 * length samples)

  abbrev pub is_quiet : Settings → List Iq → Bool
  is_quiet c lowpassed = ltb_ℤ (rms lowpassed) c.squelch_level

  abbrev pub silence : List Iq → List Iq
  silence lowpassed = map (λ s. (pos 0, pos 0)) lowpassed

  unfoldable pub squelch : Settings → ℕ → List Iq → ℕ × List Iq
  squelch c squelch_hits lowpassed =
      if is_null c.squelch_level
      then (squelch_hits, lowpassed)
      else if is_quiet c lowpassed
      then (squelch_hits + 1, silence lowpassed)
      else (0, lowpassed)

-- `none` where the last sum is not of `step` values.
unfoldable pub low_pass_simple_from : ℕ → ℕ → ℤ → List ℤ → Option (List ℤ)
low_pass_simple_from step i2 sum [] = if i2 == 0 then some [] else none
low_pass_simple_from step i2 sum (x ∷ signal2) =
    let whole = i2 + 1 == step in
    let i2' = if whole then 0 else i2 + 1 in
    let sum' = if whole then pos 0 else sum +ℤ x in
    let rest = low_pass_simple_from step i2' sum' signal2 in
    if whole then Option.map (λ sums. i16 (sum +ℤ x) ∷ sums) rest else rest

unfoldable pub low_pass_simple : ℕ → List ℤ → Option (List ℤ)
low_pass_simple step signal2 = low_pass_simple_from step 0 (pos 0) signal2

-- The filters of the result.
unfoldable pub smoothed : Settings → Back → List ℤ → Option (Back × List ℤ)
smoothed c d result = do
  summed ← if ltb 1 c.post_downsample then low_pass_simple c.post_downsample result else some result
  let bass = if c.deemph then deemph_filter c.deemph_a d.avg summed else (d.avg, summed)
  blocked ← if c.dc_block then dc_block_filter d.dc_avg bass.1 else some (d.dc_avg, bass.1)
  resampled ←
      (if is_pos c.rate_out2
        then low_pass_real c.rate_out (pos_part c.rate_out2) d.resampler blocked.1
        else some (d.resampler, blocked.1))
  some (record { avg = bass.0; dc_avg = blocked.0; resampler = resampled.0 }, resampled.1)

abbrev pub is_raw : Mode → Bool
is_raw raw = true
is_raw fm = false
is_raw am = false
is_raw usb = false
is_raw lsb = false

-- What a round of `demod_thread_fn` ends with.
pub data Round : Type 0 where
  hop : Round
  put_out : List ℤ → Round

module _ (float : Float) (atan_lut : List ℤ) (level : ℤ → ℤ → ℕ → ℤ) where
  unfoldable pub demodulated : Mode → Settings → Iq → List Iq → Option (Iq × List ℤ)
  demodulated fm c pre lp = fm_demod float atan_lut c.custom_atan pre lp
  demodulated am c pre lp = some (pre, am_demod float atan_lut c.output_scale lp)
  demodulated usb c pre lp = some (pre, usb_demod c.output_scale lp)
  demodulated lsb c pre lp = some (pre, lsb_demod c.output_scale lp)
  demodulated raw c pre lp = some (pre, raw_demod lp)

  unfoldable pub full_demod : Settings → DemodState → List Iq → Option (DemodState × List ℤ)
  full_demod c d lowpassed = do
    low ← narrowed c d.front lowpassed
    let heard = squelch level c d.squelch_hits low.1
    out ← demodulated c.mode_demod c d.pre heard.1
    fine ← if is_raw c.mode_demod then some (d.back, out.1) else smoothed c d.back out.1
    some (record { front = low.0; squelch_hits = heard.0; pre = out.0; back = fine.0 }, fine.1)

  abbrev pub ends : Settings → DemodState → List ℤ → DemodState × Round
  ends c d result =
      if not (is_null c.squelch_level) && ltb c.conseq_squelch d.squelch_hits
      then (record d { squelch_hits = c.conseq_squelch + 1 }, hop)
      else (d, put_out result)

  unfoldable pub demod_round : Settings → DemodState → List Iq → Option (DemodState × Round)
  demod_round c d lowpassed = do demod ← full_demod c d lowpassed; some (ends c demod.0 demod.1)
