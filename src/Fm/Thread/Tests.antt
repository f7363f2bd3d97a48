-- ===== src/Fm/Thread/Tests.antt =====
-- Runs of the thread of the demodulator, and the theorem at a concrete run.
use rtl_sdr_blog.Common.{List, [], arith, false, refl, some, true, ℕ, ◌∷◌, ◌≡◌, ◌≤◌}
use rtl_sdr_blog.Common.Int.{negsuc, pos, ℤ, ◌*ℤ◌, ◌+ℤ◌}
use rtl_sdr_blog.Common.Cint.{i16}
use rtl_sdr_blog.Fm.Filter.{Iq, low_pass, low_pass_step}
use rtl_sdr_blog.Fm.Fir.{FirHist}
use rtl_sdr_blog.Fm.Demod.{Float, usb_demod}
use rtl_sdr_blog.Fm.Thread.{
  DemodState, Settings, demod_round, demodulated, full_demod, hop, low_pass_simple,
  low_pass_simple_from, muted, narrowed, put_out, rms, smoothed, squelch, usb,
}
use rtl_sdr_blog.Fm.Thread.Hops.{Rounds, Rounds-unlimited, round, stay, unlimited}

abbrev no_float : Float
no_float = record { polar_discriminant = λ ar aj br bj. pos 0; sqrt = λ x. x }

-- The power, in place of its root.
abbrev power : ℤ → ℤ → ℕ → ℤ
power p t len = p

abbrev settings : Settings
settings = record {
  downsample = 2;
  downsample_passes = 0;
  comp_fir_size = 0;
  squelch_level = pos 10;
  conseq_squelch = 1;
  mode_demod = usb;
  custom_atan = 0;
  output_scale = pos 1;
  post_downsample = 2;
  deemph = false;
  deemph_a = 1;
  dc_block = false;
  rate_out = 24000;
  rate_out2 = negsuc 0;
}

abbrev no_hist : FirHist
no_hist = record {
  f0 = pos 0;
  f1 = pos 0;
  f2 = pos 0;
  f3 = pos 0;
  f4 = pos 0;
  f5 = pos 0;
  f6 = pos 0;
  f7 = pos 0;
  f8 = pos 0;
}

abbrev counted : ℕ → DemodState
counted hits = record {
  front = record {
    boxcar = record { now_r = pos 0; now_j = pos 0; prev_index = 0 };
    lp_i_hist = [];
    lp_q_hist = [];
    droop_i_hist = no_hist;
    droop_q_hist = no_hist;
  };
  squelch_hits = hits;
  pre = (pos 0, pos 0);
  back = record {
    avg = pos 0;
    dc_avg = pos 0;
    resampler = record { now_lpr = pos 0; prev_lpr_index = 0 };
  };
}

abbrev four_of : ℤ → List Iq
four_of x = (x, x) ∷ (x, x) ∷ (x, x) ∷ (x, x) ∷ []

abbrev two_of : ℤ → List Iq
two_of x = (x, x) ∷ (x, x) ∷ []

loud_narrow :
    narrowed settings (counted 2).front (four_of (pos 3)) ≡ some ((counted 2).front, two_of (pos 6))
unfolding narrowed low_pass low_pass_step ◌+ℤ◌ i16
loud_narrow = refl

quiet_narrow :
    narrowed settings (counted 0).front (four_of (pos 0)) ≡ some ((counted 0).front, two_of (pos 0))
unfolding narrowed low_pass low_pass_step ◌+ℤ◌ i16
quiet_narrow = refl

loud_round :
    demod_round no_float [] power settings (counted 2) (four_of (pos 3))
    ≡ some (counted 0, put_out (pos 24 ∷ []))
unfolding demod_round full_demod narrowed low_pass low_pass_step squelch rms demodulated usb_demod
    smoothed low_pass_simple low_pass_simple_from ◌+ℤ◌ ◌*ℤ◌ i16
loud_round = refl

quiet_first :
    demod_round no_float [] power settings (counted 0) (four_of (pos 0))
    ≡ some (counted 1, put_out (pos 0 ∷ []))
unfolding demod_round full_demod narrowed low_pass low_pass_step squelch rms demodulated usb_demod
    smoothed low_pass_simple low_pass_simple_from ◌+ℤ◌ ◌*ℤ◌ i16
quiet_first = refl

quiet_second :
    demod_round no_float [] power settings (counted 1) (four_of (pos 0)) ≡ some (counted 2, hop)
unfolding demod_round full_demod narrowed low_pass low_pass_step squelch rms demodulated usb_demod
    smoothed low_pass_simple low_pass_simple_from ◌+ℤ◌ ◌*ℤ◌ i16
quiet_second = refl

quiet_later :
    demod_round no_float [] power settings (counted 2) (four_of (pos 0)) ≡ some (counted 2, hop)
unfolding demod_round full_demod narrowed low_pass low_pass_step squelch rms demodulated usb_demod
    smoothed low_pass_simple low_pass_simple_from ◌+ℤ◌ ◌*ℤ◌ i16
quiet_later = refl

-- A loud buffer after quiet ones, then three quiet ones.
heard :
    Rounds no_float [] power settings
      (counted 2)
      (false ∷ true ∷ true ∷ true ∷ [])
      (false ∷ false ∷ true ∷ true ∷ [])
      (counted 2)
unfolding rms ◌+ℤ◌ ◌*ℤ◌
heard = round (four_of (pos 3)) (two_of (pos 6)) loud_narrow loud_round (
    round (four_of (pos 0)) (two_of (pos 0)) quiet_narrow quiet_first (
      round (four_of (pos 0)) (two_of (pos 0)) quiet_narrow quiet_second
        (round (four_of (pos 0)) (two_of (pos 0)) quiet_narrow quiet_later stay)))

Rounds-unlimited_example :
    ((false ∷ false ∷ true ∷ true ∷ []) ≡ unlimited 1 2 (false ∷ true ∷ true ∷ true ∷ [])) × (2 ≤ 2)
Rounds-unlimited_example =
    Rounds-unlimited no_float [] power settings refl (counted 2) (counted 2)
      (false ∷ true ∷ true ∷ true ∷ []) (false ∷ false ∷ true ∷ true ∷ []) heard (omega arith)

-- The first bytes after a hop are muted.
muted_start : muted 3 ((1, 2) ∷ (3, 4) ∷ (5, 6) ∷ []) ≡ some ((127, 127) ∷ (127, 4) ∷ (5, 6) ∷ [])
unfolding muted
muted_start = refl
