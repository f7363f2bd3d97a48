-- ===== src/Device/Control/Kept.antt =====
-- `rtlsdr_set_sample_rate` stores the rate that was asked for, and what is tuned after that keeps it.
use rtl_sdr_blog.Common.{
  Bool, Option, ap, false, none, refl, some, true, ℕ, ◌%◌, ◌*◌, ◌/◌, ◌^◌, ◌∙◌, ◌≡◌,
}
use rtl_sdr_blog.Common.Int.{i32, ℤ}
use rtl_sdr_blog.Common.Word.{nonzero}
use rtl_sdr_blog.State.{Dev, Host, M, get, ignore, modify, when, ◌>>=◌, ◌>>◌}
use rtl_sdr_blog.Usb.{set_bias_tee}
use rtl_sdr_blog.Usb.Frame.{
  IsApart, Stays, Stays-bind, Stays-demod_write_reg, Stays-fail, Stays-get, Stays-if, Stays-ignore,
  Stays-modify, Stays-or_stuck, Stays-pure, Stays-set_bias_tee_gpio, Stays-set_i2c_repeater,
  Stays-stuck, Stays-then, Stays-when, Within,
}
use rtl_sdr_blog.R82xx.Frame.{Stays-set_bandwidth}
use rtl_sdr_blog.Device.Codes.{attempt, return_code}
use rtl_sdr_blog.Device.Doubles.{Doubles, IsIeee}
use rtl_sdr_blog.Device.Clock.{set_sample_freq_correction}
use rtl_sdr_blog.Device.Center.{
  Core, center_freq_then, direct_sampling_then, retune, set_center_freq, switch_sampling,
  wants_direct,
}
use rtl_sdr_blog.Device.Center.Frame.{
  LeavesDevice, Stays-attempt, Stays-or, Stays-return_code, Stays-set_if_freq, Stays-switch_calls,
  Stays-tune,
}
use rtl_sdr_blog.Device.Tuner.{Tuner, r820t, r820t_core, r820t_core-LeavesDevice, r820t_set_bw}
use rtl_sdr_blog.Device.Rate.{is_supported, resample}
use rtl_sdr_blog.Device.Rate.Exact.{resample-exact}
use rtl_sdr_blog.Device.Control.{
  apply_bw, bandwidth, change_rate, offset_tuning_on, rate_writes, retune_if, set_offset_tuning,
  set_sample_rate,
}

-- What depends neither on the log and the tuner's record nor on what tuning sets.
pub record IsUntuned (P : Dev → Type 0) : Type 0 where
  pub apart : IsApart P
  pub freq : (d : Dev) (n : ℕ) → P d → P (record d { freq = n })
  pub direct_sampling : (d : Dev) (n : ℕ) → P d → P (record d { direct_sampling = n })
  pub offs_freq : (d : Dev) (n : ℕ) → P d → P (record d { offs_freq = n })

abbrev pub NullOrSets : {A : Type 0} → (Dev → Type 0) → Option (A → M (Unit {0})) → Type 0
NullOrSets P none = Unit
NullOrSets P (some f) = (a : _) → Stays P (f a)

-- The tuner's functions leave alone what tuning does not set.
pub record LeavesUntuned (tuner : Tuner) : Type 1 where
  pub core : LeavesDevice tuner.core
  pub set_bw : (P : Dev → Type 0) → IsUntuned P → NullOrSets P tuner.set_bw

module _ {P : Dev → Type 0} (untuned : IsUntuned P) (host : Host) (doubles : Doubles) where
  abbrev apart : IsApart P
  apart = untuned.apart

  module _ (core : Core) (leaves : LeavesDevice core) where
    Stays-switch_sampling : (on : ℕ) → Stays P (switch_sampling host doubles core on)
    unfolding switch_sampling
    Stays-switch_sampling on =
        Stays-bind (Stays-attempt (Stays-switch_calls apart host doubles core leaves on)) λ r.
          Stays-then (Stays-modify _ λ d p. untuned.direct_sampling d on p) (Stays-return_code r)

    Stays-center_freq_then :
        (again : ℕ → M (Unit {0}))
        → ((f : ℕ) → Stays P (again f))
        → (freq : ℕ) → Stays P (center_freq_then host doubles core again freq)
    unfolding center_freq_then retune direct_sampling_then
    Stays-center_freq_then again h freq = Stays-bind Stays-get λ last.
        Stays-then (Stays-when _ (Stays-fail _)) (
          Stays-then
            (Stays-when _ (Stays-modify _ λ d p. untuned.direct_sampling d (wants_direct d freq) p))
            (Stays-bind (Stays-attempt (Stays-tune apart host doubles core leaves freq)) λ r.
              Stays-then (Stays-modify _ λ d p. untuned.freq d _ p) (
                Stays-bind Stays-get λ d. Stays-if _ (Stays-return_code r) (
                  Stays-or (Stays-switch_sampling d.direct_sampling)
                    (Stays-bind Stays-get λ e. h e.freq)))))

    pub Stays-set_center_freq : (freq : ℕ) → Stays P (set_center_freq host doubles core freq)
    unfolding set_center_freq
    Stays-set_center_freq =
        Stays-center_freq_then _
          (Stays-center_freq_then _ (Stays-center_freq_then _ λ f. Stays-stuck))

  module _ (tuner : Tuner) (leaves : LeavesUntuned tuner) where
    Stays-apply_bw :
        (o : Option (ℤ → M (Unit {0}))) (bw : ℤ)
        → NullOrSets P o
        → Stays P (apply_bw host doubles tuner o bw)
    unfolding apply_bw
    Stays-apply_bw none bw h = Stays-pure tt
    Stays-apply_bw (some set_bw) bw h =
        Stays-then (Stays-set_i2c_repeater apart host true)
          (Stays-then (Stays-ignore (h bw)) (Stays-set_i2c_repeater apart host false))

    Stays-offset_tuning_on : (on : Bool) → Stays P (offset_tuning_on host doubles tuner on)
    unfolding offset_tuning_on retune_if
    Stays-offset_tuning_on on = Stays-then (Stays-modify _ λ d p. untuned.offs_freq d _ p) (
        Stays-or (Stays-bind Stays-get λ d. Stays-set_if_freq apart host doubles d.offs_freq) (
          Stays-bind Stays-get λ d.
            Stays-then (Stays-apply_bw tuner.set_bw _ (leaves.set_bw P untuned)) (
              Stays-bind Stays-get
                λ e. Stays-when _ (Stays-set_center_freq tuner.core leaves.core e.freq))))

    Stays-set_offset_tuning : (on : Bool) → Stays P (set_offset_tuning host doubles tuner on)
    unfolding set_offset_tuning set_bias_tee
    Stays-set_offset_tuning on = Stays-bind Stays-get λ d.
        Stays-if _ (Stays-then (Stays-set_bias_tee_gpio apart host 0 on) (Stays-fail 1))
          (Stays-if _ (Stays-fail 2) (Stays-offset_tuning_on on))

    Stays-rate_writes : (ratio : ℕ) → Stays P (rate_writes host doubles tuner ratio)
    unfolding rate_writes set_sample_freq_correction
    Stays-rate_writes ratio =
        Stays-or
          (Stays-or
            (Stays-or
              (Stays-or (Stays-demod_write_reg apart host _ _ _ 2)
                (Stays-demod_write_reg apart host _ _ _ 2))
              (Stays-bind Stays-get λ d. Stays-bind (Stays-or_stuck _) λ offs.
                Stays-or (Stays-demod_write_reg apart host _ _ _ 1)
                  (Stays-demod_write_reg apart host _ _ _ 1)))
            (Stays-demod_write_reg apart host _ _ _ 1))
          (Stays-demod_write_reg apart host _ _ _ 1)

    -- After the rate is stored.
    Stays-after_rate :
        (ratio : ℕ)
        → Stays P (do
          d ← get
          apply_bw host doubles tuner tuner.set_bw (i32 (bandwidth d))
          r ← attempt (rate_writes host doubles tuner ratio)
          e ← get
          when (nonzero e.offs_freq) (ignore (set_offset_tuning host doubles tuner true))
          return_code r)
    Stays-after_rate ratio = Stays-bind Stays-get λ d.
        Stays-then (Stays-apply_bw tuner.set_bw _ (leaves.set_bw P untuned)) (
          Stays-bind (Stays-attempt (Stays-rate_writes ratio)) λ r. Stays-bind Stays-get λ e.
            Stays-then (Stays-when _ (Stays-ignore (Stays-set_offset_tuning true)))
              (Stays-return_code r))

rate-IsUntuned : (rate : ℕ) → IsUntuned (λ e. e.rate ≡ rate)
rate-IsUntuned rate = record {
  apart = record { log = λ e t r p. p; r82xx = λ e q p. p; e4k = λ e k p. p };
  freq = λ d n p. p;
  direct_sampling = λ d n p. p;
  offs_freq = λ d n p. p;
}

module _ (host : Host) (doubles : Doubles) where
  pub r820t-LeavesUntuned : LeavesUntuned (r820t doubles host)
  unfolding r820t_set_bw
  r820t-LeavesUntuned = record {
    core = r820t_core-LeavesDevice doubles host;
    set_bw = λ P untuned bw. Stays-bind (Stays-set_bandwidth untuned.apart host bw) λ if_freq.
        Stays-then (Stays-set_if_freq untuned.apart host doubles if_freq) (
          Stays-bind Stays-get λ d.
            Stays-set_center_freq untuned host doubles (r820t_core doubles host)
              (r820t_core-LeavesDevice doubles host) d.freq);
  }

  module _ (tuner : Tuner) (leaves : LeavesUntuned tuner) (ieee : IsIeee doubles) where
    -- With the crystal of 28.8 MHz, exact quotients and a tuner whose functions leave alone what
    -- tuning does not set, in each state that setting a supported sample rate returns in, with an
    -- error or without, the rate is the one asked for: the tuner's bandwidth, the offset tuning
    -- and the retuning that it calls all keep it.
    pub set_sample_rate-stores :
        (rate : ℕ) (d : Dev)
        → is_supported rate ≡ true
        → d.rtl_xtal ≡ 28800000
        → Within (λ e. e.rate ≡ rate) (set_sample_rate host doubles tuner rate d)
    unfolding set_sample_rate get change_rate modify
    set_sample_rate-stores rate d h xtal =
        rw (h, resampled)
          ((Stays-after_rate (rate-IsUntuned rate) host doubles tuner leaves _).run
            (record d { rate = rate }) refl)
      where
        resampled :
            resample doubles d.rtl_xtal rate ≡ some (120795955200000 / rate / 4 * 4 % 2 ^ 28, rate)
        resampled = ap (λ x. resample doubles x rate) xtal ∙ (resample-exact rate h doubles ieee).1
