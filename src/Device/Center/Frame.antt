-- ===== src/Device/Center/Frame.antt =====
-- What tuning leaves alone.
use rtl_sdr_blog.Common.{Option, false, none, some, true, ℕ}
use rtl_sdr_blog.State.{Dev, Host, M, Res, TunerType, err, fault, ok}
use rtl_sdr_blog.Usb.Frame.{
  IsApart, Stays, Stays-bind, Stays-demod_write_reg, Stays-fail, Stays-get, Stays-if,
  Stays-or_stuck, Stays-pure, Stays-set_i2c_repeater, Stays-stuck, Stays-then, Stays-when, Within,
}
use rtl_sdr_blog.Device.Codes.{Code, attempt, minus, or_code, return_code, zero_code, ◌|=◌}
use rtl_sdr_blog.Device.Doubles.{Doubles}
use rtl_sdr_blog.Device.Clock.{set_if_freq}
use rtl_sdr_blog.Device.Center.{
  Core, direct_writes, switch_calls, tune, tune_with, tuner_writes, with_repeater,
}

module _ {P : Dev → Type 0} where
  pub Stays-attempt : {m : M (Unit {0})} → Stays P m → Stays P (attempt m)
  Stays-attempt {m} h = record { run = λ d p. on_result (m d) (h.run d p) }
    where
      on_result :
          (r : Res (Unit {0}))
          → Within P r
          → Within {A = Code} P
              (elim r [ ok a e ↦ ok zero_code e | err n e ↦ ok (minus n) e | fault ↦ fault ])
      on_result (ok a e) q = q
      on_result (err n e) q = q
      on_result fault q = q

  pub Stays-return_code : (c : Code) → Stays P (return_code c)
  Stays-return_code zero_code = Stays-pure tt
  Stays-return_code (minus n) = Stays-fail n

  pub Stays-or : {m k : M (Unit {0})} → Stays P m → Stays P k → Stays P (m |= k)
  Stays-or h k =
      Stays-bind (Stays-attempt h)
        λ r. Stays-bind (Stays-attempt k) λ s. Stays-return_code (or_code r s)

-- The tuner's functions are null, or leave alone what is apart from the log and the tuner's record.
abbrev pub NullOrStays : (Dev → Type 0) → Option (M (Unit {0})) → Type 0
NullOrStays P none = Unit
NullOrStays P (some m) = Stays P m

abbrev pub NullOrTunes : (Dev → Type 0) → Option (ℕ → M (Unit {0})) → Type 0
NullOrTunes P none = Unit
NullOrTunes P (some f) = (freq : ℕ) → Stays P (f freq)

pub record LeavesDevice (core : Core) : Type 1 where
  pub init : (P : Dev → Type 0) → IsApart P → NullOrStays P core.init
  pub exit : (P : Dev → Type 0) → IsApart P → NullOrStays P core.exit
  pub set_freq : (P : Dev → Type 0) → IsApart P → NullOrTunes P core.set_freq

module _ {P : Dev → Type 0} (apart : IsApart P) (host : Host) (doubles : Doubles) where
  pub Stays-set_if_freq : (freq : ℕ) → Stays P (set_if_freq doubles host freq)
  unfolding set_if_freq
  Stays-set_if_freq freq = Stays-bind Stays-get λ d. Stays-then (Stays-when _ Stays-stuck) (
      Stays-bind (Stays-or_stuck _) λ if_freq.
        Stays-or
          (Stays-or (Stays-demod_write_reg apart host _ _ _ 1)
            (Stays-demod_write_reg apart host _ _ _ 1))
          (Stays-demod_write_reg apart host _ _ _ 1))

  module _ (core : Core) where
    Stays-with_repeater :
        (o : Option (M (Unit {0}))) → NullOrStays P o → Stays P (with_repeater host doubles core o)
    unfolding with_repeater
    Stays-with_repeater none h = Stays-pure tt
    Stays-with_repeater (some m) h = Stays-then (Stays-set_i2c_repeater apart host true) (
        Stays-bind (Stays-attempt h)
          λ r. Stays-then (Stays-set_i2c_repeater apart host false) (Stays-return_code r))

    Stays-direct_writes : (on : ℕ) → Stays P (direct_writes host doubles core on)
    unfolding direct_writes
    Stays-direct_writes on =
        Stays-or
          (Stays-or
            (Stays-or (Stays-demod_write_reg apart host _ _ _ 1)
              (Stays-demod_write_reg apart host _ _ _ 1))
            (Stays-demod_write_reg apart host _ _ _ 1))
          (Stays-demod_write_reg apart host _ _ _ 1)

    Stays-tuner_writes : (type : TunerType) → Stays P (tuner_writes host doubles core type)
    unfolding tuner_writes
    Stays-tuner_writes type =
        Stays-or
          (Stays-if _ (Stays-or (Stays-set_if_freq _) (Stays-demod_write_reg apart host _ _ _ 1)) (
            Stays-or (Stays-or (Stays-set_if_freq _) (Stays-demod_write_reg apart host _ _ _ 1))
              (Stays-demod_write_reg apart host _ _ _ 1)))
          (Stays-demod_write_reg apart host _ _ _ 1)

    Stays-tune_with :
        (o : Option (ℕ → M (Unit {0}))) (freq : ℕ)
        → NullOrTunes P o
        → Stays P (tune_with host doubles core o freq)
    unfolding tune_with
    Stays-tune_with none freq h = Stays-fail 0
    Stays-tune_with (some f) freq h = Stays-then (Stays-set_i2c_repeater apart host true) (h freq)

    pub Stays-tune : LeavesDevice core → (freq : ℕ) → Stays P (tune host doubles core freq)
    unfolding tune
    Stays-tune leaves freq = Stays-bind Stays-get λ d.
        Stays-if _ (Stays-then (Stays-set_i2c_repeater apart host false) (Stays-set_if_freq freq))
          (Stays-tune_with core.set_freq _ (leaves.set_freq P apart))

    pub Stays-switch_calls :
        LeavesDevice core → (on : ℕ) → Stays P (switch_calls host doubles core on)
    unfolding switch_calls
    Stays-switch_calls leaves on =
        Stays-if _
          (Stays-or (Stays-with_repeater core.exit (leaves.exit P apart)) (Stays-direct_writes on))
          (Stays-or (Stays-with_repeater core.init (leaves.init P apart))
            (Stays-bind Stays-get λ d. Stays-tuner_writes d.tuner_type))
