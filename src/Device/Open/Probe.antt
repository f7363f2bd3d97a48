-- ===== src/Device/Open/Probe.antt =====
-- The probing recognises each tuner.
use rtl_sdr_blog.Common.{
  Bool, ap, arith, bit_and, false, if◌then◌else◌, refl, true, ℕ, ◌==◌, ◌∷◌, ◌≡◌, ◌≢◌,
}
use rtl_sdr_blog.Common.Word.{u8}
use rtl_sdr_blog.State.{
  Dev, Host, Log, M, Reply, TunerType, done, failed, ok, pure, tuner_e4000, tuner_fc0012,
  tuner_fc0013, tuner_fc2580, tuner_r820t, tuner_r828d, tuner_unknown, ◌>>=◌, ◌>>◌,
}
use rtl_sdr_blog.Usb.{byte_or, i2c_read_reg, set_gpio_bit, set_gpio_output}
use rtl_sdr_blog.E4k.Iface.{e4k_i2c_addr}
use rtl_sdr_blog.E4k.Field.{byte_in, register_out}
use rtl_sdr_blog.Fc0012.{fc0012_i2c_addr}
use rtl_sdr_blog.Fc0013.{fc0013_i2c_addr}
use rtl_sdr_blog.Fc2580.{fc2580_i2c_addr}
use rtl_sdr_blog.Device.Open.{
  checks, checks_fc2580, probe, probe_late, r820t_i2c_addr, r828d_i2c_addr,
}
use rtl_sdr_blog.Device.Open.Calls.{
  Gives, Gives-bind, Gives-i2c_read_reg, Gives-set_gpio_bit, Gives-set_gpio_output, named,
}

-- A tuner at an I2C address, with a byte in the register that is checked, and none elsewhere.
pub record HasTuner (host : Host) (addr reg val : ℕ) : Type 0 where
  pub gives :
      (log : Log) (r : Reply)
      → host.answer (record { transfer = register_out addr reg; reply = r } ∷ log) (byte_in addr)
        ≡ done 1 (λ i. val)
  pub alone :
      (log : Log) (other : ℕ)
      → other ≢ addr
      → (n : ℕ) × (host.answer log (byte_in other) ≡ failed n)

-- The address and the register where a tuner is checked, with its value.
abbrev pub identity : TunerType → ℕ × ℕ × ℕ
identity tuner_unknown = (0, 0, 0)
identity tuner_e4000 = (e4k_i2c_addr, 0x02, 0x40)
identity tuner_fc0012 = (fc0012_i2c_addr, 0x00, 0xa1)
identity tuner_fc0013 = (fc0013_i2c_addr, 0x00, 0xa3)
identity tuner_fc2580 = (fc2580_i2c_addr, 0x01, 0x56)
identity tuner_r820t = (r820t_i2c_addr, 0x00, 0x69)
identity tuner_r828d = (r828d_i2c_addr, 0x00, 0x69)

module _ (host : Host) where
  module _ (addr reg val : ℕ) (tuner : HasTuner host addr reg val) where
    here : Gives (i2c_read_reg host addr reg) (u8 val)
    here =
        Gives-i2c_read_reg host addr reg (u8 val) λ d.
          ap (λ r. byte_or r 0 0) (tuner.gives d.log (host.answer d.log (register_out addr reg)))

    away : (other reg' : ℕ) → other ≢ addr → Gives (i2c_read_reg host other reg') 0
    away other reg' h =
        Gives-i2c_read_reg host other reg' 0
          λ d. ap (λ r. byte_or r 0 0) (tuner.alone (named host other reg' d).log other h).1

    -- A check at the tuner's register, and one at another address.
    checks_here : (v : ℕ) (b : Bool) → (u8 val == v) ≡ b → Gives (checks host addr reg v) b
    unfolding checks
    checks_here v b h d =
        Gives-bind (i2c_read_reg host addr reg) (u8 val) (λ found. pure (found == v)) b here
          (λ e. (e, ap (λ c. ok c e) h)) d

    checks_away :
        (other reg' v : ℕ)
        → other ≢ addr
        → (0 == v) ≡ false
        → Gives (checks host other reg' v) false
    unfolding checks
    checks_away other reg' v h differs d =
        Gives-bind (i2c_read_reg host other reg') 0 (λ found. pure (found == v)) false
          (away other reg' h) (λ e. (e, ap (λ c. ok c e) differs)) d

    fc2580_away : fc2580_i2c_addr ≢ addr → Gives (checks_fc2580 host) false
    unfolding checks_fc2580
    fc2580_away h d =
        Gives-bind (i2c_read_reg host fc2580_i2c_addr 0x01) 0
          (λ found. pure (bit_and found 0x7f == 0x56)) false (away fc2580_i2c_addr 0x01 h)
          (λ e. (e, refl)) d

    -- A step of the probing that finds nothing, and one that does.
    goes_on :
        (m : M Bool) (t : TunerType) (rest : M TunerType) (found : TunerType)
        → Gives m false
        → Gives rest found
        → Gives (m >>= λ b. if b then pure t else rest) found
    goes_on m t rest found h k = Gives-bind m false (λ b. if b then pure t else rest) found h k

    stops :
        (m : M Bool) (t : TunerType) (rest : M TunerType)
        → Gives m true
        → Gives (m >>= λ b. if b then pure t else rest) t
    stops m t rest h = Gives-bind m true (λ b. if b then pure t else rest) t h (λ d. (d, refl))

  -- What is left of the probing from a tuner on.
  abbrev from_r828d : M TunerType
  from_r828d = do
    is_r828d ← checks host r828d_i2c_addr 0x00 0x69
    if is_r828d then pure tuner_r828d else probe_late host

  abbrev from_r820t : M TunerType
  from_r820t = do
    is_r820t ← checks host r820t_i2c_addr 0x00 0x69
    if is_r820t then pure tuner_r820t else from_r828d

  abbrev from_fc0013 : M TunerType
  from_fc0013 = do
    is_fc0013 ← checks host fc0013_i2c_addr 0x00 0xa3
    if is_fc0013 then pure tuner_fc0013 else from_r820t

  abbrev from_fc0012 : M TunerType
  from_fc0012 = do
    is_fc0012 ← checks host fc0012_i2c_addr 0x00 0xa1
    if is_fc0012 then (do set_gpio_output host 6; pure tuner_fc0012) else pure tuner_unknown

  abbrev from_fc2580 : M TunerType
  from_fc2580 = do
    is_fc2580 ← checks_fc2580 host
    if is_fc2580 then pure tuner_fc2580 else from_fc0012

  after_reset : (t : TunerType) → Gives from_fc2580 t → Gives (probe_late host) t
  unfolding probe_late
  after_reset t h d =
      Gives-bind (set_gpio_output host 4) tt
        (λ u. set_gpio_bit host 4 true >> (set_gpio_bit host 4 false >> from_fc2580)) t
        (Gives-set_gpio_output host 4)
        (λ e.
          Gives-bind (set_gpio_bit host 4 true) tt (λ u. set_gpio_bit host 4 false >> from_fc2580) t
            (Gives-set_gpio_bit host 4 true)
            (λ e'.
              Gives-bind (set_gpio_bit host 4 false) tt (λ u. from_fc2580) t
                (Gives-set_gpio_bit host 4 false) h e')
            e)
        d

  from_start :
      (t : TunerType)
      → Gives (checks host e4k_i2c_addr 0x02 0x40) false
      → Gives from_fc0013 t
      → Gives (probe host) t
  unfolding probe
  from_start t h k d =
      Gives-bind (checks host e4k_i2c_addr 0x02 0x40) false
        (λ b. if b then pure tuner_e4000 else from_fc0013) t h k d

  fc2580_here : HasTuner host fc2580_i2c_addr 0x01 0x56 → Gives (checks_fc2580 host) true
  unfolding checks_fc2580
  fc2580_here tuner d =
      Gives-bind (i2c_read_reg host fc2580_i2c_addr 0x01) 0x56
        (λ found. pure (bit_and found 0x7f == 0x56)) true (here fc2580_i2c_addr 0x01 0x56 tuner)
        (λ e. (e, refl)) d

  fc0012_found : HasTuner host fc0012_i2c_addr 0x00 0xa1 → Gives from_fc0012 tuner_fc0012
  fc0012_found tuner =
      Gives-bind (checks host fc0012_i2c_addr 0x00 0xa1) true
        (λ b. if b then set_gpio_output host 6 >> pure tuner_fc0012 else pure tuner_unknown)
        tuner_fc0012 (checks_here fc0012_i2c_addr 0x00 0xa1 tuner 0xa1 true refl)
        (Gives-bind (set_gpio_output host 6) tt (λ u. pure tuner_fc0012) tuner_fc0012
          (Gives-set_gpio_output host 6) (λ d. (d, refl)))

  -- On a dongle with one of the six supported tuners (a read after the number of its check
  -- register gives its check value, and reads at other I2C addresses fail), from any state and
  -- whatever all other transfers come to, the probing of `rtlsdr_open` returns that tuner.
  pub probe-identity :
      (t : TunerType)
      → t ≢ tuner_unknown
      → HasTuner host (identity t).0 (identity t).1 (identity t).2
      → (d : Dev) → (e : Dev) × (probe host d ≡ ok t e)
  unfolding probe
  probe-identity tuner_unknown h tuner = absurd (h refl)
  probe-identity tuner_e4000 h tuner =
      (stops e4k_i2c_addr 0x02 0x40 tuner (checks host e4k_i2c_addr 0x02 0x40) tuner_e4000
        from_fc0013 (checks_here e4k_i2c_addr 0x02 0x40 tuner 0x40 true refl))
  probe-identity tuner_fc0013 h tuner =
      from_start tuner_fc0013
        (checks_away fc0013_i2c_addr 0x00 0xa3 tuner e4k_i2c_addr 0x02 0x40 (omega arith) refl)
        (stops fc0013_i2c_addr 0x00 0xa3 tuner (checks host fc0013_i2c_addr 0x00 0xa3) tuner_fc0013
          from_r820t (checks_here fc0013_i2c_addr 0x00 0xa3 tuner 0xa3 true refl))
  probe-identity tuner_r820t h tuner =
      from_start tuner_r820t
        (checks_away r820t_i2c_addr 0x00 0x69 tuner e4k_i2c_addr 0x02 0x40 (omega arith) refl)
        (goes_on r820t_i2c_addr 0x00 0x69 tuner (checks host fc0013_i2c_addr 0x00 0xa3) tuner_fc0013
          from_r820t tuner_r820t
          (checks_away r820t_i2c_addr 0x00 0x69 tuner fc0013_i2c_addr 0x00 0xa3 (omega arith) refl)
          (stops r820t_i2c_addr 0x00 0x69 tuner (checks host r820t_i2c_addr 0x00 0x69) tuner_r820t
            from_r828d (checks_here r820t_i2c_addr 0x00 0x69 tuner 0x69 true refl)))
  probe-identity tuner_r828d h tuner =
      from_start tuner_r828d
        (checks_away r828d_i2c_addr 0x00 0x69 tuner e4k_i2c_addr 0x02 0x40 (omega arith) refl)
        (goes_on r828d_i2c_addr 0x00 0x69 tuner (checks host fc0013_i2c_addr 0x00 0xa3) tuner_fc0013
          from_r820t tuner_r828d
          (checks_away r828d_i2c_addr 0x00 0x69 tuner fc0013_i2c_addr 0x00 0xa3 (omega arith) refl)
          (goes_on r828d_i2c_addr 0x00 0x69 tuner (checks host r820t_i2c_addr 0x00 0x69) tuner_r820t
            from_r828d tuner_r828d
            (checks_away r828d_i2c_addr 0x00 0x69 tuner r820t_i2c_addr 0x00 0x69 (omega arith) refl)
            (stops r828d_i2c_addr 0x00 0x69 tuner (checks host r828d_i2c_addr 0x00 0x69) tuner_r828d
              (probe_late host) (checks_here r828d_i2c_addr 0x00 0x69 tuner 0x69 true refl))))
  probe-identity tuner_fc2580 h tuner =
      from_start tuner_fc2580
        (checks_away fc2580_i2c_addr 0x01 0x56 tuner e4k_i2c_addr 0x02 0x40 (omega arith) refl)
        (goes_on fc2580_i2c_addr 0x01 0x56 tuner (checks host fc0013_i2c_addr 0x00 0xa3)
          tuner_fc0013 from_r820t tuner_fc2580
          (checks_away fc2580_i2c_addr 0x01 0x56 tuner fc0013_i2c_addr 0x00 0xa3 (omega arith) refl)
          (goes_on fc2580_i2c_addr 0x01 0x56 tuner (checks host r820t_i2c_addr 0x00 0x69)
            tuner_r820t from_r828d tuner_fc2580
            (checks_away fc2580_i2c_addr 0x01 0x56 tuner r820t_i2c_addr 0x00 0x69 (omega arith)
              refl)
            (goes_on fc2580_i2c_addr 0x01 0x56 tuner (checks host r828d_i2c_addr 0x00 0x69)
              tuner_r828d (probe_late host) tuner_fc2580
              (checks_away fc2580_i2c_addr 0x01 0x56 tuner r828d_i2c_addr 0x00 0x69 (omega arith)
                refl)
              (after_reset tuner_fc2580 (
                stops fc2580_i2c_addr 0x01 0x56 tuner (checks_fc2580 host) tuner_fc2580 from_fc0012
                  (fc2580_here tuner))))))
  probe-identity tuner_fc0012 h tuner =
      from_start tuner_fc0012
        (checks_away fc0012_i2c_addr 0x00 0xa1 tuner e4k_i2c_addr 0x02 0x40 (omega arith) refl)
        (goes_on fc0012_i2c_addr 0x00 0xa1 tuner (checks host fc0013_i2c_addr 0x00 0xa3)
          tuner_fc0013 from_r820t tuner_fc0012
          (checks_here fc0012_i2c_addr 0x00 0xa1 tuner 0xa3 false refl)
          (goes_on fc0012_i2c_addr 0x00 0xa1 tuner (checks host r820t_i2c_addr 0x00 0x69)
            tuner_r820t from_r828d tuner_fc0012
            (checks_away fc0012_i2c_addr 0x00 0xa1 tuner r820t_i2c_addr 0x00 0x69 (omega arith)
              refl)
            (goes_on fc0012_i2c_addr 0x00 0xa1 tuner (checks host r828d_i2c_addr 0x00 0x69)
              tuner_r828d (probe_late host) tuner_fc0012
              (checks_away fc0012_i2c_addr 0x00 0xa1 tuner r828d_i2c_addr 0x00 0x69 (omega arith)
                refl)
              (after_reset tuner_fc0012 (
                goes_on fc0012_i2c_addr 0x00 0xa1 tuner (checks_fc2580 host) tuner_fc2580
                  from_fc0012 tuner_fc0012
                  (fc2580_away fc0012_i2c_addr 0x00 0xa1 tuner (omega arith))
                  (fc0012_found tuner))))))
