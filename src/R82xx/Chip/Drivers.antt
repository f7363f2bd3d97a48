-- ===== src/R82xx/Chip/Drivers.antt =====
-- Every operation of the tuner driver keeps the shadow and the chip in step, and returns.
use rtl_sdr_blog.Common.{
  Bool, Bool-cases, arith, false, if◌then◌else◌, inl, inr, ltb, refl, true, ℕ, ◌==◌,
}
use rtl_sdr_blog.Common.Int.{pos_part, ℤ}
use rtl_sdr_blog.State.{Dev, Host, TvType, tuner_analog_tv, tuner_none}
use rtl_sdr_blog.Usb.Laws.{
  Always→Keeps, Keeps, Keeps-bind, Keeps-finally, Keeps-get, Keeps-get_r82xx, Keeps-or_stuck,
  Keeps-pure, Keeps-then, Keeps-when,
}
use rtl_sdr_blog.R82xx.Mux.{mux_writes, set_mux}
use rtl_sdr_blog.R82xx.Sysfreq.{
  Settings, detector_writes, input_writes, lna_writes, settings, sysfreq_sel,
}
use rtl_sdr_blog.R82xx.Gain.{set_gain, set_vga_gain}
use rtl_sdr_blog.R82xx.Bandwidth.{set_bandwidth}
use rtl_sdr_blog.R82xx.Tune.{
  Model, blog_v4, blog_v4l, bypass_writes, hf, other_model, select_input, set_freq, switch_v4,
  switch_v4l,
}
use rtl_sdr_blog.R82xx.Init.{standby}
use rtl_sdr_blog.R82xx.Gain.Laws.{gain_loop_ends}
use rtl_sdr_blog.R82xx.Bandwidth.Laws.{choose_filter_ends}
use rtl_sdr_blog.R82xx.Chip.Coherent.{IsReady}
use rtl_sdr_blog.R82xx.Chip.Ops.{
  AllInShadow, modify-IsReady, read-IsReady, write_all-IsReady, write_reg-IsReady,
  write_reg_mask-IsReady,
}
use rtl_sdr_blog.R82xx.Chip.Pll.{set_pll-IsReady}
use rtl_sdr_blog.R82xx.Chip.Gpio.{set_bias_tee_gpio-IsReady}

module _ (base : ℕ → ℕ) (host : Host) where
  abbrev Ready : Dev → Type 0
  Ready = IsReady base

  set_mux-IsReady : (freq : ℕ) → Keeps Ready (set_mux host freq)
  unfolding set_mux mux_writes
  set_mux-IsReady freq = Keeps-bind Keeps-get_r82xx λ p. write_all-IsReady base host _ (omega arith)

  set_vga_gain-IsReady : Keeps Ready (set_vga_gain host)
  unfolding set_vga_gain
  set_vga_gain-IsReady = write_reg_mask-IsReady base host 0x0c 0x08 0x9f (omega arith) (omega arith)

  detector_writes-InShadow : (b : Bool) (s : Settings) → AllInShadow (detector_writes b s)
  unfolding detector_writes
  detector_writes-InShadow true s = omega arith
  detector_writes-InShadow false s = omega arith

  lna_writes-InShadow : (b : TvType) (s : Settings) → AllInShadow (lna_writes b s)
  unfolding lna_writes
  lna_writes-InShadow tuner_analog_tv s = omega arith
  lna_writes-InShadow _ s = omega arith

  pub sysfreq_sel-IsReady :
      (freq : ℕ) (type : TvType) (delsys : ℕ) → Keeps Ready (sysfreq_sel host freq type delsys)
  unfolding sysfreq_sel input_writes
  sysfreq_sel-IsReady freq type delsys = Keeps-bind Keeps-get_r82xx λ p.
      Keeps-then (write_all-IsReady base host _ (detector_writes-InShadow p.use_predetect _)) λ a.
        Keeps-then
          (modify-IsReady base (λ q. record q { input = (settings delsys freq).air_cable1_in })
            (λ q. (refl, refl, refl, refl)))
          λ b.
            Keeps-then (write_all-IsReady base host _ (omega arith))
              λ c. write_all-IsReady base host _ (lna_writes-InShadow type _)

  -- A manual or an automatic gain can be set in any ready state.
  pub set_gain-IsReady : (manual : Bool) (gain : ℤ) → Keeps Ready (set_gain host manual gain)
  unfolding set_gain
  set_gain-IsReady true gain = Keeps-then (write_all-IsReady base host _ (omega arith)) λ a.
      Keeps-bind (read-IsReady base host 0 4) λ status. Keeps-then set_vga_gain-IsReady λ b.
        Keeps-bind (Keeps-or_stuck _ (gain_loop_ends gain).0 (gain_loop_ends gain).1)
          λ p. write_all-IsReady base host _ (omega arith)
  set_gain-IsReady false gain = write_all-IsReady base host _ (omega arith)

  pub set_bandwidth-IsReady : (bw : ℤ) → Keeps Ready (set_bandwidth host bw)
  unfolding set_bandwidth
  set_bandwidth-IsReady bw =
      Keeps-bind
        (Keeps-or_stuck _ (choose_filter_ends (pos_part bw)).0 (choose_filter_ends (pos_part bw)).1)
        λ f.
          Keeps-then
            (modify-IsReady base (λ q. record q { int_freq = f.int_freq })
              (λ q. (refl, refl, refl, refl)))
            λ a. Keeps-then (write_all-IsReady base host _ (omega arith)) λ b. Keeps-pure f.int_freq

  bypass_writes-InShadow : (band : ℕ) → AllInShadow (bypass_writes band)
  unfolding bypass_writes
  bypass_writes-InShadow band = elim (Bool-cases (band == hf)) [
    | inl is_hf ↦ rw is_hf (omega arith)
    | inr other ↦ rw other tt
  ]

  switch_v4-IsReady : (band : ℕ) → Keeps Ready (switch_v4 host band)
  unfolding switch_v4
  switch_v4-IsReady band =
      Keeps-then
        (modify-IsReady base (λ q. record q { input = band }) (λ q. (refl, refl, refl, refl)))
        λ a. Keeps-then (write_all-IsReady base host _ (omega arith)) λ b.
          Keeps-then (Always→Keeps (set_bias_tee_gpio-IsReady base host 5 _))
            λ c. write_all-IsReady base host _ (omega arith)

  switch_v4l-IsReady : (band : ℕ) → Keeps Ready (switch_v4l host band)
  unfolding switch_v4l
  switch_v4l-IsReady band =
      Keeps-then
        (modify-IsReady base (λ q. record q { input = band }) (λ q. (refl, refl, refl, refl)))
        λ a.
          Keeps-then (Always→Keeps (set_bias_tee_gpio-IsReady base host 5 _))
            λ c. write_all-IsReady base host _ (omega arith)

  select_input-IsReady : (kind : Model) (freq : ℕ) → Keeps Ready (select_input host kind freq)
  unfolding select_input
  select_input-IsReady blog_v4 freq =
      Keeps-then (write_reg_mask-IsReady base host 0x17 _ 0x08 (omega arith) (omega arith)) λ a.
        Keeps-then (write_all-IsReady base host _ (bypass_writes-InShadow _))
          λ b. Keeps-bind Keeps-get_r82xx λ p. Keeps-when _ (switch_v4-IsReady _)
  select_input-IsReady blog_v4l freq =
      Keeps-then (write_all-IsReady base host _ (bypass_writes-InShadow _))
        λ b. Keeps-bind Keeps-get_r82xx λ p. Keeps-when _ (switch_v4l-IsReady _)
  select_input-IsReady other_model freq = Keeps-bind Keeps-get_r82xx λ p. Keeps-when _ (
      Keeps-then
        (modify-IsReady base (λ q. record q { input = if ltb 345000000 freq then 0x00 else 0x60 })
          (λ q. (refl, refl, refl, refl)))
        λ a. write_reg_mask-IsReady base host 0x05 _ 0x60 (omega arith) (omega arith))

  -- Tuning returns from any ready state, and where it returns no error the shadow registers still
  -- hold what the chip holds.
  pub set_freq-IsReady : (freq : ℕ) → Keeps Ready (set_freq host freq)
  unfolding set_freq
  set_freq-IsReady freq = Keeps-bind Keeps-get λ d. Keeps-then (set_mux-IsReady _) λ a.
      Keeps-then set_vga_gain-IsReady λ b.
        Keeps-then (set_pll-IsReady base host _)
          λ c. Keeps-bind Keeps-get_r82xx λ p. Keeps-when _ (select_input-IsReady _ freq)

  pub standby-IsReady : Keeps Ready (standby host)
  unfolding standby
  standby-IsReady = Keeps-bind Keeps-get_r82xx λ p. Keeps-when _ (
      Keeps-then (write_all-IsReady base host _ (omega arith)) λ a.
        Keeps-finally _ (write_reg-IsReady base host 0x19 0x0c (omega arith) (omega arith)) (
          modify-IsReady base (λ q. record q { tv_type = tuner_none })
            (λ q. (refl, refl, refl, refl))))
