-- ===== src/R82xx/Frame.antt =====
-- The tuner driver changes nothing of the device but the log and its own record.
use rtl_sdr_blog.Common.{
  List, Option, [], false, get_or, leb, ltb, none, some, suc, true, zero, ℕ, ◌&&◌, ◌-◌, ◌==◌, ◌∷◌,
}
use rtl_sdr_blog.Common.Int.{ℤ}
use rtl_sdr_blog.R82xx.Bandwidth.{set_bandwidth}
use rtl_sdr_blog.State.{Dev, Host, Reply, TvType, done, err, failed, ok}
use rtl_sdr_blog.Usb.Frame.{
  IsApart, Stays, Stays-bind, Stays-fail, Stays-finally, Stays-get, Stays-get_r82xx, Stays-i2c_read,
  Stays-i2c_write, Stays-if, Stays-ignore, Stays-modify_r82xx, Stays-or_stuck, Stays-pure,
  Stays-set_bias_tee_gpio, Stays-stuck, Stays-then, Stays-when, Within,
}
use rtl_sdr_blog.R82xx.Regs.{
  RegWrite, expect, masked, plain, put_shadow, read, read_cache_reg, reversed, write, write_all,
  write_loop, write_reg, write_reg_mask,
}
use rtl_sdr_blog.R82xx.Mux.{set_mux}
use rtl_sdr_blog.R82xx.Pll.{program_pll, set_pll, wait_lock}
use rtl_sdr_blog.R82xx.Sysfreq.{sysfreq_sel}
use rtl_sdr_blog.R82xx.Standard.{calibrate, finish_standard, set_tv_standard}
use rtl_sdr_blog.R82xx.Gain.{set_vga_gain}
use rtl_sdr_blog.R82xx.Tune.{
  Model, blog_v4, blog_v4l, other_model, select_input, set_freq, switch_v4, switch_v4l,
}
use rtl_sdr_blog.R82xx.Init.{init, standby}

module _ {P : Dev → Type 0} (apart : IsApart P) (host : Host) where
  Stays-expect : (size n : ℕ) → Stays P (expect size n)
  Stays-expect size n = Stays-if (n == size) (Stays-pure tt) (Stays-fail 0)

  Stays-put_shadow : (o : Option (List ℕ)) → Stays P (put_shadow o)
  Stays-put_shadow none = record { run = λ d p. tt }
  Stays-put_shadow (some regs) = record { run = λ d p. apart.r82xx d _ p }

  Stays-write_loop : (fuel reg : ℕ) (val : List ℕ) → Stays P (write_loop host fuel reg val)
  unfolding write_loop
  Stays-write_loop zero reg val = Stays-stuck
  Stays-write_loop (suc fuel) reg val = Stays-bind Stays-get_r82xx λ p.
      Stays-bind (Stays-i2c_write apart host _ _)
        λ n. Stays-then (Stays-expect _ n) (Stays-if _ (Stays-pure tt) (Stays-write_loop fuel _ _))

  Stays-write : (reg : ℕ) (val : List ℕ) → Stays P (write host reg val)
  unfolding write
  Stays-write reg val =
      Stays-bind Stays-get_r82xx λ p. Stays-then (Stays-put_shadow _) (Stays-write_loop _ reg val)

  Stays-write_reg : (reg val : ℕ) → Stays P (write_reg host reg val)
  unfolding write_reg
  Stays-write_reg reg val = Stays-write reg (val ∷ [])

  Stays-read_cache_reg : (reg : ℕ) → Stays P (read_cache_reg host reg)
  unfolding read_cache_reg
  Stays-read_cache_reg reg = record {
    run = λ d v.
        (elim (leb 5 reg && ltb reg 35)
          as (λ b.
            Within {A = ℕ} P
              (elim b [ true ↦ ok (get_or d.r82xx.regs (reg - 5) 0) d | false ↦ err 0 d ])) [
                | true ↦ v
                | false ↦ v
              ]);
  }

  Stays-write_reg_mask : (reg val bit_mask : ℕ) → Stays P (write_reg_mask host reg val bit_mask)
  unfolding write_reg_mask
  Stays-write_reg_mask reg val bit_mask =
      Stays-bind (Stays-read_cache_reg reg) λ rc. Stays-write reg _

  Stays-write_all : (ws : List RegWrite) → Stays P (write_all host ws)
  unfolding write_all
  Stays-write_all [] = Stays-pure tt
  Stays-write_all (plain reg val ∷ ws) = Stays-then (Stays-write_reg reg val) (Stays-write_all ws)
  Stays-write_all (masked reg val bit_mask ∷ ws) =
      Stays-then (Stays-write_reg_mask reg val bit_mask) (Stays-write_all ws)

  Stays-reversed : (len : ℕ) (r : Reply) → Stays P (reversed len r)
  Stays-reversed len (done n f) = Stays-if (n == len) (Stays-pure _) (Stays-fail 0)
  Stays-reversed len (failed n) = Stays-fail n

  Stays-read : (reg len : ℕ) → Stays P (read host reg len)
  unfolding read
  Stays-read reg len = Stays-bind Stays-get_r82xx λ p.
      Stays-bind (Stays-i2c_write apart host _ _) λ n.
        Stays-then (Stays-expect 1 n)
          (Stays-bind (Stays-i2c_read apart host _ len) λ r. Stays-reversed len r)

  Stays-set_mux : (freq : ℕ) → Stays P (set_mux host freq)
  unfolding set_mux
  Stays-set_mux freq = Stays-bind Stays-get_r82xx λ p. Stays-write_all _

  Stays-wait_lock : (left : ℕ) → Stays P (wait_lock host left)
  unfolding wait_lock
  Stays-wait_lock zero = Stays-stuck
  Stays-wait_lock (suc left) = Stays-bind (Stays-read 0 3) λ status. Stays-if _ (Stays-pure true) (
      Stays-if _ (Stays-then (Stays-write_reg_mask 0x12 0x06 0xff) (Stays-wait_lock left))
        (Stays-pure false))

  Stays-program_pll :
      (freq mix_div vco_power_ref : ℕ) → Stays P (program_pll host freq mix_div vco_power_ref)
  unfolding program_pll
  Stays-program_pll freq mix_div vco_power_ref = Stays-bind Stays-get_r82xx λ p.
      Stays-then (Stays-when _ Stays-stuck) (
        Stays-then (Stays-when _ (Stays-fail 0)) (
          Stays-then (Stays-write_all _) (
            Stays-bind (Stays-or_stuck _) λ sdm. Stays-then (Stays-write_all _) (
              Stays-bind (Stays-wait_lock 2) λ locked.
                Stays-then (Stays-modify_r82xx apart _)
                  (Stays-when locked (Stays-write_reg_mask 0x1a 0x08 0x08))))))

  Stays-set_pll : (freq : ℕ) → Stays P (set_pll host freq)
  unfolding set_pll
  Stays-set_pll freq = Stays-bind Stays-get λ d. Stays-then (Stays-write_all _) (
      Stays-bind (Stays-or_stuck _) λ p.
        Stays-bind (Stays-read 0 5)
          λ status. Stays-then (Stays-write_reg_mask 0x10 _ 0xe0) (Stays-program_pll freq p.0 _))

  Stays-sysfreq_sel :
      (freq : ℕ) (type : TvType) (delsys : ℕ) → Stays P (sysfreq_sel host freq type delsys)
  unfolding sysfreq_sel
  Stays-sysfreq_sel freq type delsys = Stays-bind Stays-get_r82xx λ p.
      Stays-then (Stays-write_all _) (
        Stays-then (Stays-modify_r82xx apart _)
          (Stays-then (Stays-write_all _) (Stays-write_all _)))

  Stays-calibrate : (left : ℕ) → Stays P (calibrate host left)
  unfolding calibrate
  Stays-calibrate zero = Stays-pure true
  Stays-calibrate (suc left) = Stays-then (Stays-write_all _) (
      Stays-then (Stays-set_pll _) (
        Stays-bind Stays-get_r82xx λ p. Stays-if _ (Stays-pure false) (
          Stays-then (Stays-write_all _) (
            Stays-bind (Stays-read 0 5) λ status.
              Stays-then (Stays-modify_r82xx apart _)
                (Stays-if _ (Stays-pure true) (Stays-calibrate left))))))

  Stays-set_tv_standard :
      (bw : ℕ) (type : TvType) (delsys : ℕ) → Stays P (set_tv_standard host bw type delsys)
  unfolding set_tv_standard finish_standard
  Stays-set_tv_standard bw type delsys = Stays-then (Stays-modify_r82xx apart _) (
      Stays-then (Stays-write_all _) (
        Stays-then (Stays-modify_r82xx apart _) (
          Stays-bind (Stays-calibrate 2) λ ready. Stays-when ready (
            Stays-then (Stays-modify_r82xx apart _) (
              Stays-bind Stays-get_r82xx
                λ p. Stays-then (Stays-write_all _) (Stays-modify_r82xx apart _))))))

  Stays-switch_v4 : (band : ℕ) → Stays P (switch_v4 host band)
  unfolding switch_v4
  Stays-switch_v4 band = Stays-then (Stays-modify_r82xx apart _) (
      Stays-then (Stays-write_all _)
        (Stays-then (Stays-set_bias_tee_gpio apart host 5 _) (Stays-write_all _)))

  Stays-switch_v4l : (band : ℕ) → Stays P (switch_v4l host band)
  unfolding switch_v4l
  Stays-switch_v4l band =
      Stays-then (Stays-modify_r82xx apart _)
        (Stays-then (Stays-set_bias_tee_gpio apart host 5 _) (Stays-write_all _))

  Stays-select_input : (kind : Model) (freq : ℕ) → Stays P (select_input host kind freq)
  unfolding select_input
  Stays-select_input blog_v4 freq = Stays-then (Stays-write_reg_mask 0x17 _ 0x08) (
      Stays-then (Stays-write_all _)
        (Stays-bind Stays-get_r82xx λ p. Stays-when _ (Stays-switch_v4 _)))
  Stays-select_input blog_v4l freq =
      Stays-then (Stays-write_all _)
        (Stays-bind Stays-get_r82xx λ p. Stays-when _ (Stays-switch_v4l _))
  Stays-select_input other_model freq =
      Stays-bind Stays-get_r82xx λ p.
        Stays-when _ (Stays-then (Stays-modify_r82xx apart _) (Stays-write_reg_mask 0x05 _ 0x60))

  pub Stays-set_freq : (freq : ℕ) → Stays P (set_freq host freq)
  unfolding set_freq set_vga_gain
  Stays-set_freq freq = Stays-bind Stays-get λ d. Stays-then (Stays-set_mux _) (
      Stays-then (Stays-write_reg_mask 0x0c 0x08 0x9f) (
        Stays-then (Stays-set_pll _)
          (Stays-bind Stays-get_r82xx λ p. Stays-when _ (Stays-select_input _ freq))))

  pub Stays-set_bandwidth : (bw : ℤ) → Stays P (set_bandwidth host bw)
  unfolding set_bandwidth
  Stays-set_bandwidth bw =
      Stays-bind (Stays-or_stuck _)
        λ f. Stays-then (Stays-modify_r82xx apart _) (Stays-then (Stays-write_all _) (Stays-pure _))

  pub Stays-standby : Stays P (standby host)
  unfolding standby
  Stays-standby = Stays-bind Stays-get_r82xx λ p.
      Stays-when _
        (Stays-then (Stays-write_all _) (Stays-finally apart _ (Stays-write_reg 0x19 0x0c)))

  pub Stays-init : Stays P (init host)
  unfolding init
  Stays-init = Stays-then (Stays-modify_r82xx apart _) (
      Stays-then (Stays-ignore (Stays-write 0x05 _)) (
        Stays-then (Stays-set_tv_standard _ _ _) (Stays-finally apart _ (Stays-sysfreq_sel _ _ _))))
