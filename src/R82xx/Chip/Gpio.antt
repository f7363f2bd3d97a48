-- ===== src/R82xx/Chip/Gpio.antt =====
-- Transfers to the other blocks of the RTL2832, such as the GPIOs that the driver switches, leave the
-- tuner's registers alone.
use rtl_sdr_blog.Common.{Bool, arith, false, refl, ℕ, ◌==◌, ◌≡◌}
use rtl_sdr_blog.State.{Dev, Host, Reply, Transfer, done, failed}
use rtl_sdr_blog.Usb.{
  junk, read_reg, set_bias_tee_gpio, set_gpio_bit, set_gpio_output, transfer, write_reg,
}
use rtl_sdr_blog.Usb.Laws.{
  Always, Always-bind, Always-get, Always-ignore, Always-pure, Always-status,
}
use rtl_sdr_blog.R82xx.Chip.{chip_step, i2c_out}
use rtl_sdr_blog.R82xx.Chip.Coherent.{IsReady}
use rtl_sdr_blog.R82xx.Chip.Ops.{quiet-IsReady}

module _ (base : ℕ → ℕ) (host : Host) where
  pub transfer-IsReady :
      (t : Transfer) → (t.index == i2c_out) ≡ false → Always (IsReady base) (transfer host t)
  unfolding transfer
  transfer-IsReady t other = record {
    run = λ d v. quiet-IsReady base t (host.answer d.log t) d (quiet d (host.answer d.log t)) v;
  }
    where
      quiet :
          (d : Dev) (r : Reply) (regs : ℕ → ℕ) (i : ℕ)
          → chip_step d.r82xx.i2c_addr (record { transfer = t; reply = r }) regs i ≡ regs i
      quiet d (done n f) regs i = ground arith
      quiet d (failed n) regs i = refl

  junk-IsReady : (i : ℕ) → Always (IsReady base) (junk host i)
  unfolding junk
  junk-IsReady i = record { run = λ d v. v }

  read_sys-IsReady : (addr len : ℕ) → Always (IsReady base) (read_reg host 2 addr len)
  unfolding read_reg
  read_sys-IsReady addr len = Always-bind (junk-IsReady 0) λ j0.
      Always-bind (junk-IsReady 1) λ j1. Always-bind (transfer-IsReady _ refl) λ r. Always-pure _

  write_sys-IsReady : (addr val len : ℕ) → Always (IsReady base) (write_reg host 2 addr val len)
  unfolding write_reg
  write_sys-IsReady addr val len = Always-bind (transfer-IsReady _ refl) λ r. Always-status r

  pub set_bias_tee_gpio-IsReady :
      (gpio : ℕ) (on : Bool) → Always (IsReady base) (set_bias_tee_gpio host gpio on)
  unfolding set_bias_tee_gpio set_gpio_output set_gpio_bit
  set_bias_tee_gpio-IsReady gpio on = Always-bind Always-get λ d.
      Always-bind
        (Always-bind (read_sys-IsReady _ 1) λ r.
          Always-bind (Always-ignore (write_sys-IsReady _ _ 1))
            λ a. Always-bind (read_sys-IsReady _ 1) λ r'. Always-ignore (write_sys-IsReady _ _ 1))
        λ b. Always-bind (read_sys-IsReady _ 1) λ r. Always-ignore (write_sys-IsReady _ _ 1)
