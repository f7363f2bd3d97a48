-- ===== src/R82xx/Coherence.antt =====
-- The operations of src/tuner_r82xx.c on a tuner whose shadow registers agree with the chip. What
-- `Ensures` says of a call is that it ends, that it accesses nothing out of range and divides by no
-- zero, and that its postcondition holds where it returns no error.
pub mod Calls
use rtl_sdr_blog.Common.{Bool, List, length, ℕ, ◌+◌, ◌≤◌}
use rtl_sdr_blog.Common.Int.{ℤ}
use rtl_sdr_blog.State.{Dev, Host, TvType}
use rtl_sdr_blog.Usb.Laws.{Ensures}
use rtl_sdr_blog.R82xx.Regs.{write}
use rtl_sdr_blog.R82xx.Pll.{set_pll}
use rtl_sdr_blog.R82xx.Sysfreq.{sysfreq_sel}
use rtl_sdr_blog.R82xx.Gain.{set_gain}
use rtl_sdr_blog.R82xx.Bandwidth.{set_bandwidth}
use rtl_sdr_blog.R82xx.Tune.{set_freq}
use rtl_sdr_blog.R82xx.Init.{standby}
use rtl_sdr_blog.R82xx.Chip.Coherent.{IsReady, write-IsReady}
use rtl_sdr_blog.R82xx.Chip.Pll.{set_pll-IsReady}
use rtl_sdr_blog.R82xx.Chip.Drivers.{
  set_bandwidth-IsReady, set_freq-IsReady, set_gain-IsReady, standby-IsReady, sysfreq_sel-IsReady,
}

module _ (base : ℕ → ℕ) (host : Host) (d : Dev) (ready : IsReady base d) where
  -- From a state that satisfies `IsReady` (the 30 shadow registers hold what the chip's registers
  -- hold, the limit on messages is at least 2 and below 2^32, and the crystal is above 0 Hz and
  -- below 32.7675 MHz), tuning to any frequency on any model of dongle ends in defined behaviour,
  -- and where it returns no error `IsReady` holds again.
  pub set_freq-Ensures : (freq : ℕ) → Ensures (λ a e. IsReady base e) (set_freq host freq d)
  set_freq-Ensures freq = (set_freq-IsReady base host freq).run d ready

  -- From a state that satisfies `IsReady`, setting the PLL to any frequency ends in defined
  -- behaviour (the divider search, the sigma-delta loop and the wait for the lock end), and where
  -- it returns no error `IsReady` holds again.
  pub set_pll-Ensures : (freq : ℕ) → Ensures (λ a e. IsReady base e) (set_pll host freq d)
  set_pll-Ensures freq = (set_pll-IsReady base host freq).run d ready

  -- From a state that satisfies `IsReady`, setting any manual gain, or the automatic gain, ends in
  -- defined behaviour, and where it returns no error `IsReady` holds again.
  pub set_gain-Ensures :
      (manual : Bool) (gain : ℤ) → Ensures (λ a e. IsReady base e) (set_gain host manual gain d)
  set_gain-Ensures manual gain = (set_gain-IsReady base host manual gain).run d ready

  -- From a state that satisfies `IsReady`, setting any bandwidth, a negative one too, ends in
  -- defined behaviour, and where it returns no error `IsReady` holds again.
  pub set_bandwidth-Ensures : (bw : ℤ) → Ensures (λ a e. IsReady base e) (set_bandwidth host bw d)
  set_bandwidth-Ensures bw = (set_bandwidth-IsReady base host bw).run d ready

  -- From a state that satisfies `IsReady`, selecting the settings of any delivery system and tuner
  -- type ends in defined behaviour, and where it returns no error `IsReady` holds again.
  pub sysfreq_sel-Ensures :
      (freq : ℕ) (type : TvType) (delsys : ℕ)
      → Ensures (λ a e. IsReady base e) (sysfreq_sel host freq type delsys d)
  sysfreq_sel-Ensures freq type delsys =
      (sysfreq_sel-IsReady base host freq type delsys).run d ready

  -- From a state that satisfies `IsReady`, putting the tuner into standby ends in defined
  -- behaviour, and where it returns no error `IsReady` holds again.
  pub standby-Ensures : Ensures (λ a e. IsReady base e) (standby host d)
  standby-Ensures = (standby-IsReady base host).run d ready

  -- From a state that satisfies `IsReady`, a write of bytes that all fall on the shadowed
  -- registers 5 to 34 ends in defined behaviour, and where it returns no error `IsReady` holds
  -- again: the shadow was updated as the chip was.
  pub write-Ensures :
      (reg : ℕ) (val : List ℕ)
      → 5 ≤ reg
      → reg + length val ≤ 35
      → Ensures (λ a e. IsReady base e) (write host reg val d)
  write-Ensures reg val low high = (write-IsReady base host reg val low high).run d ready
