-- ===== src/R82xx/Coherence/Calls.antt =====
-- Any sequence of calls of the operations of src/tuner_r82xx.c, as a program makes them.
use rtl_sdr_blog.Common.{Bool, List, [], ℕ, ◌∷◌}
use rtl_sdr_blog.Common.Int.{ℤ}
use rtl_sdr_blog.State.{Dev, Host, M, TvType, pure, ◌>>=◌, ◌>>◌}
use rtl_sdr_blog.Usb.Laws.{Ensures, Keeps, Keeps-bind, Keeps-pure, Keeps-then}
use rtl_sdr_blog.R82xx.Sysfreq.{sysfreq_sel}
use rtl_sdr_blog.R82xx.Gain.{set_gain}
use rtl_sdr_blog.R82xx.Bandwidth.{set_bandwidth}
use rtl_sdr_blog.R82xx.Tune.{set_freq}
use rtl_sdr_blog.R82xx.Init.{standby}
use rtl_sdr_blog.R82xx.Chip.Coherent.{IsReady}
use rtl_sdr_blog.R82xx.Chip.Drivers.{
  set_bandwidth-IsReady, set_freq-IsReady, set_gain-IsReady, standby-IsReady, sysfreq_sel-IsReady,
}

pub data Call : Type 0 where
  to_freq : ℕ → Call
  to_gain : Bool → ℤ → Call
  to_bandwidth : ℤ → Call
  to_system : ℕ → TvType → ℕ → Call
  to_standby : Call

module _ (host : Host) where
  unfoldable pub make_call : Call → M (Unit {0})
  make_call (to_freq freq) = set_freq host freq
  make_call (to_gain manual gain) = set_gain host manual gain
  make_call (to_bandwidth bw) = do if_freq ← set_bandwidth host bw; pure tt
  make_call (to_system freq type delsys) = sysfreq_sel host freq type delsys
  make_call to_standby = standby host

  -- One after the other, as long as none returns an error.
  unfoldable pub make_calls : List Call → M (Unit {0})
  make_calls [] = pure tt
  make_calls (c ∷ calls) = do make_call c; make_calls calls

module _ (base : ℕ → ℕ) (host : Host) where
  make_call-IsReady : (c : Call) → Keeps (IsReady base) (make_call host c)
  unfolding make_call
  make_call-IsReady (to_freq freq) = set_freq-IsReady base host freq
  make_call-IsReady (to_gain manual gain) = set_gain-IsReady base host manual gain
  make_call-IsReady (to_bandwidth bw) =
      Keeps-bind (set_bandwidth-IsReady base host bw) λ if_freq. Keeps-pure tt
  make_call-IsReady (to_system freq type delsys) = sysfreq_sel-IsReady base host freq type delsys
  make_call-IsReady to_standby = standby-IsReady base host

  make_calls-IsReady : (calls : List Call) → Keeps (IsReady base) (make_calls host calls)
  unfolding make_calls
  make_calls-IsReady [] = Keeps-pure tt
  make_calls-IsReady (c ∷ calls) = Keeps-then (make_call-IsReady c) λ u. make_calls-IsReady calls

  -- From a state that satisfies `IsReady`, any sequence of calls, as long as none returns an
  -- error, that tune to any frequency, set any gain or the automatic one, set any bandwidth,
  -- select the settings of any delivery system or put the tuner into standby ends in defined
  -- behaviour, and where the last returns no error `IsReady` holds: the shadow registers never
  -- part from the chip.
  pub make_calls-Ensures :
      (calls : List Call) (d : Dev)
      → IsReady base d
      → Ensures (λ a e. IsReady base e) (make_calls host calls d)
  make_calls-Ensures calls d ready = (make_calls-IsReady calls).run d ready
