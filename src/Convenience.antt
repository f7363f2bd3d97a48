-- ===== src/Convenience.antt =====
-- src/convenience/convenience.c: `nearest_gain`.
pub mod Search
pub mod Nearest
mod Tests
use rtl_sdr_blog.Common.{true}
use rtl_sdr_blog.Common.Int.{ℤ}
use rtl_sdr_blog.State.{Host, M, get, or_stuck, ◌>>=◌, ◌>>◌}
use rtl_sdr_blog.Device.Doubles.{Doubles}
use rtl_sdr_blog.Device.Tuner.{Tuner}
use rtl_sdr_blog.Device.Gains.{get_tuner_gains}
use rtl_sdr_blog.Device.Control.{set_tuner_gain_mode}
use rtl_sdr_blog.Convenience.Search.{nearest_of}

module _ (host : Host) (doubles : Doubles) (tuner : Tuner) where
  unfoldable pub nearest_gain : ℤ → M ℤ
  nearest_gain target_gain = do
    set_tuner_gain_mode host doubles tuner true
    d ← get
    or_stuck (nearest_of target_gain (get_tuner_gains d.tuner_type))
