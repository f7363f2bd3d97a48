-- ===== src/Device/Open/Tests.antt =====
-- A dongle with an R828D, which is probed after the others did not answer.
use rtl_sdr_blog.Common.{arith, false, if◌then◌else◌, refl, ℕ, ◌==◌, ◌≡◌, ◌≢◌}
use rtl_sdr_blog.State.{Dev, Host, done, failed, ok, tuner_r828d}
use rtl_sdr_blog.R82xx.Tests.{dongle}
use rtl_sdr_blog.Device.Open.{probe}
use rtl_sdr_blog.Device.Open.Probe.{HasTuner, probe-identity}

abbrev r828d_host : Host
r828d_host = record {
  answer = λ log t. if t.value == 0x74 then done t.len (λ i. 0x69) else failed 6;
  junk = λ log i. 0;
}

r828d_host-HasTuner : HasTuner r828d_host 0x74 0x00 0x69
r828d_host-HasTuner = record {
  gives = λ log r. refl;
  alone = λ log other h. (6, rw (elsewhere other h) refl);
}
  where
    elsewhere : (other : ℕ) → other ≢ 0x74 → (other == 0x74) ≡ false
    elsewhere other h = ground arith

probe-identity_example : (e : Dev) × (probe r828d_host dongle ≡ ok tuner_r828d e)
probe-identity_example = probe-identity r828d_host tuner_r828d (λ e. cc) r828d_host-HasTuner dongle
