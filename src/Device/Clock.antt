-- ===== src/Device/Clock.antt =====
-- src/librtlsdr.c: `rtlsdr_get_xtal_freq`, `rtlsdr_set_if_freq` and
-- `rtlsdr_set_sample_freq_correction`.
use rtl_sdr_blog.Common.{
  Option, bit_and, if◌then◌else◌, ltb, none, some, suc, ℕ, ◌*◌, ◌-◌, ◌/◌, ◌==◌, ◌^◌,
}
use rtl_sdr_blog.Common.Int.{negsuc, pos, ℤ}
use rtl_sdr_blog.Common.Word.{u16, u32}
use rtl_sdr_blog.State.{Dev, Host, M, get, no_result, or_stuck, when, ◌>>=◌, ◌>>◌}
use rtl_sdr_blog.Usb.{demod_write_reg}
use rtl_sdr_blog.Device.Codes.{◌|=◌}
use rtl_sdr_blog.Device.Doubles.{Doubles}

-- The IF frequency as the 32 bits of `if_freq`, which is minus `q`; `none` where `q` does not fit.
unfoldable pub if_word : ℕ → Option ℕ
if_word q = if ltb (2 ^ 31) q then none else some (u32 (2 ^ 32 - q))

module _ (doubles : Doubles) where
  unfoldable pub rtl_clock : Dev → ℕ
  rtl_clock d = doubles.apply_ppm d.rtl_xtal d.corr

  unfoldable pub tuner_clock : Dev → ℕ
  tuner_clock d = doubles.apply_ppm d.tun_xtal d.corr

  -- The correction as the 16 bits of `offs`, which is minus `ppm` times 2^24 / 1000000; `none` where
  -- that does not fit.
  unfoldable pub correction_word : ℤ → Option ℕ
  correction_word (pos n) =
      let q = doubles.quotient (n * 2 ^ 24) 1000000 in
      if ltb 32768 q then none else some (u16 (2 ^ 16 - q))
  correction_word (negsuc n) =
      let q = doubles.quotient (suc n * 2 ^ 24) 1000000 in if ltb 32767 q then none else some q

  module _ (host : Host) where
    unfoldable pub set_if_freq : ℕ → M (Unit {0})
    set_if_freq freq = do
      d ← get
      let rtl_xtal = rtl_clock d
      when (rtl_xtal == 0) no_result
      if_freq ← or_stuck (if_word (doubles.quotient (freq * 2 ^ 22) rtl_xtal))
      demod_write_reg host 1 0x19 (bit_and (if_freq / 2 ^ 16) 0x3f) 1
          |= demod_write_reg host 1 0x1a (bit_and (if_freq / 2 ^ 8) 0xff) 1
          |= demod_write_reg host 1 0x1b (bit_and if_freq 0xff) 1

    unfoldable pub set_sample_freq_correction : ℤ → M (Unit {0})
    set_sample_freq_correction ppm = do
      offs ← or_stuck (correction_word ppm)
      demod_write_reg host 1 0x3f (bit_and offs 0xff) 1
          |= demod_write_reg host 1 0x3e (bit_and (offs / 2 ^ 8) 0x3f) 1
