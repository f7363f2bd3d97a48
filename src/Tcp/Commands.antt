-- ===== src/Tcp/Commands.antt =====
-- src/rtl_tcp.c: the commands that `command_worker` reads from the client, and what each calls.
pub mod Wire
use rtl_sdr_blog.Common.{
  List, Option, [], bit_and, get_elem?, if◌then◌else◌, none, some, ℕ, ◌*◌, ◌+◌, ◌/◌, ◌==◌, ◌^◌, ◌∷◌,
}
use rtl_sdr_blog.Common.Int.{i32, pos, ℤ}
use rtl_sdr_blog.Common.Cint.{i16}
use rtl_sdr_blog.Common.Word.{nonzero}
use rtl_sdr_blog.State.{Host, M, get, ignore, pure, ◌>>=◌, ◌>>◌}
use rtl_sdr_blog.Usb.{set_bias_tee}
use rtl_sdr_blog.Device.Doubles.{Doubles}
use rtl_sdr_blog.Device.Center.{set_center_freq, set_direct_sampling}
use rtl_sdr_blog.Device.Tuner.{Tuner}
use rtl_sdr_blog.Device.Gains.{get_tuner_gains}
use rtl_sdr_blog.Device.Control.{
  set_agc_mode, set_freq_correction, set_offset_tuning, set_sample_rate, set_testmode,
  set_tuner_gain, set_tuner_gain_mode, set_tuner_if_gain, set_xtal_freq,
}

-- `struct command`, packed, with its parameter as `ntohl` gives it.
pub record Command : Type 0 where
  pub cmd : ℕ
  pub param : ℕ

-- The commands of a stream of bytes. Bytes that are no whole command yet wait.
unfoldable pub parse : List ℕ → List Command
parse (c ∷ b3 ∷ b2 ∷ b1 ∷ b0 ∷ bytes) =
    record { cmd = c; param = b3 * 2 ^ 24 + b2 * 2 ^ 16 + b1 * 2 ^ 8 + b0 } ∷ parse bytes
parse bytes = []

module _ (host : Host) (doubles : Doubles) (tuner : Tuner) where
  unfoldable pub gain_at_index : Option ℤ → M (Unit {0})
  gain_at_index none = pure tt
  gain_at_index (some gain) = set_tuner_gain host doubles tuner gain

  -- An index beyond the list does nothing.
  unfoldable pub set_gain_by_index : ℕ → M (Unit {0})
  set_gain_by_index index = do
    d ← get
    gain_at_index (get_elem? (get_tuner_gains d.tuner_type) index)

  unfoldable pub call : ℕ → ℕ → M (Unit {0})
  call cmd param =
      if cmd == 0x01
      then set_center_freq host doubles tuner.core param
      else if cmd == 0x02
      then set_sample_rate host doubles tuner param
      else if cmd == 0x03
      then set_tuner_gain_mode host doubles tuner (nonzero param)
      else if cmd == 0x04
      then set_tuner_gain host doubles tuner (i32 param)
      else if cmd == 0x05
      then set_freq_correction host doubles tuner (i32 param)
      else if cmd == 0x06
      then set_tuner_if_gain host doubles tuner (pos (param / 2 ^ 16))
          (i16 (pos (bit_and param 0xffff)))
      else if cmd == 0x07
      then set_testmode host doubles tuner (nonzero param)
      else if cmd == 0x08
      then set_agc_mode host doubles tuner (nonzero param)
      else if cmd == 0x09
      then set_direct_sampling host doubles tuner.core param
      else if cmd == 0x0a
      then set_offset_tuning host doubles tuner (nonzero param)
      else if cmd == 0x0b
      then set_xtal_freq host doubles tuner param 0
      else if cmd == 0x0c
      then set_xtal_freq host doubles tuner 0 param
      else if cmd == 0x0d
      then set_gain_by_index param
      else if cmd == 0x0e
      then set_bias_tee host (nonzero param)
      else pure tt

  -- The results of the calls are not looked at.
  unfoldable pub serve : List Command → M (Unit {0})
  serve [] = pure tt
  serve (c ∷ commands) = do ignore (call c.cmd c.param); serve commands

  unfoldable pub command_worker : List ℕ → M (Unit {0})
  command_worker bytes = serve (parse bytes)
