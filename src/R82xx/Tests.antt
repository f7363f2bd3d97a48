-- ===== src/R82xx/Tests.antt =====
-- Runs of the tuner driver, and the theorems at concrete inputs.
use rtl_sdr_blog.Common.{
  [], ap, arith, false, get_or, refl, some, true, ℕ, ◌*◌, ◌+◌, ◌-◌, ◌<◌, ◌∷◌, ◌≡◌, ◌≤◌,
}
use rtl_sdr_blog.Common.Int.{pos}
use rtl_sdr_blog.State.{
  Dev, E4k, Host, R82xx, chip_r820t, done, high_cap_0p, tuner_analog_tv, tuner_digital_tv,
  tuner_r820t, vhf2,
}
use rtl_sdr_blog.Usb.Laws.{Ensures}
use rtl_sdr_blog.R82xx.Tables.{init_array}
use rtl_sdr_blog.R82xx.Regs.{write, write_loop}
use rtl_sdr_blog.R82xx.Pll.{find_divider, pll_fra, pll_nint, sdm_loop}
use rtl_sdr_blog.R82xx.Tune.{set_freq}
use rtl_sdr_blog.R82xx.Pll.Sigma.{Takes, sdm_loop-Takes_start, sdm_loop_ends}
use rtl_sdr_blog.R82xx.Pll.Divider.{Divides, find_divider-Divides, pll_nint-pll_fra}
use rtl_sdr_blog.R82xx.Chip.{chip}
use rtl_sdr_blog.R82xx.Chip.Coherent.{IsReady}
use rtl_sdr_blog.R82xx.Chip.Write.{Sent, write_loop-Sent}
use rtl_sdr_blog.R82xx.Coherence.{set_freq-Ensures, write-Ensures}
use rtl_sdr_blog.R82xx.Coherence.Calls.{
  make_calls, make_calls-Ensures, to_bandwidth, to_freq, to_gain, to_standby, to_system,
}

-- A dongle that takes every transfer; each byte read is 0x02, which reversed is the lock bit.
abbrev pub willing : Host
willing = record { answer = λ log t. done t.len (λ i. 0x02); junk = λ log i. 0 }

abbrev pub tuner : R82xx
tuner = record {
  i2c_addr = 0x34;
  xtal = 28800000;
  rafael_chip = chip_r820t;
  max_i2c_msg_len = 8;
  use_predetect = false;
  regs = init_array;
  xtal_cap_sel = high_cap_0p;
  int_freq = 3570000;
  fil_cal_code = 0;
  input = 0;
  has_lock = false;
  init_done = true;
  delsys = 0;
  tv_type = tuner_digital_tv;
  bw = 3;
}

-- The record of an E4000 that was never used.
abbrev pub untuned : E4k
untuned = record {
  i2c_addr = 0;
  band = vhf2;
  vco = record {
    fosc = 0;
    intended_flo = 0;
    flo = 0;
    x = 0;
    z = 0;
    r = 0;
    r_idx = 0;
    threephase = false;
  };
}

abbrev pub dongle : Dev
dongle = record {
  log = [];
  rate = 0;
  rtl_xtal = 28800000;
  fir = [];
  direct_sampling = 0;
  direct_sampling_mode = 0;
  tuner_type = tuner_r820t;
  tun_xtal = 28800000;
  freq = 0;
  bw = 0;
  offs_freq = 0;
  corr = pos 0;
  gain = pos 0;
  e4k = untuned;
  r82xx = tuner;
  manufact = "RTLSDRBlog";
  product = "Blog V4";
  force_bt = false;
}

-- The registers of a chip that holds the initial values.
abbrev fresh : ℕ → ℕ
fresh r = get_or init_array (r - 5) 0

dongle-IsReady : IsReady fresh dongle
unfolding chip
dongle-IsReady = record {
  room = omega arith;
  limit = omega arith;
  clocked = omega arith;
  slow = omega arith;
  sized = refl;
  coherent = λ i h. ap (λ k. get_or init_array k 0) (back i);
}
  where
    back : (i : ℕ) → i ≡ i + 5 - 5
    back i = omega arith

set_freq-Ensures_example : Ensures (λ a e. IsReady fresh e) (set_freq willing 7100000 dongle)
set_freq-Ensures_example = set_freq-Ensures fresh willing dongle dongle-IsReady 7100000

-- A station is tuned, its gain and bandwidth are set, and the tuner is put into standby.
make_calls-Ensures_example :
    Ensures
      (λ a e. IsReady fresh e)
      (make_calls willing
        (to_freq 7100000
          ∷ to_gain true (pos 402)
          ∷ to_bandwidth (pos 300000)
          ∷ to_system 506000000 tuner_analog_tv 1
          ∷ to_standby
          ∷ [])
        dongle)
make_calls-Ensures_example =
    make_calls-Ensures fresh willing
      (to_freq 7100000
        ∷ to_gain true (pos 402)
        ∷ to_bandwidth (pos 300000)
        ∷ to_system 506000000 tuner_analog_tv 1
        ∷ to_standby
        ∷ [])
      dongle dongle-IsReady

write-Ensures_example : Ensures (λ a e. IsReady fresh e) (write willing 5 init_array dongle)
write-Ensures_example =
    write-Ensures fresh willing dongle dongle-IsReady 5 init_array (omega arith) (omega arith)

write_loop-Sent_example :
    Ensures (Sent fresh 5 init_array dongle) (write_loop willing 31 5 init_array dongle)
write_loop-Sent_example =
    write_loop-Sent fresh willing 31 5 init_array dongle (omega arith) (omega arith) (omega arith)
      (omega arith)

sdm_loop-Takes_start_example : Takes 28800 20000 0 15 16 (sdm_loop 32 28800 20000 2 0)
sdm_loop-Takes_start_example = sdm_loop-Takes_start 28800 20000 (omega arith) (omega arith)

sdm_loop_ends_example : (s : ℕ) × (sdm_loop 32 28800 4000000 2 0 ≡ some s) × (s < 65536)
sdm_loop_ends_example = sdm_loop_ends 28800 4000000 (omega arith)

find_divider-Divides_example : Divides 103570 (find_divider 8 103570 2)
find_divider-Divides_example = find_divider-Divides 103570 (omega arith) (omega arith)

pll_nint-pll_fra_example :
    (pll_nint 3314240000 28800000 * 57600000
        + 1000 * pll_fra 3314240000 28800000 (pll_nint 3314240000 28800000)
      ≤ 3314240000)
    × (3314240000
        < pll_nint 3314240000 28800000 * 57600000
          + 1000 * pll_fra 3314240000 28800000 (pll_nint 3314240000 28800000)
          + 1000)
    × (1000 * pll_fra 3314240000 28800000 (pll_nint 3314240000 28800000) < 57600000)
pll_nint-pll_fra_example =
    pll_nint-pll_fra 3314240000 28800000 (omega arith) (omega arith) (omega arith) (omega arith)
