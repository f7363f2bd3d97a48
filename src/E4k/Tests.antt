-- ===== src/E4k/Tests.antt =====
-- The theorems on the E4000 at concrete inputs.
use rtl_sdr_blog.Common.{[], arith, false, get_or, refl, true, ℕ, ◌∷◌, ◌≡◌, ◌≢◌}
use rtl_sdr_blog.Common.Int.{pos}
use rtl_sdr_blog.State.{Dev, Host, Log, ctrl_in, ctrl_out, done, err, ok, ◌>>◌}
use rtl_sdr_blog.R82xx.Chip.{chip}
use rtl_sdr_blog.R82xx.Tests.{dongle, untuned}
use rtl_sdr_blog.Device.Tests.{exact}
use rtl_sdr_blog.E4k.Field.{HasE4k, held, register_out}
use rtl_sdr_blog.E4k.Filter.{chan, if_filter_bw_get, if_filter_bw_set, ifch_filter_bw}
use rtl_sdr_blog.E4k.Filter.Laws.{IsClosest}
use rtl_sdr_blog.E4k.Filter.Roundtrip.{Gives, if_filter_bw_get-if_filter_bw_set}
use rtl_sdr_blog.E4k.Gain.Reach.{e4000_set_gain-is_taken, is_taken}
use rtl_sdr_blog.E4k.Iface.{e4000_set_gain, e4k_i2c_addr}
use rtl_sdr_blog.E4k.Pll.{compute_pll_params, pick_settings}
use rtl_sdr_blog.E4k.Pll.Near.{IsNear, compute_pll_params-IsNear}

compute_pll_params-IsNear_example :
    IsNear 28800000 100000000 (compute_pll_params 28800000 100000000)
unfolding pick_settings
compute_pll_params-IsNear_example =
    compute_pll_params-IsNear 28800000 100000000 (omega arith) (omega arith) (omega arith)
      (omega arith)

-- An E4000 whose registers were all 0.
abbrev cleared : ℕ → ℕ
cleared r = 0

abbrev newest_register : Log → ℕ
newest_register [] = 0
newest_register (e ∷ log) = get_or e.transfer.bytes 0 0

abbrev e4k_host : Host
unfolding chip
e4k_host = record {
  answer = λ log t. elim t.direction [
    | ctrl_out ↦ done t.len (λ i. 0)
    | ctrl_in ↦ done t.len (λ i. chip e4k_i2c_addr cleared log (newest_register log))
  ];
  junk = λ log i. 0;
}

e4k_host-HasE4k : HasE4k e4k_i2c_addr cleared e4k_host
unfolding chip
e4k_host-HasE4k = record {
  takes_register = λ log reg. ((λ i. 0), refl);
  reads_back = λ log reg f. (
    (λ i.
        chip e4k_i2c_addr cleared
          (record { transfer = register_out e4k_i2c_addr reg; reply = done 1 f } ∷ log) reg),
    refl,
    ground arith,
  );
  takes_value = λ log reg val. ((λ i. 0), refl);
}

abbrev tuned : Dev
tuned = record dongle { e4k = record untuned { i2c_addr = e4k_i2c_addr } }

-- The channel filter at 2.21 MHz: 2.2 MHz is the nearest.
if_filter_bw_get-if_filter_bw_set_example :
    Gives
      (λ bw e.
        IsClosest ifch_filter_bw 2210000 bw
        × ((r : ℕ)
            → r ≢ 18
            → held e4k_i2c_addr cleared e4k_host e4k_host-HasE4k e r
              ≡ held e4k_i2c_addr cleared e4k_host e4k_host-HasE4k tuned r))
      ((if_filter_bw_set e4k_host chan 2210000 >> if_filter_bw_get e4k_host chan) tuned)
if_filter_bw_get-if_filter_bw_set_example =
    if_filter_bw_get-if_filter_bw_set e4k_i2c_addr cleared e4k_host e4k_host-HasE4k chan 2210000
      tuned refl (omega arith)

-- 29 dB is one of the gains of the list.
e4000_set_gain-is_taken_example :
    (is_taken (pos 290) ≡ true
      → (e : Dev) × (e4000_set_gain exact e4k_host (pos 290) tuned ≡ ok tt e))
    × (is_taken (pos 290) ≡ false → e4000_set_gain exact e4k_host (pos 290) tuned ≡ err 0 tuned)
e4000_set_gain-is_taken_example =
    e4000_set_gain-is_taken e4k_host exact (pos 290) tuned (omega arith) (omega arith)
