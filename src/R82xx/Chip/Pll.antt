-- ===== src/R82xx/Chip/Pll.antt =====
-- `r82xx_set_pll` keeps the shadow and the chip in step, and always returns.
use rtl_sdr_blog.Common.{
  arith, false, refl, some, suc, true, zero, ℕ, ◌*◌, ◌+◌, ◌/◌, ◌<◌, ◌==◌, ◌≡◌, ◌≤◌,
}
use rtl_sdr_blog.Common.Word.{u32, u64}
use rtl_sdr_blog.State.{Dev, Host, get_r82xx, no_result}
use rtl_sdr_blog.Usb.Laws.{
  Ensures, Keeps, Keeps-bind, Keeps-fail, Keeps-get, Keeps-if, Keeps-or_stuck, Keeps-pure,
  Keeps-unless, Keeps-when,
}
use rtl_sdr_blog.R82xx.Regs.{write_reg_mask}
use rtl_sdr_blog.R82xx.Pll.{
  find_divider, pll_fra, pll_nint, program_pll, sdm_loop, set_pll, wait_lock,
}
use rtl_sdr_blog.R82xx.Pll.Sigma.{sdm_loop_ends}
use rtl_sdr_blog.R82xx.Pll.Divider.{find_divider_ends}
use rtl_sdr_blog.R82xx.Chip.Coherent.{IsReady}
use rtl_sdr_blog.R82xx.Chip.Ops.{
  modify-IsReady, read-IsReady, write_all-IsReady, write_reg_mask-IsReady,
}

module _ (base : ℕ → ℕ) (host : Host) where
  abbrev Ready : Dev → Type 0
  Ready = IsReady base

  increase_current : Keeps Ready (write_reg_mask host 0x12 0x06 0xff)
  increase_current = write_reg_mask-IsReady base host 0x12 0x06 0xff (omega arith) (omega arith)

  wait_lock-IsReady : (left : ℕ) → Keeps Ready (wait_lock host (suc left))
  unfolding wait_lock
  wait_lock-IsReady zero =
      Keeps-bind (read-IsReady base host 0 3)
        λ status. Keeps-if _ (Keeps-pure true) (Keeps-pure false)
  wait_lock-IsReady (suc left) = Keeps-bind (read-IsReady base host 0 3) λ status.
      Keeps-if _ (Keeps-pure true)
        (Keeps-if _ (Keeps-bind increase_current λ a. wait_lock-IsReady left) (Keeps-pure false))

  -- The rest of the PLL's set-up, once the fractional part and the word are known.
  program_pll-IsReady_at :
      (freq mix_div vco_power_ref : ℕ) (d : Dev)
      → Ready d
      → Ensures (λ a e. Ready e) (program_pll host freq mix_div vco_power_ref d)
  unfolding get_r82xx program_pll
  program_pll-IsReady_at freq mix_div vco_power_ref d v =
      (Keeps-bind (Keeps-unless _ no_result clock_ok) λ a.
          Keeps-bind (Keeps-when _ (Keeps-fail 0)) λ b.
            Keeps-bind (write_all-IsReady base host _ (omega arith)) λ c.
              Keeps-bind (Keeps-or_stuck _ sdm.0 sdm.1) λ s.
                Keeps-bind (write_all-IsReady base host _ (omega arith)) λ x.
                  Keeps-bind (wait_lock-IsReady 1) λ locked.
                    Keeps-bind (modify-IsReady base _ (λ q. (refl, refl, refl, refl))) λ y.
                      Keeps-when locked (
                        write_reg_mask-IsReady base host 0x1a 0x08 0x08 (omega arith)
                          (omega arith))).run
        d v
    where
      clock_ok : (u32 (2 * d.r82xx.xtal) == 0) ≡ false
      clock_ok = ground (arith, v.clocked, v.slow)

      vco_fra : ℕ
      vco_fra =
          pll_fra (u64 (freq * mix_div)) d.r82xx.xtal (pll_nint (u64 (freq * mix_div)) d.r82xx.xtal)

      ref : ℕ
      ref = u32 (d.r82xx.xtal + 500) / 1000

      sdm : (s : ℕ) × (sdm_loop 32 ref vco_fra 2 0 ≡ some s) × (s < 65536)
      sdm = sdm_loop_ends ref vco_fra (omega (arith, v.slow))

  pub program_pll-IsReady :
      (freq mix_div vco_power_ref : ℕ) → Keeps Ready (program_pll host freq mix_div vco_power_ref)
  program_pll-IsReady freq mix_div vco_power_ref = record {
    run = program_pll-IsReady_at freq mix_div vco_power_ref;
  }

  pub set_pll-IsReady : (freq : ℕ) → Keeps Ready (set_pll host freq)
  unfolding set_pll
  set_pll-IsReady freq = Keeps-bind Keeps-get λ d.
      Keeps-bind (write_all-IsReady base host _ (omega arith)) λ a.
        Keeps-bind (Keeps-or_stuck _ (divider.0, divider.1) divider.2) λ p.
          Keeps-bind (read-IsReady base host 0 5) λ status.
            Keeps-bind (write_reg_mask-IsReady base host 0x10 _ 0xe0 (omega arith) (omega arith))
              λ b. program_pll-IsReady freq p.0 _
    where
      divider :
          (m : ℕ) × (k : ℕ) × (find_divider 8 (u32 (freq + 500) / 1000) 2 ≡ some (m, k))
          × (m ≤ 128)
          × (k < 6)
      divider = find_divider_ends (u32 (freq + 500) / 1000)
