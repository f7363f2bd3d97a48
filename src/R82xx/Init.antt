-- ===== src/R82xx/Init.antt =====
-- src/tuner_r82xx.c: `r82xx_standby`, `r82xx_xtal_check` and `r82xx_init`.
use rtl_sdr_blog.Common.{
  Bool, List, [], bit_and, get_or, if◌then◌else◌, ltb, not, true, ℕ, ◌&&◌, ◌==◌, ◌||◌, ◌∷◌,
}
use rtl_sdr_blog.Common.Word.{nonzero}
use rtl_sdr_blog.State.{
  Host, M, XtalCap, fail, finally_r82xx, get_r82xx, high_cap_0p, ignore, modify_r82xx, pure,
  tuner_digital_tv, tuner_none, when, ◌>>=◌, ◌>>◌,
}
use rtl_sdr_blog.Usb.{status}
use rtl_sdr_blog.R82xx.Tables.{init_array, xtal_capacitor}
use rtl_sdr_blog.R82xx.Regs.{
  RegWrite, masked, plain, read, write, write_all, write_reg, write_reg_mask,
}
use rtl_sdr_blog.R82xx.Sysfreq.{sys_dvbt, sysfreq_sel}
use rtl_sdr_blog.R82xx.Standard.{set_tv_standard}

abbrev pub standby_writes : List RegWrite
standby_writes =
    plain 0x06 0xb1
    ∷ plain 0x05 0xa0
    ∷ plain 0x07 0x3a
    ∷ plain 0x08 0x40
    ∷ plain 0x09 0xc0
    ∷ plain 0x0a 0x36
    ∷ plain 0x0c 0x35
    ∷ plain 0x0f 0x68
    ∷ plain 0x11 0x03
    ∷ plain 0x17 0xf4
    ∷ []

-- Whether a round of the crystal check ends the loop, from the byte `data[2]`.
unfoldable pub xtal_found : ℕ → ℕ → Bool
xtal_found xtal status =
    let val = bit_and status 0x3f in
    nonzero (bit_and status 0x40)
    && (((xtal == 16000000) && (ltb 29 val || ltb val 23)) || not (val == 0x3f))

module _ (host : Host) where
  unfoldable pub standby : M (Unit {0})
  standby = do
    p ← get_r82xx
    when p.init_done (do
      write_all host standby_writes
      finally_r82xx (λ q. record q { tv_type = tuner_none }) (write_reg host 0x19 0x0c))

  -- The loop over the capacitors; -1 if none does.
  unfoldable pub try_capacitors : List (ℕ × XtalCap) → M XtalCap
  try_capacitors [] = fail 0
  try_capacitors ((bits, cap) ∷ rest) = do
    let next = try_capacitors rest
    write_reg_mask host 0x10 bits 0x1b
    status ← read host 0x00 3
    p ← get_r82xx
    if xtal_found p.xtal (get_or status 2 0) then pure cap else next

  unfoldable pub xtal_check : M XtalCap
  xtal_check = do
    modify_r82xx (λ q. record q { regs = init_array })
    write_all host (
        masked 0x10 0x0b 0x0b
        ∷ masked 0x1a 0x00 0x0c
        ∷ masked 0x13 0x7f 0x7f
        ∷ masked 0x13 0x00 0x40
        ∷ [])
    try_capacitors xtal_capacitor

  -- The return value of the first write is lost, and that of `r82xx_sysfreq_sel` returned.
  unfoldable pub init : M (Unit {0})
  init = do
    modify_r82xx (λ q. record q { xtal_cap_sel = high_cap_0p })
    ignore (write host 0x05 init_array)
    set_tv_standard host 3 tuner_digital_tv 0
    finally_r82xx (λ q. record q { init_done = true })
        (sysfreq_sel host 0 tuner_digital_tv sys_dvbt)
