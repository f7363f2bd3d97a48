-- ===== src/R82xx/Sysfreq.antt =====
-- src/tuner_r82xx.c, `r82xx_sysfreq_sel`: the AGC and filter settings of a delivery system.
use rtl_sdr_blog.Common.{Bool, List, [], false, if◌then◌else◌, true, ℕ, ◌++◌, ◌==◌, ◌||◌, ◌∷◌}
use rtl_sdr_blog.State.{Host, M, TvType, get_r82xx, modify_r82xx, tuner_analog_tv, ◌>>=◌, ◌>>◌}
use rtl_sdr_blog.R82xx.Regs.{RegWrite, masked, plain, write_all}

-- The settings that the `switch` on the delivery system chooses.
pub record Settings : Type 0 where
  pub mixer_top : ℕ
  pub lna_top : ℕ
  pub cp_cur : ℕ
  pub div_buf_cur : ℕ
  pub lna_vth_l : ℕ
  pub mixer_vth_l : ℕ
  pub air_cable1_in : ℕ
  pub cable2_in : ℕ
  pub pre_dect : ℕ
  pub lna_discharge : ℕ
  pub filter_cur : ℕ

-- What the cases for DVB-T away from three frequencies, DVB-T2 and the default set.
abbrev pub default_settings : Settings
default_settings = record {
  mixer_top = 0x24;
  lna_top = 0xe5;
  cp_cur = 0x38;
  div_buf_cur = 0x30;
  lna_vth_l = 0x53;
  mixer_vth_l = 0x75;
  air_cable1_in = 0x00;
  cable2_in = 0x00;
  pre_dect = 0x40;
  lna_discharge = 14;
  filter_cur = 0x40;
}

-- `enum r82xx_delivery_system`.
abbrev pub sys_dvbt : ℕ
sys_dvbt = 1

abbrev pub sys_dvbt2 : ℕ
sys_dvbt2 = 2

abbrev pub sys_isdbt : ℕ
sys_isdbt = 3

unfoldable pub settings : ℕ → ℕ → Settings
settings delsys freq =
    if delsys == sys_dvbt
    then if (freq == 506000000) || (freq == 666000000) || (freq == 818000000)
      then record default_settings { mixer_top = 0x14; cp_cur = 0x28; div_buf_cur = 0x20 }
      else default_settings
    else if delsys == sys_dvbt2
    then default_settings
    else if delsys == sys_isdbt
    then record default_settings { lna_vth_l = 0x75 }
    else default_settings

abbrev pub is_analog : TvType → Bool
is_analog tuner_analog_tv = true
is_analog t = false

-- The writes up to `priv->input = air_cable1_in`.
unfoldable pub detector_writes : Bool → Settings → List RegWrite
detector_writes use_predetect s =
    (if use_predetect then masked 0x06 s.pre_dect 0x40 ∷ [] else [])
    ++ (masked 0x1d s.lna_top 0xc7
        ∷ masked 0x1c s.mixer_top 0xf8
        ∷ plain 0x0d s.lna_vth_l
        ∷ plain 0x0e s.mixer_vth_l
        ∷ [])

-- The writes after it, up to the LNA's; `div_buf_cur` is set to 0xa0 before its write.
unfoldable pub input_writes : Settings → List RegWrite
input_writes s =
    masked 0x05 s.air_cable1_in 0x60
    ∷ masked 0x06 s.cable2_in 0x08
    ∷ masked 0x11 s.cp_cur 0x38
    ∷ masked 0x17 0xa0 0x30
    ∷ masked 0x0a s.filter_cur 0x60
    ∷ []

unfoldable pub lna_writes : TvType → Settings → List RegWrite
lna_writes type s =
    if is_analog type
    then masked 0x06 0 0x40
      ∷ masked 0x1d s.lna_top 0x38
      ∷ masked 0x1c s.mixer_top 0x04
      ∷ masked 0x1e s.lna_discharge 0x1f
      ∷ masked 0x1a 0x00 0x30
      ∷ masked 0x10 0x00 0x04
      ∷ []
    else masked 0x1d 0 0x38
      ∷ masked 0x1c 0 0x04
      ∷ masked 0x06 0 0x40
      ∷ masked 0x1a 0x30 0x30
      ∷ masked 0x1d 0x18 0x38
      ∷ masked 0x1c s.mixer_top 0x04
      ∷ masked 0x1e s.lna_discharge 0x1f
      ∷ masked 0x1a 0x20 0x30
      ∷ []

module _ (host : Host) where
  unfoldable pub sysfreq_sel : ℕ → TvType → ℕ → M (Unit {0})
  sysfreq_sel freq type delsys = do
    p ← get_r82xx
    let s = settings delsys freq
    write_all host (detector_writes p.use_predetect s)
    modify_r82xx (λ q. record q { input = s.air_cable1_in })
    write_all host (input_writes s)
    write_all host (lna_writes type s)
