-- ===== src/Usb/Reg.antt =====
-- The registers of `enum usb_reg` and `enum sys_reg` that src/librtlsdr.c uses.
use rtl_sdr_blog.Common.{ℕ}

abbrev pub usb_sysctl : ℕ
usb_sysctl = 0x2000

abbrev pub usb_epa_ctl : ℕ
usb_epa_ctl = 0x2148

abbrev pub usb_epa_maxpkt : ℕ
usb_epa_maxpkt = 0x2158

abbrev pub demod_ctl : ℕ
demod_ctl = 0x3000

abbrev pub gpo : ℕ
gpo = 0x3001

abbrev pub gpoe : ℕ
gpoe = 0x3003

abbrev pub gpd : ℕ
gpd = 0x3004

abbrev pub demod_ctl_1 : ℕ
demod_ctl_1 = 0x300b
