-- ===== src/Usb/Block.antt =====
-- `enum blocks` of src/librtlsdr.c.
use rtl_sdr_blog.Common.{ℕ}

abbrev pub demodb : ℕ
demodb = 0

abbrev pub usbb : ℕ
usbb = 1

abbrev pub sysb : ℕ
sysb = 2

abbrev pub iicb : ℕ
iicb = 6
