-- ===== src/Config/Image.antt =====
-- src/rtl_eeprom.c: the whole configuration in the EEPROM's contents, and the built-in ones.
pub mod Roundtrip
use rtl_sdr_blog.Common.{
  Bool, List, Option, [], bit_and, bit_or, false, if◌then◌else◌, true, ℕ, ◌*◌, ◌/◌, ◌==◌, ◌^◌, ◌∷◌,
}
use rtl_sdr_blog.Common.Word.{nonzero}
use rtl_sdr_blog.Config.{Data, get_strings, put, set_strings}

-- `rtlsdr_config_t`.
pub record Conf : Type 0 where
  pub vendor_id : ℕ
  pub product_id : ℕ
  pub manufacturer : List ℕ
  pub product : List ℕ
  pub serial : List ℕ
  pub have_serial : Bool
  pub enable_bt : Bool
  pub remote_wakeup : Bool

abbrev pub flags : Conf → ℕ
flags conf =
    bit_or (bit_or 0x14 (if conf.remote_wakeup then 0x01 else 0x00))
      (if conf.enable_bt then 0x02 else 0x00)

-- The bytes before the strings.
unfoldable pub header : Conf → Data → Data
header conf dat = put 8 0x02 (
    put 7 (flags conf) (
      put 6 (if conf.have_serial then 0xa5 else 0x00) (
        put 5 (bit_and (conf.product_id / 2 ^ 8) 0xff) (
          put 4 (bit_and conf.product_id 0xff) (
            put 3 (bit_and (conf.vendor_id / 2 ^ 8) 0xff)
              (put 2 (bit_and conf.vendor_id 0xff) (put 1 0x32 (put 0 0x28 dat))))))))

unfoldable pub gen_eeprom_from_conf : Conf → Data → Data × Option ℕ
gen_eeprom_from_conf conf dat =
    set_strings (header conf dat) conf.manufacturer conf.product conf.serial

-- The bytes of the header are not looked at but in a message.
unfoldable pub parse_eeprom_to_conf : Data → Conf
parse_eeprom_to_conf dat = record {
  vendor_id = bit_or (dat 2) (dat 3 * 2 ^ 8);
  product_id = bit_or (dat 4) (dat 5 * 2 ^ 8);
  manufacturer = (get_strings dat).0;
  product = (get_strings dat).1;
  serial = (get_strings dat).2;
  have_serial = dat 6 == 0xa5;
  enable_bt = nonzero (bit_and (dat 7) 0x02);
  remote_wakeup = nonzero (bit_and (dat 7) 0x01);
}

pub data Config : Type 0 where
  conf_none : Config
  realtek : Config
  realtek_eeprom : Config
  terratec_noxon : Config
  terratec_t_black : Config
  terratec_t_plus : Config

-- The built-in strings, by their bytes.
-- "Generic"
abbrev pub generic_str : List ℕ
generic_str = 71 ∷ 101 ∷ 110 ∷ 101 ∷ 114 ∷ 105 ∷ 99 ∷ []

-- "Realtek"
abbrev pub realtek_str : List ℕ
realtek_str = 82 ∷ 101 ∷ 97 ∷ 108 ∷ 116 ∷ 101 ∷ 107 ∷ []

-- "NOXON"
abbrev pub noxon_str : List ℕ
noxon_str = 78 ∷ 79 ∷ 88 ∷ 79 ∷ 78 ∷ []

-- "RTL2832U DVB-T"
abbrev pub dvb_t_str : List ℕ
dvb_t_str = 82 ∷ 84 ∷ 76 ∷ 50 ∷ 56 ∷ 51 ∷ 50 ∷ 85 ∷ 32 ∷ 68 ∷ 86 ∷ 66 ∷ 45 ∷ 84 ∷ []

-- "RTL2838UHIDIR"
abbrev pub oem_str : List ℕ
oem_str = 82 ∷ 84 ∷ 76 ∷ 50 ∷ 56 ∷ 51 ∷ 56 ∷ 85 ∷ 72 ∷ 73 ∷ 68 ∷ 73 ∷ 82 ∷ []

-- "DAB Stick"
abbrev pub dab_stick_str : List ℕ
dab_stick_str = 68 ∷ 65 ∷ 66 ∷ 32 ∷ 83 ∷ 116 ∷ 105 ∷ 99 ∷ 107 ∷ []

-- "0"
abbrev pub zero_str : List ℕ
zero_str = 48 ∷ []

-- "00000001"
abbrev pub one_str : List ℕ
one_str = 48 ∷ 48 ∷ 48 ∷ 48 ∷ 48 ∷ 48 ∷ 48 ∷ 49 ∷ []

unfoldable pub gen_default_conf : Config → Conf → Conf
gen_default_conf conf_none conf = conf
gen_default_conf realtek conf = record {
  vendor_id = 0x0bda;
  product_id = 0x2832;
  manufacturer = generic_str;
  product = dvb_t_str;
  serial = zero_str;
  have_serial = true;
  enable_bt = false;
  remote_wakeup = true;
}
gen_default_conf realtek_eeprom conf = record {
  vendor_id = 0x0bda;
  product_id = 0x2838;
  manufacturer = realtek_str;
  product = oem_str;
  serial = one_str;
  have_serial = true;
  enable_bt = true;
  remote_wakeup = false;
}
gen_default_conf terratec_noxon conf = record {
  vendor_id = 0x0ccd;
  product_id = 0x00b3;
  manufacturer = noxon_str;
  product = dab_stick_str;
  serial = zero_str;
  have_serial = true;
  enable_bt = false;
  remote_wakeup = true;
}
gen_default_conf terratec_t_black conf = record {
  vendor_id = 0x0ccd;
  product_id = 0x00a9;
  manufacturer = realtek_str;
  product = oem_str;
  serial = one_str;
  have_serial = true;
  enable_bt = true;
  remote_wakeup = false;
}
gen_default_conf terratec_t_plus conf = record {
  vendor_id = 0x0ccd;
  product_id = 0x00d7;
  manufacturer = realtek_str;
  product = oem_str;
  serial = one_str;
  have_serial = true;
  enable_bt = true;
  remote_wakeup = false;
}
