-- ===== src/Config/Tests.antt =====
-- The configuration of a dongle.
use rtl_sdr_blog.Common.{[], arith, false, length, some, true, ◌+◌, ◌∷◌, ◌≡◌, ◌≤◌}
use rtl_sdr_blog.Config.{Data}
use rtl_sdr_blog.Config.Image.{
  Conf, Config, conf_none, gen_default_conf, gen_eeprom_from_conf, parse_eeprom_to_conf, realtek,
  realtek_eeprom, terratec_noxon, terratec_t_black, terratec_t_plus,
}
use rtl_sdr_blog.Config.Image.Roundtrip.{parse_eeprom_to_conf-gen_eeprom_from_conf}

-- A dongle with an EEPROM that was erased.
abbrev erased_image : Data
erased_image k = 255

abbrev mine : Conf
mine = record {
  vendor_id = 0x0bda;
  product_id = 0x2838;
  manufacturer = 71 ∷ 101 ∷ 110 ∷ [];
  product = 82 ∷ 84 ∷ 76 ∷ 50 ∷ [];
  serial = 48 ∷ [];
  have_serial = true;
  enable_bt = true;
  remote_wakeup = false;
}

parse_eeprom_to_conf-gen_eeprom_from_conf_example :
    (parse_eeprom_to_conf (gen_eeprom_from_conf mine erased_image).0 ≡ mine)
    × ((gen_eeprom_from_conf mine erased_image).1 ≡ some 31)
parse_eeprom_to_conf-gen_eeprom_from_conf_example =
    parse_eeprom_to_conf-gen_eeprom_from_conf mine erased_image (omega arith) (omega arith)
      (omega arith)

-- The strings of each built-in configuration are short enough.
built_in_fits :
    (config : Config)
    → let conf = gen_default_conf config mine in
      length conf.manufacturer + length conf.product + length conf.serial ≤ 31
unfolding gen_default_conf
built_in_fits conf_none = omega arith
built_in_fits realtek = omega arith
built_in_fits realtek_eeprom = omega arith
built_in_fits terratec_noxon = omega arith
built_in_fits terratec_t_black = omega arith
built_in_fits terratec_t_plus = omega arith
