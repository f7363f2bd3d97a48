-- ===== src/Config/Image/Roundtrip.antt =====
-- A configuration is read as it was written.
use rtl_sdr_blog.Common.{
  Bool, arith, bit_and, bit_or, false, if◌then◌else◌, length, refl, some, true, ℕ, ◌*◌, ◌+◌, ◌/◌,
  ◌<◌, ◌==◌, ◌^◌, ◌∙◌, ◌≡◌, ◌≤◌,
}
use rtl_sdr_blog.Config.{Data, set_strings}
use rtl_sdr_blog.Common.Masks.{bit_and_ones, bit_or_above}
use rtl_sdr_blog.Common.Word.{nonzero}
use rtl_sdr_blog.Config.Strings.{get_strings-set_strings, set_strings_before}
use rtl_sdr_blog.Config.Image.{Conf, gen_eeprom_from_conf, header, parse_eeprom_to_conf}

-- Two bytes of a number of 16 bits.
two_bytes : (n : ℕ) → n < 2 ^ 16 → bit_or (bit_and n 0xff) (bit_and (n / 2 ^ 8) 0xff * 2 ^ 8) ≡ n
two_bytes n h =
    bit_or_above 8 (bit_and n 0xff) (bit_and (n / 2 ^ 8) 0xff) (omega (arith, bit_and_ones 8 n))
    ∙ omega (arith, bit_and_ones 8 n, bit_and_ones 8 (n / 2 ^ 8))

serial_flag : (b : Bool) → ((if b then 0xa5 else 0x00) == 0xa5) ≡ b
serial_flag true = refl
serial_flag false = refl

-- The two flags of byte 7, from all four cases.
wakeup_flag :
    (wakeup bt : Bool)
    → nonzero (bit_and (bit_or (bit_or 0x14 (if wakeup then 1 else 0)) (if bt then 2 else 0)) 1)
      ≡ wakeup
wakeup_flag true true = refl
wakeup_flag true false = refl
wakeup_flag false true = refl
wakeup_flag false false = refl

bt_flag :
    (wakeup bt : Bool)
    → nonzero (bit_and (bit_or (bit_or 0x14 (if wakeup then 1 else 0)) (if bt then 2 else 0)) 2)
      ≡ bt
bt_flag true true = refl
bt_flag true false = refl
bt_flag false true = refl
bt_flag false false = refl

-- For any contents, and a configuration with identifiers below 2^16 and strings of 31 characters
-- together at most, `gen_eeprom_from_conf` returns the end of the last descriptor, and
-- `parse_eeprom_to_conf` reads the whole configuration back from what it wrote.
pub parse_eeprom_to_conf-gen_eeprom_from_conf :
    (conf : Conf) (dat : Data)
    → conf.vendor_id < 2 ^ 16
    → conf.product_id < 2 ^ 16
    → length conf.manufacturer + length conf.product + length conf.serial ≤ 31
    → (parse_eeprom_to_conf (gen_eeprom_from_conf conf dat).0 ≡ conf)
      × ((gen_eeprom_from_conf conf dat).1
          ≡ some (15 + 2 * (length conf.manufacturer + length conf.product + length conf.serial)))
unfolding parse_eeprom_to_conf gen_eeprom_from_conf header
parse_eeprom_to_conf-gen_eeprom_from_conf conf dat vendor prod fits = (
  rw
      (
        before 2 (omega arith),
        before 3 (omega arith),
        before 4 (omega arith),
        before 5 (omega arith),
        before 6 (omega arith),
        before 7 (omega arith),
        (get_strings-set_strings (header conf dat) conf.manufacturer conf.product conf.serial
            fits).0,
        two_bytes conf.vendor_id vendor,
        two_bytes conf.product_id prod,
        serial_flag conf.have_serial,
        bt_flag conf.remote_wakeup conf.enable_bt,
        wakeup_flag conf.remote_wakeup conf.enable_bt,
      )
      refl,
  (get_strings-set_strings (header conf dat) conf.manufacturer conf.product conf.serial fits).1,
)
  where
    before :
        (k : ℕ)
        → k < 9
        → (set_strings (header conf dat) conf.manufacturer conf.product conf.serial).0 k
          ≡ header conf dat k
    before k below =
        set_strings_before (header conf dat) conf.manufacturer conf.product conf.serial k fits below
