-- ===== src/Config.antt =====
-- src/rtl_eeprom.c: the string descriptors in the EEPROM's contents. A string is the list of its
-- bytes, none of them 0.
pub mod Strings
pub mod Image
mod Tests
use rtl_sdr_blog.Common.{
  List, Option, [], if◌then◌else◌, leb, length, ltb, none, some, suc, zero, ℕ, ◌*◌, ◌+◌, ◌-◌, ◌==◌,
  ◌∷◌,
}

-- The contents, a byte for each address.
abbrev pub Data : Type 0
Data = ℕ → ℕ

abbrev pub put : ℕ → ℕ → Data → Data
put i v dat k = if k == i then v else dat k

-- The loop of `set_string_descriptor` from `j` on; `none` where the string is too long. What was
-- written by then stays.
unfoldable pub set_chars : ℕ → ℕ → Data → List ℕ → Data × Option ℕ
set_chars pos j dat [] = (dat, some j)
set_chars pos j dat (c ∷ str) =
    let rest = set_chars pos (j + 2) (put (pos + j + 1) 0 (put (pos + j) c dat)) str in
    if leb 78 (pos + j) then (dat, none) else rest

abbrev pub set_length : ℕ → Data × Option ℕ → Data × Option ℕ
set_length pos (dat, none) = (dat, none)
set_length pos (dat, some j) = (put pos j dat, some (pos + j))

-- A position that is negative is `none`.
unfoldable pub set_string_descriptor : Option ℕ → Data → List ℕ → Data × Option ℕ
set_string_descriptor none dat str = (dat, none)
set_string_descriptor (some pos) dat str =
    set_length pos (set_chars pos 2 (put (pos + 1) 0x03 dat) str)

-- The loop of `get_string_descriptor`, with what is left of the length.
unfoldable pub get_chars : ℕ → ℕ → ℕ → Data → List ℕ
get_chars zero i left dat = []
get_chars (suc fuel) i left dat =
    let rest = get_chars fuel (i + 2) (left - 2) dat in if ltb 0 left then dat i ∷ rest else []

-- The string, and the position after it. The length is a byte, so that 128 rounds are enough.
unfoldable pub get_string_descriptor : ℕ → Data → List ℕ × ℕ
get_string_descriptor pos dat =
    let str = get_chars 128 (pos + 2) (dat pos - 2) dat in (str, pos + 2 + 2 * length str)

-- The strings in `gen_eeprom_from_conf`: manufacturer, product and serial number, one after the
-- other, then the length of the infrared part.
unfoldable pub set_strings : Data → List ℕ → List ℕ → List ℕ → Data × Option ℕ
set_strings dat manufacturer product serial =
    let (dat, pos) = set_string_descriptor (some 9) dat manufacturer in
    let (dat, pos) = set_string_descriptor pos dat product in
    let (dat, pos) = set_string_descriptor pos dat serial in (put 78 0 dat, pos)

-- The strings in `parse_eeprom_to_conf`.
unfoldable pub get_strings : Data → List ℕ × List ℕ × List ℕ
get_strings dat =
    let (manufacturer, pos) = get_string_descriptor 9 dat in
    let (product, pos) = get_string_descriptor pos dat in
    let (serial, pos) = get_string_descriptor pos dat in (manufacturer, product, serial)
