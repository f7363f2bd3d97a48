-- ===== src/Discovery/Tests.antt =====
-- Devices on a bus.
use rtl_sdr_blog.Common.{
  List, [], arith, false, get_elem?, length, none, refl, some, true, ℕ, ◌==◌, ◌∷◌, ◌≡◌,
}
use rtl_sdr_blog.Discovery.{
  Descriptor, Strings, find_in, find_known_device, get_device_count, get_device_name,
  get_index_by_serial, name_from, open_from, opened, strings_from,
}
use rtl_sdr_blog.Discovery.Laws.{known_places, open_from-strings_from}
use rtl_sdr_blog.Discovery.Names.{get_device_name-known_dongles, known_dongles, last_found, or_else}
use rtl_sdr_blog.Discovery.Serial.{IsFirstWith, get_index_by_serial-IsFirstWith}

abbrev device : ℕ → ℕ → Descriptor
device vid pid = record { id_vendor = vid; id_product = pid }

-- A hub, a dongle, a keyboard and another dongle.
abbrev bus : List Descriptor
bus = device 0x1d6b 2 ∷ device 0x0bda 0x2838 ∷ device 0x046d 1 ∷ device 0x1f4d 0xd803 ∷ []

abbrev serials : Strings
serials place = elim (place == 1) [ true ↦ opened "1" | false ↦ opened "2" ]

open_from-strings_from_example :
    (open_from 1 0 0 bus ≡ get_elem? (known_places 0 bus) 1)
    × (strings_from 1 0 0 bus ≡ get_elem? (known_places 0 bus) 1)
    × (get_device_count (some bus) ≡ length (known_places 0 bus))
open_from-strings_from_example = open_from-strings_from 1 bus (omega arith) (omega arith)

-- No device has the index 2, and the name is that of the last one.
get_device_name-known_dongles_example :
    get_device_name 2 (some bus)
    ≡ (elim (or_else (get_elem? (known_dongles bus) 2) (last_found none bus)) [
      | none ↦ ""
      | some d ↦ d.name
    ])
get_device_name-known_dongles_example = get_device_name-known_dongles 2 bus (omega arith)

last_name : get_device_name 2 (some bus) ≡ "PROlectrix DV107669"
unfolding get_device_name name_from find_known_device find_in
last_name = refl

get_index_by_serial-IsFirstWith_example :
    IsFirstWith serials (λ i. "2") bus "2" (get_index_by_serial serials (λ i. "2") bus "2")
get_index_by_serial-IsFirstWith_example =
    get_index_by_serial-IsFirstWith serials (λ i. "2") bus "2" (omega arith)
