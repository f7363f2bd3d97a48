-- ===== src/Discovery.antt =====
-- src/librtlsdr.c: the devices that are known, and which of those on the bus an index names.
pub mod Laws
pub mod Names
pub mod Serial
mod Tests
use mathlib.Core.Option
use Prim.Native.String.{String}
use text.Mathlib.Text.{◌==◌ as str_eq}
use rtl_sdr_blog.Common.{
  Bool, List, Option, [], false, if◌then◌else◌, none, some, suc, true, zero, ℕ, ◌&&◌, ◌+◌, ◌-◌,
  ◌==◌, ◌^◌, ◌∷◌,
}
use rtl_sdr_blog.Common.Word.{u32}

-- `rtlsdr_dongle_t`.
pub record Dongle : Type 0 where
  pub vid : ℕ
  pub pid : ℕ
  pub name : String

abbrev dongle : ℕ → ℕ → String → Dongle
dongle vid pid name = record { vid = vid; pid = pid; name = name }

abbrev pub known_devices : List Dongle
known_devices =
    dongle 0x0bda 0x2832 "Generic RTL2832U"
    ∷ dongle 0x0bda 0x2838 "Generic RTL2832U OEM"
    ∷ dongle 0x0413 0x6680 "DigitalNow Quad DVB-T PCI-E card"
    ∷ dongle 0x0413 0x6f0f "Leadtek WinFast DTV Dongle mini D"
    ∷ dongle 0x0458 0x707f "Genius TVGo DVB-T03 USB dongle (Ver. B)"
    ∷ dongle 0x0ccd 0x00a9 "Terratec Cinergy T Stick Black (rev 1)"
    ∷ dongle 0x0ccd 0x00b3 "Terratec NOXON DAB/DAB+ USB dongle (rev 1)"
    ∷ dongle 0x0ccd 0x00b4 "Terratec Deutschlandradio DAB Stick"
    ∷ dongle 0x0ccd 0x00b5 "Terratec NOXON DAB Stick - Radio Energy"
    ∷ dongle 0x0ccd 0x00b7 "Terratec Media Broadcast DAB Stick"
    ∷ dongle 0x0ccd 0x00b8 "Terratec BR DAB Stick"
    ∷ dongle 0x0ccd 0x00b9 "Terratec WDR DAB Stick"
    ∷ dongle 0x0ccd 0x00c0 "Terratec MuellerVerlag DAB Stick"
    ∷ dongle 0x0ccd 0x00c6 "Terratec Fraunhofer DAB Stick"
    ∷ dongle 0x0ccd 0x00d3 "Terratec Cinergy T Stick RC (Rev.3)"
    ∷ dongle 0x0ccd 0x00d7 "Terratec T Stick PLUS"
    ∷ dongle 0x0ccd 0x00e0 "Terratec NOXON DAB/DAB+ USB dongle (rev 2)"
    ∷ dongle 0x1554 0x5020 "PixelView PV-DT235U(RN)"
    ∷ dongle 0x15f4 0x0131 "Astrometa DVB-T/DVB-T2"
    ∷ dongle 0x15f4 0x0133 "HanfTek DAB+FM+DVB-T"
    ∷ dongle 0x185b 0x0620 "Compro Videomate U620F"
    ∷ dongle 0x185b 0x0650 "Compro Videomate U650F"
    ∷ dongle 0x185b 0x0680 "Compro Videomate U680F"
    ∷ dongle 0x1b80 0xd393 "GIGABYTE GT-U7300"
    ∷ dongle 0x1b80 0xd394 "DIKOM USB-DVBT HD"
    ∷ dongle 0x1b80 0xd395 "Peak 102569AGPK"
    ∷ dongle 0x1b80 0xd397 "KWorld KW-UB450-T USB DVB-T Pico TV"
    ∷ dongle 0x1b80 0xd398 "Zaapa ZT-MINDVBZP"
    ∷ dongle 0x1b80 0xd39d "SVEON STV20 DVB-T USB & FM"
    ∷ dongle 0x1b80 0xd3a4 "Twintech UT-40"
    ∷ dongle 0x1b80 0xd3a8 "ASUS U3100MINI_PLUS_V2"
    ∷ dongle 0x1b80 0xd3af "SVEON STV27 DVB-T USB & FM"
    ∷ dongle 0x1b80 0xd3b0 "SVEON STV21 DVB-T USB & FM"
    ∷ dongle 0x1d19 0x1101 "Dexatek DK DVB-T Dongle (Logilink VG0002A)"
    ∷ dongle 0x1d19 0x1102 "Dexatek DK DVB-T Dongle (MSI DigiVox mini II V3.0)"
    ∷ dongle 0x1d19 0x1103 "Dexatek Technology Ltd. DK 5217 DVB-T Dongle"
    ∷ dongle 0x1d19 0x1104 "MSI DigiVox Micro HD"
    ∷ dongle 0x1f4d 0xa803 "Sweex DVB-T USB"
    ∷ dongle 0x1f4d 0xb803 "GTek T803"
    ∷ dongle 0x1f4d 0xc803 "Lifeview LV5TDeluxe"
    ∷ dongle 0x1f4d 0xd286 "MyGica TD312"
    ∷ dongle 0x1f4d 0xd803 "PROlectrix DV107669"
    ∷ []

unfoldable pub find_in : List Dongle → ℕ → ℕ → Option Dongle
find_in [] vid pid = none
find_in (d ∷ devices) vid pid =
    if (d.vid == vid) && (d.pid == pid) then some d else find_in devices vid pid

unfoldable pub find_known_device : ℕ → ℕ → Option Dongle
find_known_device vid pid = find_in known_devices vid pid

-- What `libusb_get_device_descriptor` gives of a device.
pub record Descriptor : Type 0 where
  pub id_vendor : ℕ
  pub id_product : ℕ

abbrev pub is_known : Descriptor → Bool
is_known dd = elim (find_known_device dd.id_vendor dd.id_product) [ none ↦ false | some d ↦ true ]

unfoldable pub count_from : ℕ → List Descriptor → ℕ
count_from device_count [] = device_count
count_from device_count (dd ∷ list) =
    count_from (if is_known dd then u32 (device_count + 1) else device_count) list

-- `none` where `libusb_init` fails.
unfoldable pub get_device_count : Option (List Descriptor) → ℕ
get_device_count none = 0
get_device_count (some list) = count_from 0 list

-- A round: the device that it ends the search with, or the outcome of the next round.
abbrev pub name_round : Option Dongle → Bool → Option Dongle → Option Dongle → Option Dongle
name_round none at_index next skipped = skipped
name_round (some d) at_index next skipped = if at_index then some d else next

-- The loop of `rtlsdr_get_device_name`; `device` is what the last round found.
unfoldable pub name_from : ℕ → ℕ → Option Dongle → List Descriptor → Option Dongle
name_from index device_count device [] = device
name_from index device_count device (dd ∷ list) =
    let found = find_known_device dd.id_vendor dd.id_product in
    let next = name_from index (u32 (device_count + 1)) found list in
    let skipped = name_from index device_count none list in
    name_round found (index == device_count) next skipped

-- The empty name for no device.
unfoldable pub get_device_name : ℕ → Option (List Descriptor) → String
get_device_name index none = ""
get_device_name index (some list) = elim (name_from index 0 none list) [
  | none ↦ ""
  | some d ↦ d.name
]

-- The loop of `rtlsdr_get_device_usb_strings`, to the place of the device that it opens.
unfoldable pub strings_from : ℕ → ℕ → ℕ → List Descriptor → Option ℕ
strings_from index i device_count [] = none
strings_from index i device_count (dd ∷ list) =
    let next = strings_from index (i + 1) (u32 (device_count + 1)) list in
    let skipped = strings_from index (i + 1) device_count list in
    if is_known dd then (if index == device_count then some i else next) else skipped

-- The loop of `rtlsdr_open`: the index is compared with the count less 1 in each round.
unfoldable pub open_from : ℕ → ℕ → ℕ → List Descriptor → Option ℕ
open_from index i device_count [] = none
open_from index i device_count (dd ∷ list) =
    let device_count = if is_known dd then u32 (device_count + 1) else device_count in
    let next = open_from index (i + 1) device_count list in
    if index == u32 (device_count + (2 ^ 32 - 1)) then some i else next

-- What opening the device at a place and reading its strings comes to: the error code -(n + 1), or
-- the serial number.
pub data Opened : Type 0 where
  opened : String → Opened
  unopened : ℕ → Opened

abbrev pub Strings : Type 0
Strings = ℕ → Opened

-- `none` for no such device: nothing is written then and 0 is returned, the result of `libusb_init`,
-- which has taken the place of the -2 that `r` was set to.
unfoldable pub get_device_usb_strings : Strings → ℕ → List Descriptor → Option Opened
get_device_usb_strings strings index list =
    Option.map (λ place. strings place) (strings_from index 0 0 list)

-- Whether 0 is returned with the serial number that is looked for in `str`, which holds `left`
-- before the call.
abbrev pub has_serial : Option Opened → String → String → Bool
has_serial none left serial = str_eq serial left
has_serial (some (opened str)) left serial = str_eq serial str
has_serial (some (unopened n)) left serial = false

-- The loop of `rtlsdr_get_index_by_serial`, with the rounds that are left; what `str` holds before
-- each round is `junk`.
unfoldable pub serial_from : Strings → (ℕ → String) → List Descriptor → String → ℕ → ℕ → Option ℕ
serial_from strings junk list serial i zero = none
serial_from strings junk list serial i (suc left) =
    let rest = serial_from strings junk list serial (i + 1) left in
    if has_serial (get_device_usb_strings strings i list) (junk i) serial then some i else rest

-- The index, or an error: -2 with no known device, -3 where none has the serial number.
pub data Index : Type 0 where
  found_at : ℕ → Index
  not_found : ℕ → Index

-- Over a bus that stays as it is, where `libusb_init` succeeds.
unfoldable pub get_index_by_serial : Strings → (ℕ → String) → List Descriptor → String → Index
get_index_by_serial strings junk list serial =
    let cnt = get_device_count (some list) in
    if cnt == 0 then not_found 1 else elim (serial_from strings junk list serial 0 cnt) [
      | none ↦ not_found 2
      | some i ↦ found_at i
    ]
