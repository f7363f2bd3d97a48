-- ===== src/Discovery/Names.antt =====
-- The names that an index stands for.
use rtl_sdr_blog.Common.{
  Bool-cases, List, Option, [], ap, arith, get_elem?, inl, inr, length, none, refl, some, sym, ℕ,
  ◌+◌, ◌-◌, ◌<◌, ◌==◌, ◌^◌, ◌∙◌, ◌∷◌, ◌≡◌, ◌≤◌,
}
use rtl_sdr_blog.Common.Word.{u32}
use rtl_sdr_blog.Discovery.{
  Descriptor, Dongle, find_known_device, get_device_name, name_from, name_round,
}
use rtl_sdr_blog.Discovery.Laws.{above, get_elem?_first, get_elem?_later}

-- The known devices on the bus, in its order.
abbrev pub cons_found : Option Dongle → List Dongle → List Dongle
cons_found none devices = devices
cons_found (some d) devices = d ∷ devices

unfoldable pub known_dongles : List Descriptor → List Dongle
known_dongles [] = []
known_dongles (dd ∷ list) =
    cons_found (find_known_device dd.id_vendor dd.id_product) (known_dongles list)

-- What is known of the last device on the bus.
unfoldable pub last_found : Option Dongle → List Descriptor → Option Dongle
last_found device [] = device
last_found device (dd ∷ list) = last_found (find_known_device dd.id_vendor dd.id_product) list

abbrev pub or_else : Option Dongle → Option Dongle → Option Dongle
or_else none other = other
or_else (some d) other = some d

name_from-known_dongles :
    (index n : ℕ) (device : Option Dongle) (list : List Descriptor)
    → n + length list < 2 ^ 32
    → n ≤ index
    → name_from index n device list
      ≡ or_else (get_elem? (known_dongles list) (index - n)) (last_found device list)
unfolding name_from known_dongles last_found
name_from-known_dongles index n device [] h low = refl
name_from-known_dongles index n device (dd ∷ list) h low =
    by_round (find_known_device dd.id_vendor dd.id_product)
      (λ o. name_from-known_dongles index n o list (omega arith) low)
      (λ o above. name_from-known_dongles index (n + 1) o list (omega arith) above)
  where
    fits : u32 (n + 1) ≡ n + 1
    fits = omega arith

    by_round :
        (o : Option Dongle)
        → ((o : Option Dongle)
            → name_from index n o list
              ≡ or_else (get_elem? (known_dongles list) (index - n)) (last_found o list))
        → ((o : Option Dongle)
            → n + 1 ≤ index
            → name_from index (n + 1) o list
              ≡ or_else (get_elem? (known_dongles list) (index - (n + 1))) (last_found o list))
        → name_round o
            (index == n)
            (name_from index (u32 (n + 1)) o list)
            (name_from index n none list)
          ≡ or_else (get_elem? (cons_found o (known_dongles list)) (index - n)) (last_found o list)
    by_round none here next = here none
    by_round (some d) here next = elim (Bool-cases (index == n)) [
      | inl same ↦ rw same (
          sym (
            ap (λ o. or_else o (last_found (some d) list))
              (get_elem?_first index n d (known_dongles list) same)))
      | inr other ↦
          rw (other, fits)
            (next (some d) (above index n low other)
              ∙ sym (
                  ap (λ o. or_else o (last_found (some d) list))
                    (get_elem?_later index n d (known_dongles list) low other)))
    ]

-- For any list of fewer than 2^32 devices, `rtlsdr_get_device_name` gives the name of the known
-- device that the index counts; for an index that counts none it gives that of the last device on
-- the bus if that one is known, and the empty name if not.
pub get_device_name-known_dongles :
    (index : ℕ) (list : List Descriptor)
    → length list < 2 ^ 32
    → get_device_name index (some list)
      ≡ (elim (or_else (get_elem? (known_dongles list) index) (last_found none list)) [
        | none ↦ ""
        | some d ↦ d.name
      ])
unfolding get_device_name
get_device_name-known_dongles index list h =
    ap (λ o. elim o [ none ↦ "" | some d ↦ d.name ])
      (name_from-known_dongles index 0 none list (omega arith) (omega arith)
        ∙ ap (λ k. or_else (get_elem? (known_dongles list) k) (last_found none list))
            {x = index - 0} (omega arith))
