-- ===== src/Discovery/Serial.antt =====
-- The index that a serial number stands for.
use Prim.Native.String.{String}
use native.Mathlib.Decide.{dec_lt}
use mathlib.Core.Option
use text.Mathlib.Text.{◌==◌ as str_eq}
use rtl_sdr_blog.Common.{
  ==_iff, Bool-cases, List, Option, Option-cases, [], ap, arith, false, get_elem?, inl, inr, length,
  none, refl, some, suc, sym, true, zero, ℕ, ◌+◌, ◌-◌, ◌<◌, ◌==◌, ◌^◌, ◌∙◌, ◌∷◌, ◌≡◌, ◌≢◌, ◌≤◌, ◌⊎◌,
}
use rtl_sdr_blog.Discovery.{
  Descriptor, Index, Opened, Strings, found_at, get_device_count, get_device_usb_strings,
  get_index_by_serial, has_serial, not_found, opened, serial_from, unopened,
}
use rtl_sdr_blog.Discovery.Laws.{count_from-known_places, known_places, strings_from-known_places}

-- A known device at an index of which the strings were read, with this serial number.
pub record Carries (strings : Strings) (list : List Descriptor) (serial : String) (i : ℕ)
    : Type 0 where
  pub place : ℕ
  pub str : String
  pub at_index : get_elem? (known_places 0 list) i ≡ some place
  pub read : strings place ≡ opened str
  pub same : str_eq serial str ≡ true

get_elem?-in {ℓ} : {A : Type ℓ} (xs : List A) (i : ℕ) → i < length xs → get_elem? xs i ≢ none
get_elem?-in [] i h e = absurd (omega arith)
get_elem?-in (x ∷ xs) zero h e = absurd (cc e)
get_elem?-in (x ∷ xs) (suc i) h e = get_elem?-in xs i (omega arith) e

count_of :
    (list : List Descriptor)
    → length list < 2 ^ 32
    → get_device_count (some list) ≡ length (known_places 0 list)
unfolding get_device_count
count_of list small = count_from-known_places 0 0 list (omega arith) ∙ omega arith

module _ (strings : Strings) (junk : ℕ → String) (list : List Descriptor) (serial : String) where
  -- What the round for an index finds.
  abbrev Says : ℕ → Type 0
  Says i = has_serial (get_device_usb_strings strings i list) (junk i) serial ≡ true

  -- The first index from `i` to below `i + left` whose round finds it, or none does.
  abbrev IsFirst : ℕ → ℕ → Option ℕ → Type 0
  IsFirst i left none = (j : ℕ) → i ≤ j → j < i + left → ¬ Says j
  IsFirst i left (some k) = (i ≤ k) × (k < i + left) × Says k × ((j : ℕ) → i ≤ j → j < k → ¬ Says j)

  serial_from-IsFirst : (i left : ℕ) → IsFirst i left (serial_from strings junk list serial i left)
  unfolding serial_from
  serial_from-IsFirst i zero = λ j low high. absurd (omega arith)
  serial_from-IsFirst i (suc left) =
      elim (Bool-cases (has_serial (get_device_usb_strings strings i list) (junk i) serial)) [
        | inl here ↦ rw here (omega arith, omega arith, here, λ j low high. absurd (omega arith))
        | inr other ↦ rw other (
            later other (serial_from strings junk list serial (i + 1) left)
              (serial_from-IsFirst (i + 1) left))
      ]
    where
      step :
          has_serial (get_device_usb_strings strings i list) (junk i) serial ≡ false
          → (j : ℕ) → (i + 1 ≤ j → ¬ Says j)
          → i ≤ j
          → ¬ Says j
      step other j later low c = elim (dec_lt i j) [
        | yes after ↦ later (omega arith) c
        | no at_i ↦ cc (
          other,
          c,
          ap (λ k. has_serial (get_device_usb_strings strings k list) (junk k) serial)
              (same at_i low),
        )
      ]
        where
          same : ¬ (i < j) → i ≤ j → i ≡ j
          same at_i low = omega arith

      later :
          has_serial (get_device_usb_strings strings i list) (junk i) serial ≡ false
          → (o : Option ℕ) → IsFirst (i + 1) left o
          → IsFirst i (suc left) o
      later other none h = λ j low high. step other j (λ after. h j after (omega arith)) low
      later other (some k) h = (
        omega arith,
        omega arith,
        h.2,
        λ j low high. step other j (λ after. h.3 j after high) low,
      )

  abbrev count : ℕ
  count = get_device_count (some list)

  -- The known device that an index below the count stands for.
  says_at :
      (i place : ℕ)
      → length list < 2 ^ 32
      → get_elem? (known_places 0 list) i ≡ some place
      → get_device_usb_strings strings i list ≡ some (strings place)
  unfolding get_device_usb_strings
  says_at i place small e = ap (Option.map (λ p. strings p)) (
      strings_from-known_places i 0 0 list (omega arith) (omega arith)
      ∙ (ap (get_elem? (known_places 0 list)) {x = i - 0} {y = i} (omega arith) ∙ e))

  Says-Carries : (i : ℕ) → length list < 2 ^ 32 → i < count → Says i → Carries strings list serial i
  Says-Carries i small below says = elim (Option-cases (get_elem? (known_places 0 list) i)) [
    | inl missing ↦ absurd (get_elem?-in (known_places 0 list) i (omega (arith, in_places)) missing)
    | inr (place, at_index) ↦
        by_read place at_index (strings place) refl
          (ap (λ o. has_serial o (junk i) serial) (sym (says_at i place small at_index)) ∙ says)
  ]
    where
      in_places : count ≡ length (known_places 0 list)
      in_places = count_of list small

      by_read :
          (place : ℕ)
          → get_elem? (known_places 0 list) i ≡ some place
          → (o : Opened) → strings place ≡ o
          → has_serial (some o) (junk i) serial ≡ true
          → Carries strings list serial i
      by_read place at_index (opened str) e same = record {
        place = place;
        str = str;
        at_index = at_index;
        read = e;
        same = same;
      }
      by_read place at_index (unopened n) e same = absurd (cc same)

  Carries-Says : (i : ℕ) → length list < 2 ^ 32 → Carries strings list serial i → Says i
  Carries-Says i small c = rw (says_at i c.place small c.at_index, c.read) c.same

  -- The first known device whose serial number it is, or the reason why there is none.
  abbrev pub IsFirstWith : Index → Type 0
  IsFirstWith (found_at i) =
      (i < count)
      × Carries strings list serial i
      × ((j : ℕ) → j < i → ¬ Carries strings list serial j)
  IsFirstWith (not_found n) =
      ((n ≡ 1) × (count ≡ 0))
      ⊎ ((n ≡ 2) × (0 < count) × ((j : ℕ) → j < count → ¬ Carries strings list serial j))

  -- For any bus of fewer than 2^32 devices, any serial number, and whatever the buffer of the
  -- strings holds before each round, `rtlsdr_get_index_by_serial` returns the first index whose
  -- device can be opened and has that serial number, -2 exactly with no known device, and
  -- otherwise -3 where no index has it.
  pub get_index_by_serial-IsFirstWith :
      length list < 2 ^ 32 → IsFirstWith (get_index_by_serial strings junk list serial)
  unfolding get_index_by_serial
  get_index_by_serial-IsFirstWith small = elim (Bool-cases (count == 0)) [
    | inl empty ↦ rw empty (inl (refl, (==_iff count 0).0 empty))
    | inr some_device ↦ rw some_device (
        by_search (serial_from strings junk list serial 0 count) (serial_from-IsFirst 0 count)
          (ground arith))
  ]
    where
      by_search :
          (o : Option ℕ)
          → IsFirst 0 count o
          → 0 < count
          → IsFirstWith (elim o [ none ↦ not_found 2 | some i ↦ found_at i ])
      by_search none h positive =
          inr
            (refl, positive, λ j below c. h j (omega arith) (omega arith) (Carries-Says j small c))
      by_search (some k) h positive = (
        omega (arith, h.1),
        Says-Carries k small (omega (arith, h.1)) h.2,
        λ j below c. h.3 j (omega arith) below (Carries-Says j small c),
      )
