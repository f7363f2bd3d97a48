-- ===== src/Discovery/Laws.antt =====
-- The three loops over the devices on the bus agree on what an index names.
use rtl_sdr_blog.Common.{
  Bool-cases, List, [], ap, arith, false, get_elem?, if◌then◌else◌, inl, inr, length, refl, some,
  suc, sym, true, ℕ, ◌+◌, ◌-◌, ◌<◌, ◌==◌, ◌^◌, ◌∙◌, ◌∷◌, ◌≡◌, ◌≤◌,
}
use rtl_sdr_blog.Common.Word.{u32}
use rtl_sdr_blog.Discovery.{
  Descriptor, count_from, get_device_count, is_known, open_from, strings_from,
}

-- The places of the known devices, from the place `i` on.
unfoldable pub known_places : ℕ → List Descriptor → List ℕ
known_places i [] = []
known_places i (dd ∷ list) =
    if is_known dd then i ∷ known_places (i + 1) list else known_places (i + 1) list

pub count_from-known_places :
    (i n : ℕ) (list : List Descriptor)
    → n + length list < 2 ^ 32
    → count_from n list ≡ n + length (known_places i list)
unfolding count_from known_places
count_from-known_places i n [] h = omega arith
count_from-known_places i n (dd ∷ list) h = elim (Bool-cases (is_known dd)) [
  | inl known ↦
      rw (known, fits) (count_from-known_places (i + 1) (n + 1) list (omega arith) ∙ omega arith)
  | inr unknown ↦ rw unknown (count_from-known_places (i + 1) n list (omega arith))
]
  where
    fits : u32 (n + 1) ≡ n + 1
    fits = omega arith

-- The element at an index, and those after it.
pub get_elem?_first {ℓ} :
    {A : Type ℓ} (index n : ℕ) (i : A) (rest : List A)
    → (index == n) ≡ true
    → get_elem? (i ∷ rest) (index - n) ≡ some i
get_elem?_first index n i rest same = ap (get_elem? (i ∷ rest)) {y = 0} (ground arith)

pub get_elem?_later {ℓ} :
    {A : Type ℓ} (index n : ℕ) (i : A) (rest : List A)
    → n ≤ index
    → (index == n) ≡ false
    → get_elem? (i ∷ rest) (index - n) ≡ get_elem? rest (index - (n + 1))
get_elem?_later index n i rest low other =
    ap (get_elem? (i ∷ rest)) {y = suc (index - (n + 1))} (ground arith)

pub above : (index n : ℕ) → n ≤ index → (index == n) ≡ false → n + 1 ≤ index
above index n low other = ground arith

pub strings_from-known_places :
    (index i n : ℕ) (list : List Descriptor)
    → n + length list < 2 ^ 32
    → n ≤ index
    → strings_from index i n list ≡ get_elem? (known_places i list) (index - n)
unfolding strings_from known_places
strings_from-known_places index i n [] h low = refl
strings_from-known_places index i n (dd ∷ list) h low = elim (Bool-cases (is_known dd)) [
  | inr unknown ↦ rw unknown (strings_from-known_places index (i + 1) n list (omega arith) low)
  | inl known ↦ elim (Bool-cases (index == n)) [
    | inl same ↦ rw (known, same) (sym (get_elem?_first index n i (known_places (i + 1) list) same))
    | inr other ↦
        rw (known, other, fits)
          (strings_from-known_places index (i + 1) (n + 1) list (omega arith)
              (above index n low other)
            ∙ sym (get_elem?_later index n i (known_places (i + 1) list) low other))
  ]
]
  where
    fits : u32 (n + 1) ≡ n + 1
    fits = omega arith

open_from-known_places :
    (index i n : ℕ) (list : List Descriptor)
    → n + length list < 2 ^ 32
    → n ≤ index
    → index < 2 ^ 32 - 1
    → open_from index i n list ≡ get_elem? (known_places i list) (index - n)
unfolding open_from known_places
open_from-known_places index i n [] h low high = refl
open_from-known_places index i n (dd ∷ list) h low high = elim (Bool-cases (is_known dd)) [
  | inr unknown ↦
      rw (unknown, before) (open_from-known_places index (i + 1) n list (omega arith) low high)
  | inl known ↦ elim (Bool-cases (index == n)) [
    | inl same ↦
        rw (known, fits, at_n, same)
          (sym (get_elem?_first index n i (known_places (i + 1) list) same))
    | inr other ↦
        rw (known, fits, at_n, other)
          (open_from-known_places index (i + 1) (n + 1) list (omega arith) (above index n low other)
              high
            ∙ sym (get_elem?_later index n i (known_places (i + 1) list) low other))
  ]
]
  where
    fits : u32 (n + 1) ≡ n + 1
    fits = omega arith

    at_n : u32 (n + 1 + (2 ^ 32 - 1)) ≡ n
    at_n = omega arith

    before : (index == u32 (n + (2 ^ 32 - 1))) ≡ false
    before = ground arith

-- For any list of fewer than 2^32 devices and any index below 2^32 - 1, `rtlsdr_open` and
-- `rtlsdr_get_device_usb_strings` choose the same device, that of the known ones in the order of
-- the list which the index counts, or both none; and `rtlsdr_get_device_count` is the number of
-- known ones.
pub open_from-strings_from :
    (index : ℕ) (list : List Descriptor)
    → length list < 2 ^ 32
    → index < 2 ^ 32 - 1
    → (open_from index 0 0 list ≡ get_elem? (known_places 0 list) index)
      × (strings_from index 0 0 list ≡ get_elem? (known_places 0 list) index)
      × (get_device_count (some list) ≡ length (known_places 0 list))
unfolding get_device_count
open_from-strings_from index list h low = (
  open_from-known_places index 0 0 list (omega arith) (omega arith) low ∙ from_start,
  strings_from-known_places index 0 0 list (omega arith) (omega arith) ∙ from_start,
  count_from-known_places 0 0 list (omega arith) ∙ omega arith,
)
  where
    from_start : get_elem? (known_places 0 list) (index - 0) ≡ get_elem? (known_places 0 list) index
    from_start = ap (get_elem? (known_places 0 list)) (omega arith)
