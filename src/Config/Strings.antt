-- ===== src/Config/Strings.antt =====
-- A string descriptor is read back as it was written.
use rtl_sdr_blog.Common.{
  Bool-cases, List, Option, [], ap, arith, false, inl, inr, leb, length, ltb, refl, some, suc, true,
  zero, ℕ, ◌*◌, ◌+◌, ◌-◌, ◌<◌, ◌==◌, ◌∙◌, ◌∷◌, ◌≡◌, ◌≢◌, ◌≤◌,
}
use rtl_sdr_blog.Config.{
  Data, get_chars, get_string_descriptor, get_strings, put, set_chars, set_length,
  set_string_descriptor, set_strings,
}

put_same : (i v : ℕ) (dat : Data) → put i v dat i ≡ v
put_same i v dat = rw same refl
  where
    same : (i == i) ≡ true
    same = ground arith

put_other : (i v k : ℕ) (dat : Data) → k ≢ i → put i v dat k ≡ dat k
put_other i v k dat h = rw differs refl
  where
    differs : (k == i) ≡ false
    differs = ground arith

-- What stands before the characters is left alone.
set_chars_before :
    (pos j : ℕ) (dat : Data) (str : List ℕ) (k : ℕ)
    → k < pos + j
    → (set_chars pos j dat str).0 k ≡ dat k
unfolding set_chars
set_chars_before pos j dat [] k h = refl
set_chars_before pos j dat (c ∷ str) k h = elim (Bool-cases (leb 78 (pos + j))) [
  | inl full ↦ rw full refl
  | inr fits ↦ rw fits (
      set_chars_before pos (j + 2) (put (pos + j + 1) 0 (put (pos + j) c dat)) str k (omega arith)
      ∙ (put_other (pos + j + 1) 0 k (put (pos + j) c dat) (omega arith)
          ∙ put_other (pos + j) c k dat (omega arith)))
]

read_step :
    (fuel i n : ℕ) (dat : Data)
    → get_chars (suc fuel) i (2 * suc n) dat ≡ dat i ∷ get_chars fuel (i + 2) (2 * n) dat
unfolding get_chars
read_step fuel i n dat = rw (more, less) refl
  where
    more : ltb 0 (2 * suc n) ≡ true
    more = ground arith

    less : 2 * suc n - 2 ≡ 2 * n
    less = omega arith

-- The characters fit, and are read back.
set_chars-get_chars :
    (pos j fuel : ℕ) (dat : Data) (str : List ℕ)
    → pos + j + 2 * length str ≤ 79
    → length str < fuel
    → ((set_chars pos j dat str).1 ≡ some (j + 2 * length str))
      × (get_chars fuel (pos + j) (2 * length str) (set_chars pos j dat str).0 ≡ str)
unfolding set_chars get_chars
set_chars-get_chars pos j zero dat str h k = absurd (omega arith)
set_chars-get_chars pos j (suc fuel) dat [] h k = (ap some {x = j} (omega arith), refl)
set_chars-get_chars pos j (suc fuel) dat (c ∷ str) h k = rw fits (
    extended (
      set_chars-get_chars pos (j + 2) fuel (put (pos + j + 1) 0 (put (pos + j) c dat)) str
        (omega arith) (omega arith)))
  where
    fits : leb 78 (pos + j) ≡ false
    fits = ground arith

    start : Data
    start = put (pos + j + 1) 0 (put (pos + j) c dat)

    written : Data
    written = (set_chars pos (j + 2) start str).0

    first : written (pos + j) ≡ c
    first =
        set_chars_before pos (j + 2) start str (pos + j) (omega arith)
        ∙ (put_other (pos + j + 1) 0 (pos + j) (put (pos + j) c dat) (omega arith)
            ∙ put_same (pos + j) c dat)

    extended :
        ((set_chars pos (j + 2) start str).1 ≡ some (j + 2 + 2 * length str))
          × (get_chars fuel (pos + (j + 2)) (2 * length str) written ≡ str)
        → ((set_chars pos (j + 2) start str).1 ≡ some (j + 2 * suc (length str)))
          × (get_chars (suc fuel) (pos + j) (2 * suc (length str)) written ≡ c ∷ str)
    extended (end, chars) = (
      end
          ∙ ap (λ n. some n) {x = j + 2 + 2 * length str} {y = j + 2 * suc (length str)}
              (omega arith),
      read_step fuel (pos + j) (length str) written
          ∙ (ap (λ b. b ∷ get_chars fuel (pos + j + 2) (2 * length str) written) first
              ∙ ap (λ l. c ∷ l)
                  (ap (λ i. get_chars fuel i (2 * length str) written) {x = pos + j + 2}
                      {y = pos + (j + 2)} (omega arith)
                    ∙ chars)),
    )

-- Only the characters are read.
get_chars_agree :
    (fuel i left : ℕ) (d e : Data)
    → ((k : ℕ) → i ≤ k → k < i + left → d k ≡ e k)
    → get_chars fuel i left d ≡ get_chars fuel i left e
unfolding get_chars
get_chars_agree zero i left d e h = refl
get_chars_agree (suc fuel) i left d e h = elim (Bool-cases (ltb 0 left)) [
  | inl more ↦ rw more (
      ap (λ b. b ∷ get_chars fuel (i + 2) (left - 2) d) (h i (omega arith) (ground arith))
      ∙ ap (λ l. e i ∷ l)
          (get_chars_agree fuel (i + 2) (left - 2) d e
            λ k low high. h k (omega arith) (omega arith)))
  | inr none_left ↦ rw none_left refl
]

-- The contents with a descriptor at `pos`.
abbrev pub with_string : ℕ → Data → List ℕ → Data
with_string pos dat str =
    put pos (2 + 2 * length str) (set_chars pos 2 (put (pos + 1) 0x03 dat) str).0

with_string_written :
    (pos : ℕ) (dat : Data) (str : List ℕ)
    → pos + 2 + 2 * length str ≤ 79
    → set_string_descriptor (some pos) dat str
      ≡ (with_string pos dat str, some (pos + (2 + 2 * length str)))
unfolding set_string_descriptor
with_string_written pos dat str h =
    ap (λ (o : Option ℕ). set_length pos ((set_chars pos 2 (put (pos + 1) 0x03 dat) str).0, o))
      (set_chars-get_chars pos 2 128 (put (pos + 1) 0x03 dat) str h (omega arith)).0

with_string_before :
    (pos : ℕ) (dat : Data) (str : List ℕ) (k : ℕ) → k < pos → with_string pos dat str k ≡ dat k
with_string_before pos dat str k h =
    put_other pos (2 + 2 * length str) k (set_chars pos 2 (put (pos + 1) 0x03 dat) str).0
      (omega arith)
    ∙ (set_chars_before pos 2 (put (pos + 1) 0x03 dat) str k (omega arith)
        ∙ put_other (pos + 1) 0x03 k dat (omega arith))

-- A descriptor is read from any contents that agree where it stands.
with_string_read :
    (pos : ℕ) (dat d : Data) (str : List ℕ)
    → pos + 2 + 2 * length str ≤ 79
    → ((k : ℕ) → k < pos + (2 + 2 * length str) → d k ≡ with_string pos dat str k)
    → get_string_descriptor pos d ≡ (str, pos + (2 + 2 * length str))
unfolding get_string_descriptor
with_string_read pos dat d str h agree = rw (len, chars, end) refl
  where
    characters : Data
    characters = (set_chars pos 2 (put (pos + 1) 0x03 dat) str).0

    len : d pos - 2 ≡ 2 * length str
    len = omega (arith, agree pos (omega arith), put_same pos (2 + 2 * length str) characters)

    chars : get_chars 128 (pos + 2) (2 * length str) d ≡ str
    chars =
        get_chars_agree 128 (pos + 2) (2 * length str) d characters (λ k low high.
          agree k (omega arith) ∙ put_other pos (2 + 2 * length str) k characters (omega arith))
        ∙ (set_chars-get_chars pos 2 128 (put (pos + 1) 0x03 dat) str h (omega arith)).1

    end : pos + 2 + 2 * length str ≡ pos + (2 + 2 * length str)
    end = omega arith

-- What stands before the strings stays.
pub set_strings_before :
    (dat : Data) (manufacturer product serial : List ℕ) (k : ℕ)
    → length manufacturer + length product + length serial ≤ 31
    → k < 9
    → (set_strings dat manufacturer product serial).0 k ≡ dat k
unfolding set_strings
set_strings_before dat m p s k h below =
    let second = 9 + (2 + 2 * length m) in
    let third = second + (2 + 2 * length p) in
    rw
      (
        with_string_written 9 dat m (omega arith),
        with_string_written second (with_string 9 dat m) p (omega arith),
        with_string_written third (with_string second (with_string 9 dat m) p) s (omega arith),
      )
      (put_other 78 0 k (with_string third (with_string second (with_string 9 dat m) p) s)
          (omega arith)
        ∙ (with_string_before third (with_string second (with_string 9 dat m) p) s k (omega arith)
            ∙ (with_string_before second (with_string 9 dat m) p k (omega arith)
                ∙ with_string_before 9 dat m k below)))

-- For strings of 31 characters together at most, the manufacturer, the product and the serial
-- number that `gen_eeprom_from_conf` writes are those that `parse_eeprom_to_conf` reads, and the
-- end of the last descriptor is returned.
pub get_strings-set_strings :
    (dat : Data) (manufacturer product serial : List ℕ)
    → length manufacturer + length product + length serial ≤ 31
    → (get_strings (set_strings dat manufacturer product serial).0
        ≡ (manufacturer, product, serial))
      × ((set_strings dat manufacturer product serial).1
          ≡ some (15 + 2 * (length manufacturer + length product + length serial)))
unfolding get_strings set_strings
get_strings-set_strings dat m p s h =
    rw
      (
        with_string_written 9 dat m (omega arith),
        with_string_written second (with_string 9 dat m) p (omega arith),
        with_string_written third (with_string second (with_string 9 dat m) p) s (omega arith),
        read_first,
        read_second,
        read_third,
      )
      (refl, ap (λ n. some n) {x = third + (2 + 2 * length s)} (omega arith))
  where
    second : ℕ
    second = 9 + (2 + 2 * length m)

    third : ℕ
    third = second + (2 + 2 * length p)

    contents : Data
    contents = put 78 0 (with_string third (with_string second (with_string 9 dat m) p) s)

    keeps_78 :
        (k : ℕ)
        → k < 78
        → contents k ≡ with_string third (with_string second (with_string 9 dat m) p) s k
    keeps_78 k below =
        put_other 78 0 k (with_string third (with_string second (with_string 9 dat m) p) s)
          (omega arith)

    read_third : get_string_descriptor third contents ≡ (s, third + (2 + 2 * length s))
    read_third =
        with_string_read third (with_string second (with_string 9 dat m) p) contents s (omega arith)
          λ k below. keeps_78 k (omega arith)

    read_second : get_string_descriptor second contents ≡ (p, third)
    read_second = with_string_read second (with_string 9 dat m) contents p (omega arith) λ k below.
        keeps_78 k (omega arith)
        ∙ with_string_before third (with_string second (with_string 9 dat m) p) s k below

    read_first : get_string_descriptor 9 contents ≡ (m, second)
    read_first = with_string_read 9 dat contents m (omega arith) λ k below.
        keeps_78 k (omega arith)
        ∙ (with_string_before third (with_string second (with_string 9 dat m) p) s k (omega arith)
            ∙ with_string_before second (with_string 9 dat m) p k below)
