-- ===== src/E4k/Filter/Laws.antt =====
-- The search in a table of frequencies finds the nearest one.
use rtl_sdr_blog.Common.{
  Bool-cases, List, [], ap, arith, false, get_elem?, inl, inr, length, ltb, ltb→lt, refl, some, suc,
  zero, ℕ, ◌+◌, ◌-◌, ◌<◌, ◌^◌, ◌∙◌, ◌∷◌, ◌≡◌, ◌≤◌, ◌⊎◌,
}
use rtl_sdr_blog.E4k.Filter.{
  IfFilter, chan, closest_arr_idx, closest_from, if_filter_bw, mix, rc, unsigned_delta,
}

-- An entry of the table that no other is nearer than.
pub record IsClosest (arr : List ℕ) (freq c : ℕ) : Type 0 where
  pub index : ℕ
  pub there : get_elem? arr index ≡ some c
  pub nearest : (k a : ℕ) → get_elem? arr k ≡ some a → unsigned_delta freq c ≤ unsigned_delta freq a

abbrev AtMost : ℕ → ℕ → List ℕ → Type 0
AtMost freq best [] = Unit
AtMost freq best (a ∷ arr) = (best ≤ unsigned_delta freq a) × AtMost freq best arr

AtMost-get_elem? :
    (freq best : ℕ) (arr : List ℕ) (k a : ℕ)
    → AtMost freq best arr
    → get_elem? arr k ≡ some a
    → best ≤ unsigned_delta freq a
AtMost-get_elem? freq best [] k a h e = cc
AtMost-get_elem? freq best (b ∷ arr) zero a h e = ground (arith, h)
AtMost-get_elem? freq best (b ∷ arr) (suc k) a h e = AtMost-get_elem? freq best arr k a h.1 e

-- Either no entry is nearer than what was found before, or one is found that none is nearer than.
abbrev Found : ℕ → List ℕ → ℕ → ℕ → ℕ → ℕ → Type 0
Found freq arr i best bi k =
    ((k ≡ bi) × AtMost freq best arr)
    ⊎ ((j c : ℕ) × (k ≡ i + j)
        × (get_elem? arr j ≡ some c)
        × (unsigned_delta freq c < best)
        × AtMost freq (unsigned_delta freq c) arr)

closest_from-Found :
    (arr : List ℕ) (i best bi freq : ℕ) → Found freq arr i best bi (closest_from arr i best bi freq)
unfolding closest_from
closest_from-Found [] i best bi freq = inl (refl, tt)
closest_from-Found (center ∷ arr) i best bi freq =
    elim (Bool-cases (ltb (unsigned_delta freq center) best)) [
      | inl nearer ↦
          rw nearer (elim (closest_from-Found arr (i + 1) (unsigned_delta freq center) i freq) [
            | inl (same, most) ↦
                inr (0, center, same ∙ omega arith, refl, ltb→lt _ _ nearer, (omega arith, most))
            | inr (j, c, at, there, less, most) ↦ inr (
              suc j,
              c,
              at ∙ omega arith,
              there,
              omega (arith, less, ltb→lt _ _ nearer),
              (omega (arith, less), most),
            )
          ])
      | inr farther ↦ rw farther (elim (closest_from-Found arr (i + 1) best bi freq) [
        | inl (same, most) ↦ inl (same, (far farther, most))
        | inr (j, c, at, there, less, most) ↦
            inr (suc j, c, at ∙ omega arith, there, less, (omega (arith, less, far farther), most))
      ])
    ]
  where
    far : ltb (unsigned_delta freq center) best ≡ false → best ≤ unsigned_delta freq center
    far e = ground arith

-- Entries and frequencies that are not as far apart as 2^32 - 1.
pub closest_arr_idx-IsClosest :
    (arr : List ℕ) (freq : ℕ)
    → 0 < length arr
    → ((k a : ℕ) → get_elem? arr k ≡ some a → unsigned_delta freq a < 2 ^ 32 - 1)
    → (c : ℕ) × (get_elem? arr (closest_arr_idx arr freq) ≡ some c) × IsClosest arr freq c
unfolding closest_arr_idx
closest_arr_idx-IsClosest [] freq h near = absurd (omega arith)
closest_arr_idx-IsClosest (a ∷ arr) freq h near =
    elim (closest_from-Found (a ∷ arr) 0 0xffffffff 0 freq) [
      | inl (same, most) ↦ absurd (omega (arith, most.0, near 0 a refl))
      | inr (j, c, at, there, less, most) ↦ (
        c,
        ap (get_elem? (a ∷ arr)) (at ∙ omega arith) ∙ there,
        record {
          index = j;
          there = there;
          nearest = λ k b. AtMost-get_elem? freq (unsigned_delta freq c) (a ∷ arr) k b most;
        },
      )
    ]

-- The entries are positive and below 2^31.
abbrev pub IsTable : List ℕ → Type 0
IsTable [] = Unit
IsTable (a ∷ arr) = (0 < a) × (a < 2 ^ 31) × IsTable arr

pub IsTable-get_elem? :
    (arr : List ℕ) (k a : ℕ)
    → IsTable arr
    → get_elem? arr k ≡ some a
    → (k < length arr) × (0 < a) × (a < 2 ^ 31)
IsTable-get_elem? [] k a h e = cc
IsTable-get_elem? (b ∷ arr) zero a h e = ground (arith, h)
IsTable-get_elem? (b ∷ arr) (suc k) a h e = omega (arith, IsTable-get_elem? arr k a h.2 e)

pub if_filter_bw-IsTable : (filter : IfFilter) → IsTable (if_filter_bw filter)
if_filter_bw-IsTable mix = omega arith
if_filter_bw-IsTable chan = omega arith
if_filter_bw-IsTable rc = omega arith
