-- ===== src/Fm/Demod/Deemph.antt =====
-- `deemph_filter` stays between the values that it gets.
use native.Mathlib.Nat.{div-lt_iff_lt-mul, mul-le-mul_left}
use rtl_sdr_blog.Common.{
  List, [], ap, arith, if◌then◌else◌, inl, inr, ltb, refl, suc, true, zero, ℕ, ◌+◌, ◌/◌, ◌<◌, ◌∙◌,
  ◌∷◌, ◌≡◌, ◌≤◌, ◌⊎◌,
}
use rtl_sdr_blog.Common.Int.{
  int_laws, is_pos, neg_part, negsuc, pos, pos_part, sub_ℕ, ℤ, ◌+ℤ◌, ◌-ℤ◌, ◌≤ℤ◌,
}
use rtl_sdr_blog.Common.Cint.{i16, quot}
use rtl_sdr_blog.Fm.Demod.{deemph_filter, deemph_step}

abbrev pub InSpan : ℤ → ℤ → ℤ → Type 0
InSpan lo hi a = (lo ≤ℤ a) × (a ≤ℤ hi)

-- A part of a distance is at most the distance.
part_of : (d a : ℕ) → 0 < a → (d + a / 2) / a ≤ d
part_of d a h = omega (
  arith,
  (div-lt_iff_lt-mul {k = a} {x = d + a / 2} {y = d + 1} h).1 (omega (arith, mul-le-mul_left d h)),
)

quot_negated : (k a : ℕ) → quot (sub_ℕ 0 k) (pos a) ≡ sub_ℕ 0 (k / a)
unfolding quot
quot_negated zero a = ground arith
quot_negated (suc k) a = ground arith

-- The change of the average goes towards the sample, and not beyond it.
abbrev Change : ℕ → ℤ → ℤ → ℤ → Type 0
Change a avg d next =
    (c : ℤ) × (next ≡ avg +ℤ c) × (pos_part c ≤ pos_part d) × (neg_part c ≤ neg_part d)

sum_pos : (n k : ℕ) → pos n +ℤ pos k ≡ pos (n + k)
unfolding ◌+ℤ◌
sum_pos n k = ground arith

difference_negated : (d : ℤ) (k : ℕ) → pos_part d ≡ 0 → d -ℤ pos k ≡ sub_ℕ 0 (neg_part d + k)
unfolding ◌-ℤ◌
difference_negated d k h = ground arith

pos_part-sub_ℕ : (k : ℕ) → pos_part (sub_ℕ 0 k) ≡ 0
pos_part-sub_ℕ k = ground arith

neg_part-sub_ℕ : (k : ℕ) → neg_part (sub_ℕ 0 k) ≡ k
neg_part-sub_ℕ k = ground arith

downwards :
    (a : ℕ) (avg d : ℤ)
    → 0 < a
    → pos_part d ≡ 0
    → Change a avg d (avg +ℤ quot (d -ℤ pos (a / 2)) (pos a))
downwards a avg d h sign = (
  sub_ℕ 0 ((neg_part d + a / 2) / a),
  ap (λ c. avg +ℤ c)
      (ap (λ n. quot n (pos a)) (difference_negated d (a / 2) sign)
        ∙ quot_negated (neg_part d + a / 2) a),
  omega (arith, pos_part-sub_ℕ ((neg_part d + a / 2) / a)),
  omega (arith, neg_part-sub_ℕ ((neg_part d + a / 2) / a), part_of (neg_part d) a h),
)

changed :
    (a : ℕ) (avg d : ℤ)
    → 0 < a
    → Change a avg d (
        if is_pos d
        then avg +ℤ quot (d +ℤ pos (a / 2)) (pos a)
        else avg +ℤ quot (d -ℤ pos (a / 2)) (pos a))
unfolding quot
changed a avg (pos (suc n)) h =
    rw (is_more, sum_pos (suc n) (a / 2))
      (pos ((suc n + a / 2) / a), refl, part_of (suc n) a h, omega arith)
  where
    is_more : ltb 0 (suc n) ≡ true
    is_more = ground arith
changed a avg (pos zero) h = downwards a avg (pos 0) h refl
changed a avg (negsuc n) h = downwards a avg (negsuc n) h refl

step-InSpan :
    (a : ℕ) (lo hi avg x : ℤ)
    → 0 < a
    → InSpan lo hi avg
    → InSpan lo hi x
    → InSpan lo hi (deemph_step a avg x)
unfolding deemph_step
step-InSpan a lo hi avg x h from to = rw ((changed a avg (x -ℤ avg) h).1) (
    moved (changed a avg (x -ℤ avg) h).0 (changed a avg (x -ℤ avg) h).2
      (changed a avg (x -ℤ avg) h).3)
  where
    one_part : (d : ℤ) → (pos_part d ≡ 0) ⊎ (neg_part d ≡ 0)
    one_part d = ground arith

    moved :
        (c : ℤ)
        → pos_part c ≤ pos_part (x -ℤ avg)
        → neg_part c ≤ neg_part (x -ℤ avg)
        → InSpan lo hi (avg +ℤ c)
    moved c up down = elim (one_part (x -ℤ avg)) [
      | inl e ↦ omega (int_laws, e)
      | inr e ↦ omega (int_laws, e)
    ]

i16_small : (a : ℤ) → InSpan (negsuc 32767) (pos 32767) a → i16 a ≡ a
unfolding i16
i16_small a h = ground arith

-- The values that are put out: each between the limits.
abbrev pub AllInSpan : ℤ → ℤ → List ℤ → Type 0
AllInSpan lo hi [] = Unit
AllInSpan lo hi (x ∷ xs) = InSpan lo hi x × AllInSpan lo hi xs

-- For a `deemph_a` of at least 1 and any limits within the range of an `int16_t`, if the average
-- and all samples lie between the limits, then so do the average at the end and all values that
-- the de-emphasis filter puts out.
pub deemph_filter-InSpan :
    (a : ℕ) (lo hi avg : ℤ) (result : List ℤ)
    → 0 < a
    → negsuc 32767 ≤ℤ lo
    → hi ≤ℤ pos 32767
    → InSpan lo hi avg
    → AllInSpan lo hi result
    → InSpan lo hi (deemph_filter a avg result).0 × AllInSpan lo hi (deemph_filter a avg result).1
unfolding deemph_filter
deemph_filter-InSpan a lo hi avg [] h low high from to = (from, tt)
deemph_filter-InSpan a lo hi avg (x ∷ result) h low high from (first, to) =
    extended _ _ (step-InSpan a lo hi avg x h from first) (
      deemph_filter-InSpan a lo hi (deemph_step a avg x) result h low high
        (step-InSpan a lo hi avg x h from first) to)
  where
    extended :
        (b : ℤ) (out : List ℤ)
        → InSpan lo hi (deemph_step a avg x)
        → InSpan lo hi b × AllInSpan lo hi out
        → InSpan lo hi b × AllInSpan lo hi (i16 (deemph_step a avg x) ∷ out)
    extended b out inside (last, rest) =
        (last, (rw (i16_small (deemph_step a avg x) (omega int_laws)) inside, rest))
