-- ===== src/Fm/Filter/Resample.antt =====
-- The rate of `low_pass_real`.
use native.Mathlib.Nat.{add-mul, le-div_iff_mul-le, mul-le-mul_right}
use native.Mathlib.Decide.{dec_lt}
use rtl_sdr_blog.Common.{
  Bool-cases, List, Option, [], ap, arith, false, inl, inr, length, ltb, refl, some, sym, ℕ, ◌*◌,
  ◌++◌, ◌+◌, ◌-◌, ◌/◌, ◌<◌, ◌==◌, ◌^◌, ◌∙◌, ◌∷◌, ◌≡◌, ◌≤◌,
}
use rtl_sdr_blog.Common.Int.{pos, ℤ, ◌+ℤ◌}
use rtl_sdr_blog.Common.Cint.{i16, int32_small, magnitude, quot, ◌>>=◌}
use rtl_sdr_blog.Fm.Filter.{LowPassReal, low_pass_real, low_pass_real_step}

-- A sum that is gone on with.
abbrev pub sum_on : ℤ → List ℤ → ℤ
sum_on sum [] = sum
sum_on sum (x ∷ xs) = sum_on (sum +ℤ x) xs

-- What is put out for groups of samples, of which the first goes on with a sum: the sums, divided.
abbrev pub averages : ℤ → ℤ → List (List ℤ) → List ℤ
averages divisor sum [] = []
averages divisor sum (g ∷ groups) =
    i16 (quot (sum_on sum g) divisor) ∷ averages divisor (pos 0) groups

-- The sum of what comes after the groups.
abbrev pub sum_after : ℤ → List (List ℤ) → List ℤ → ℤ
sum_after sum [] left = sum_on sum left
sum_after sum (g ∷ groups) left = sum_on (pos 0) left

abbrev pub joined : List (List ℤ) → List ℤ → List ℤ
joined [] left = left
joined (g ∷ groups) left = g ++ joined groups left

-- Samples of 16 bits.
abbrev pub AllSmall : List ℤ → Type 0
AllSmall [] = Unit
AllSmall (x ∷ samples) = (magnitude x ≤ 2 ^ 15) × AllSmall samples

-- The sum is of no more samples than the index stands for.
abbrev pub IsBounded : ℕ → LowPassReal → Type 0
IsBounded slow s = magnitude s.now_lpr * slow ≤ 2 ^ 15 * s.prev_lpr_index

-- With each sample the index goes on by `slow`, and with each value that is put out it goes back by
-- `fast`. The samples are groups, one for each value, which is the group's average, and the rest,
-- of which the sum is kept; the sum from before goes with what comes first.
pub record Counts (fast slow : ℕ) (s : LowPassReal) (samples : List ℤ)
    (o : Option (LowPassReal × List ℤ)) : Type 0 where
  pub after : LowPassReal
  pub out : List ℤ
  pub returned : o ≡ some (after, out)
  pub below : after.prev_lpr_index < fast
  pub bounded : IsBounded slow after
  pub index : length out * fast + after.prev_lpr_index ≡ s.prev_lpr_index + length samples * slow
  pub groups : List (List ℤ)
  pub left : List ℤ
  pub whole : samples ≡ joined groups left
  pub values : out ≡ averages (pos (fast / slow)) s.now_lpr groups
  pub kept : after.now_lpr ≡ sum_after s.now_lpr groups left

-- A sample in front goes to the first group, or to the rest.
abbrev grown_groups : ℤ → List (List ℤ) → List (List ℤ)
grown_groups x [] = []
grown_groups x (g ∷ groups) = (x ∷ g) ∷ groups

abbrev grown_left : ℤ → List (List ℤ) → List ℤ → List ℤ
grown_left x [] left = x ∷ left
grown_left x (g ∷ groups) left = left

grown_whole :
    (x : ℤ) (groups : List (List ℤ)) (left : List ℤ)
    → joined (grown_groups x groups) (grown_left x groups left) ≡ x ∷ joined groups left
grown_whole x [] left = refl
grown_whole x (g ∷ groups) left = refl

grown_values :
    (divisor sum x : ℤ) (groups : List (List ℤ))
    → averages divisor (sum +ℤ x) groups ≡ averages divisor sum (grown_groups x groups)
grown_values divisor sum x [] = refl
grown_values divisor sum x (g ∷ groups) = refl

grown_kept :
    (sum x : ℤ) (groups : List (List ℤ)) (left : List ℤ)
    → sum_after (sum +ℤ x) groups left
      ≡ sum_after sum (grown_groups x groups) (grown_left x groups left)
grown_kept sum x [] left = refl
grown_kept sum x (g ∷ groups) left = refl

-- Where a group is whole, the next one starts at 0.
fresh_kept :
    (groups : List (List ℤ)) (left : List ℤ) → sum_after (pos 0) groups left ≡ sum_on (pos 0) left
fresh_kept [] left = refl
fresh_kept (g ∷ groups) left = refl

magnitude-add : (a b : ℤ) → magnitude (a +ℤ b) ≤ magnitude a + magnitude b
unfolding ◌+ℤ◌
magnitude-add a b = ground arith

grows :
    (m n slow index : ℕ)
    → n ≤ m + 2 ^ 15
    → m * slow ≤ 2 ^ 15 * index
    → n * slow ≤ 2 ^ 15 * (index + slow)
grows m n slow index step b = omega (arith, b, mul-le-mul_right slow step, add-mul m (2 ^ 15) slow)

stays_small :
    (n fast slow index : ℕ)
    → 0 < slow
    → index < fast
    → fast ≤ 65534 * slow
    → n * slow ≤ 2 ^ 15 * (index + slow)
    → n < 2 ^ 31
stays_small n fast slow index positive below near b = elim (dec_lt n (2 ^ 31)) [
  | yes less ↦ less
  | no more ↦
      absurd
        (omega (arith, b, below, near, mul-le-mul_right {m = 2 ^ 31} {n = n} slow (omega arith)))
]

module _ (fast slow : ℕ) (positive : 0 < slow) (h : slow ≤ fast) (near : fast ≤ 65534 * slow)
    (low : fast < 2 ^ 30) where
  not_zero : (fast / slow == 0) ≡ false
  not_zero = ground (arith, (le-div_iff_mul-le {x = 1} {y = fast} positive).1 (omega arith))

  -- A sample that stays below the fast rate, and one that reaches it, in front of a result.
  summed :
      (s : LowPassReal) (x : ℤ) (result : List ℤ) {o : Option (LowPassReal × List ℤ)}
      → Counts fast slow
          (record { now_lpr = s.now_lpr +ℤ x; prev_lpr_index = s.prev_lpr_index + slow })
          result
          o
      → Counts fast slow s (x ∷ result) (o >>= λ rest. some (rest.0, rest.1))
  summed s x result c = record {
    after = c.after;
    out = c.out;
    returned = rw c.returned refl;
    below = c.below;
    bounded = c.bounded;
    index = omega (arith, c.index);
    groups = grown_groups x c.groups;
    left = grown_left x c.groups c.left;
    whole = ap (λ l. x ∷ l) c.whole ∙ sym (grown_whole x c.groups c.left);
    values = c.values ∙ grown_values (pos (fast / slow)) s.now_lpr x c.groups;
    kept = c.kept ∙ grown_kept s.now_lpr x c.groups c.left;
  }

  put_out :
      (s : LowPassReal) (x : ℤ) (result : List ℤ) {o : Option (LowPassReal × List ℤ)}
      → fast ≤ s.prev_lpr_index + slow
      → Counts fast slow
          (record { now_lpr = pos 0; prev_lpr_index = s.prev_lpr_index + slow - fast })
          result
          o
      → Counts fast slow s
          (x ∷ result)
          (o >>= λ rest. some (rest.0, i16 (quot (s.now_lpr +ℤ x) (pos (fast / slow))) ∷ rest.1))
  put_out s x result reached c = record {
    after = c.after;
    out = i16 (quot (s.now_lpr +ℤ x) (pos (fast / slow))) ∷ c.out;
    returned = rw c.returned refl;
    below = c.below;
    bounded = c.bounded;
    index = omega (arith, c.index, reached);
    groups = (x ∷ []) ∷ c.groups;
    left = c.left;
    whole = ap (λ l. x ∷ l) c.whole;
    values = ap (λ l. i16 (quot (s.now_lpr +ℤ x) (pos (fast / slow))) ∷ l) c.values;
    kept = c.kept ∙ fresh_kept c.groups c.left;
  }

  -- Where the slow rate is positive, at most the fast one and not below a 65534th of it, the fast
  -- rate is below 2^30, the index is below the fast rate, the sum kept is of no more samples of 16
  -- bits than the index stands for (`IsBounded`), and the samples are of 16 bits, `low_pass_real`
  -- overflows no `int` and divides by no zero, and the index and the sum after are such again; the
  -- number of values put out times the fast rate, plus the index after, is the index before plus
  -- the number of samples times the slow rate. The samples are, in order, one group for each
  -- value, which is the sum of its group over `fast / slow` cut to 16 bits, and a rest, of which
  -- the sum is kept; the sum kept from before is added to the first of these.
  pub low_pass_real-Counts :
      (s : LowPassReal) (result : List ℤ)
      → s.prev_lpr_index < fast
      → IsBounded slow s
      → AllSmall result
      → Counts fast slow s result (low_pass_real fast slow s result)
  unfolding low_pass_real low_pass_real_step
  low_pass_real-Counts s [] k b small = record {
    after = s;
    out = [];
    returned = refl;
    below = k;
    bounded = b;
    index = omega arith;
    groups = [];
    left = [];
    whole = refl;
    values = refl;
    kept = refl;
  }
  low_pass_real-Counts s (x ∷ result) k b small =
      rw
        (
          int32_small (s.now_lpr +ℤ x) sum_fits,
          int32_small (pos (s.prev_lpr_index + slow)) (omega (arith, k, low, h)),
        )
        (elim (Bool-cases (ltb (s.prev_lpr_index + slow) fast)) [
          | inl below ↦ rw below (
              summed s x result (
                low_pass_real-Counts
                  (record { now_lpr = s.now_lpr +ℤ x; prev_lpr_index = s.prev_lpr_index + slow })
                  result (ground arith) grown small.1))
          | inr reached ↦
              rw (reached, not_zero)
                (put_out s x result (ground arith) (
                  low_pass_real-Counts
                    (record { now_lpr = pos 0; prev_lpr_index = s.prev_lpr_index + slow - fast })
                    result (ground arith) (omega arith) small.1))
        ])
    where
      grown : magnitude (s.now_lpr +ℤ x) * slow ≤ 2 ^ 15 * (s.prev_lpr_index + slow)
      grown =
          grows (magnitude s.now_lpr) (magnitude (s.now_lpr +ℤ x)) slow s.prev_lpr_index
            (omega (arith, magnitude-add s.now_lpr x, small.0)) b

      sum_fits : magnitude (s.now_lpr +ℤ x) < 2 ^ 31
      sum_fits =
          stays_small (magnitude (s.now_lpr +ℤ x)) fast slow s.prev_lpr_index positive k near grown
