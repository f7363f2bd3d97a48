-- ===== src/Fm/Controller/Oversample.antt =====
-- The rate at which the samples of the demodulator are captured.
use native.Mathlib.Numerals.{add-one}
use native.Mathlib.Nat.{lt-mul-div-succ, mul-div-le, mul-le-mul_right, mul_comm, two-pow-succ}
use rtl_sdr_blog.Common.{
  Bool, Bool-cases, Option, arith, false, if◌then◌else◌, inl, inr, refl, some, true, ℕ, ◌*◌, ◌+◌,
  ◌/◌, ◌<◌, ◌==◌, ◌^◌, ◌≡◌, ◌≤◌,
}
use rtl_sdr_blog.Common.Int.{i32, pos, ◌+ℤ◌}
use rtl_sdr_blog.Common.Cint.{int32, int32_small}
use rtl_sdr_blog.Fm.Thread.{Mode}
use rtl_sdr_blog.Fm.Controller.{Tuned, as_u32, optimal_settings, oversample, scale_for}

-- The whole part of the logarithm to base 2.
abbrev pub IsLog2 : (ℕ → ℕ) → Type 0
IsLog2 log2 = (n : ℕ) → 1 ≤ n → (2 ^ log2 n ≤ n) × (n < 2 ^ (log2 n + 1))

-- A capture rate above 1 MHz, and not much above it.
abbrev IsAbove : ℕ → ℕ → Type 0
IsAbove rate_in factor = (1000000 < factor * rate_in) × (factor * rate_in ≤ 2 * (1000000 + rate_in))

least-IsAbove :
    (rate_in : ℕ)
    → 0 < rate_in
    → (1000000 < (1000000 / rate_in + 1) * rate_in)
      × ((1000000 / rate_in + 1) * rate_in ≤ 1000000 + rate_in)
least-IsAbove rate_in positive =
    let q = 1000000 / rate_in in
    (
      omega (arith, lt-mul-div-succ 1000000 positive, mul_comm rate_in (q + 1)),
      omega (arith, mul-div-le 1000000 rate_in, mul_comm rate_in q),
    )

-- Sums of numbers that are small enough for an `int`.
int32_pos : (n : ℕ) → n < 2 ^ 31 → int32 (pos n) ≡ some (pos n)
int32_pos n h = int32_small (pos n) (omega (arith, h))

i32_small : (n : ℕ) → n < 2 ^ 31 → i32 n ≡ pos n
i32_small n h = ground arith

pos_add : (a b : ℕ) → pos a +ℤ pos b ≡ pos (a + b)
unfolding ◌+ℤ◌
pos_add a b = ground arith

as_u32_pos : (n : ℕ) → n < 2 ^ 32 → as_u32 (pos n) ≡ n
as_u32_pos n h = omega arith

pub doubled : (l r : ℕ) → 2 ^ (l + 1) * r ≡ 2 * (2 ^ l * r)
doubled l r = rw (add-one l, two-pow-succ l) (grind arith)

scale_for-positive : (mode_demod : Mode) (downsample : ℕ) → 1 ≤ scale_for mode_demod downsample
scale_for-positive mode_demod downsample = ground arith

-- What is set: a capture rate that the filters bring down to `rate_in`, above 1 MHz, and a
-- frequency at a quarter of it from the one that is listened to.
abbrev pub IsSetFor : Bool → ℕ → ℕ → ℕ → Tuned → Type 0
IsSetFor offset_tuning edge rate_in freq t =
    (t.rate ≡ t.downsample * rate_in)
    × (1000000 < t.rate)
    × (t.rate ≤ 2 * (1000000 + rate_in))
    × (t.freq ≡ freq + (if offset_tuning then 0 else t.rate / 4) + edge * rate_in / 2)
    × (1 ≤ t.output_scale)

module _ (log2 : ℕ → ℕ) (is_log2 : IsLog2 log2) where
  power-IsAbove :
      (rate_in : ℕ) → 0 < rate_in → IsAbove rate_in (2 ^ (log2 (1000000 / rate_in + 1) + 1))
  power-IsAbove rate_in positive =
      let least = 1000000 / rate_in + 1 in
      let near = is_log2 least (omega arith) in
      (
        omega (arith, least-IsAbove rate_in positive, mul-le-mul_right rate_in near.1),
        omega (
          arith,
          least-IsAbove rate_in positive,
          mul-le-mul_right rate_in near.0,
          doubled (log2 least) rate_in,
        ),
      )

  -- The factor that is found.
  record Oversamples (rate_in : ℕ) (o : Option (ℕ × ℕ)) : Type 0 where
    factor : ℕ × ℕ
    given : o ≡ some factor
    above : IsAbove rate_in factor.1

  oversample-Oversamples :
      (rate_in passes : ℕ) → 0 < rate_in → Oversamples rate_in (oversample log2 rate_in passes)
  unfolding oversample
  oversample-Oversamples rate_in passes positive =
      rw (==_false rate_in positive) (elim (Bool-cases (passes == 0)) [
        | inl none_set ↦ rw none_set (record {
          factor = (0, 1000000 / rate_in + 1);
          given = refl;
          above = omega (arith, least-IsAbove rate_in positive);
        })
        | inr some_set ↦ rw some_set (record {
          factor = (log2 (1000000 / rate_in + 1) + 1, 2 ^ (log2 (1000000 / rate_in + 1) + 1));
          given = refl;
          above = power-IsAbove rate_in positive;
        })
      ])
    where
      ==_false : (n : ℕ) → 0 < n → (n == 0) ≡ false
      ==_false n h = ground arith

  -- With a logarithm as `IsLog2` has it, a rate of up to 1 MHz that is not 0, and a frequency
  -- below 2145 MHz, `optimal_settings` succeeds in every mode: the capture rate is the rate times
  -- the factor of the filters, above 1 MHz and at most twice 1 MHz and the rate together, and the
  -- dongle is set above the frequency by a quarter of the capture rate, which the rotation takes
  -- back, but with offset tuning, and by half the rate for an edge; the scale is at least 1.
  pub optimal_settings-IsSetFor :
      (offset_tuning : Bool) (edge : ℕ) (mode_demod : Mode) (rate_in passes freq : ℕ)
      → 0 < rate_in
      → rate_in ≤ 1000000
      → edge ≤ 1
      → freq < 2145000000
      → (t : Tuned) × (optimal_settings log2 offset_tuning edge mode_demod rate_in passes freq
          ≡ some t)
        × IsSetFor offset_tuning edge rate_in freq t
  unfolding optimal_settings
  optimal_settings-IsSetFor offset_tuning edge mode_demod rate_in passes freq positive small at_edge
        low =
      let o = oversample-Oversamples rate_in passes positive in
      let r = o.factor.1 * rate_in in
      let quarter = if offset_tuning then 0 else r / 4 in
      let shifted = freq + quarter in
      let e = edge * rate_in in
      let e_small = edge_small in
      let q_small = quarter_small offset_tuning r in
      rw
        (
          o.given,
          int32_pos r (omega (arith, o.above.1)),
          i32_small freq (omega arith),
          pos_add freq quarter,
          int32_pos shifted (omega (arith, o.above.1, q_small)),
          int32_pos e (omega (arith, e_small)),
          pos_add shifted (e / 2),
          int32_pos (shifted + e / 2) (omega (arith, o.above.1, q_small, e_small)),
        )
        (
          _,
          refl,
          (
            refl,
            o.above.0,
            o.above.1,
            as_u32_pos (shifted + e / 2) (omega (arith, o.above.1, q_small, e_small)),
            scale_for-positive mode_demod o.factor.1,
          ),
        )
    where
      edge_small : edge * rate_in ≤ 1000000
      edge_small = omega (arith, mul-le-mul_right rate_in at_edge)

      quarter_small : (b : Bool) (r : ℕ) → (if b then 0 else r / 4) ≤ r / 4
      quarter_small true r = omega arith
      quarter_small false r = omega arith
