-- ===== src/Device/Gains/Reach.antt =====
-- The gains that `rtlsdr_get_tuner_gains` lists for the R820T are those that `r82xx_set_gain` sets.
use rtl_sdr_blog.Common.{
  ==_iff, Bool, List, Option, [], ap, arith, false, if◌then◌else◌, ltb, none, refl, some, suc, true,
  zero, ℕ, ◌&&◌, ◌||◌, ◌∷◌, ◌≡◌, ◌≤◌, ◌⊎◌,
}
use rtl_sdr_blog.Common.Int.{negsuc, pos, same_ℤ, ℤ, ◌+ℤ◌}
use rtl_sdr_blog.Common.Bits.{all_below, all_below_lem}
use rtl_sdr_blog.State.{tuner_r820t}
use rtl_sdr_blog.R82xx.Tables.{lna_gain_steps, mixer_gain_steps}
use rtl_sdr_blog.R82xx.Gain.{gain_loop, leb_ℤ}
use rtl_sdr_blog.Device.Gains.{get_tuner_gains}

-- The sum of a table's entries up to an index.
abbrev pub sum_to : ℕ → List ℤ → ℤ
sum_to i [] = pos 0
sum_to zero (x ∷ xs) = x
sum_to (suc i) (x ∷ xs) = x +ℤ sum_to i xs

-- The gain of the two stages at their indices.
abbrev pub gain_at : Option (ℕ × ℕ) → Option ℤ
gain_at none = none
gain_at (some (mix, lna)) = some (sum_to lna lna_gain_steps +ℤ sum_to mix mixer_gain_steps)

-- The first entry of a list that is at least `gain`.
abbrev pub first_from : ℤ → List ℤ → Option ℤ
first_from gain [] = none
first_from gain (x ∷ xs) = if leb_ℤ gain x then some x else first_from gain xs

same_option : Option ℤ → Option ℤ → Bool
same_option none b = false
same_option (some a) none = false
same_option (some a) (some b) = same_ℤ a b

same_ℤ_eq : (a b : ℤ) → same_ℤ a b ≡ true → a ≡ b
same_ℤ_eq (pos a) (pos b) h = ap pos ((==_iff a b).0 h)
same_ℤ_eq (pos a) (negsuc b) h = ground arith
same_ℤ_eq (negsuc a) (pos b) h = ground arith
same_ℤ_eq (negsuc a) (negsuc b) h = ap negsuc ((==_iff a b).0 h)

same_option_eq : (a b : Option ℤ) → same_option a b ≡ true → a ≡ b
unfolding same_option
same_option_eq none b h = ground arith
same_option_eq (some a) none h = ground arith
same_option_eq (some a) (some b) h = ap some (same_ℤ_eq a b h)

reached : ℕ → Bool
reached n =
    (ltb 480 n && ltb n 484)
    || same_option (gain_at (gain_loop 15 (pos n) (pos 0) 0 0))
        (first_from (pos n) (get_tuner_gains tuner_r820t))

all_reached : all_below 497 reached ≡ true
unfolding all_below reached same_option gain_loop ◌+ℤ◌
all_reached = refl

-- For a gain of 0 to 49.6 dB, except 48.1 to 48.3 dB, the loop of `r82xx_set_gain` ends at the
-- first gain of the list of `rtlsdr_get_tuner_gains` that is not below it.
pub gain_loop-get_tuner_gains :
    (gain : ℕ)
    → gain ≤ 496
    → (gain ≤ 480) ⊎ (484 ≤ gain)
    → gain_at (gain_loop 15 (pos gain) (pos 0) 0 0)
      ≡ first_from (pos gain) (get_tuner_gains tuner_r820t)
unfolding reached
gain_loop-get_tuner_gains gain h apart = same_option_eq _ _ (
    other_side (ltb 480 gain && ltb gain 484) _
      (all_below_lem 497 reached gain all_reached (omega arith)) (ground arith))
  where
    other_side : (a b : Bool) → (a || b) ≡ true → a ≡ false → b ≡ true
    other_side a b h k = ground arith
