-- ===== src/Fm/Phase/Table.antt =====
-- `polar_disc_lut` reads its table in range.
use native.Mathlib.Nat.{mul-le-mul}
use rtl_sdr_blog.Common.{
  Bool, Bool-cases, List, Option, arith, false, get_elem?, get_elem?-inside, if◌then◌else◌, inl,
  inr, leb, length, none, some, true, ℕ, ◌*◌, ◌+◌, ◌<◌, ◌^◌, ◌||◌, ◌≡◌, ◌≤◌,
}
use rtl_sdr_blog.Common.Int.{neg_part, negsuc, pos, pos_part, ℤ, ◌*ℤ◌, ◌+ℤ◌, ◌-ℤ◌}
use rtl_sdr_blog.Common.Cint.{
  int32, int32_small, is_neg, is_null, magnitude, negate, quot, shl, ◌>>=◌,
}
use rtl_sdr_blog.Fm.Phase.{atan_lut_size, multiply, off_axis, on_axis, polar_disc_lut}

magnitude-*ℤ : (a b : ℤ) → magnitude (a *ℤ b) ≡ magnitude a * magnitude b
unfolding ◌*ℤ◌
magnitude-*ℤ (pos a) (pos b) = ground arith
magnitude-*ℤ (pos a) (negsuc b) = ground arith
magnitude-*ℤ (negsuc a) (pos b) = ground arith
magnitude-*ℤ (negsuc a) (negsuc b) = ground arith

product_small :
    (a b : ℤ) → magnitude a < 2 ^ 11 → magnitude b < 2 ^ 11 → magnitude (a *ℤ b) < 2 ^ 22
product_small a b h k = omega (arith, magnitude-*ℤ a b, bound)
  where
    bound : magnitude a * magnitude b ≤ 2047 * 2047
    bound = mul-le-mul {n₂ = 2047} {m₂ = 2047} (omega arith) (omega arith)

sum_small : (a b : ℤ) → magnitude (a +ℤ b) ≤ magnitude a + magnitude b
unfolding ◌+ℤ◌
sum_small a b = ground arith

difference_small : (a b : ℤ) → magnitude (a -ℤ b) ≤ magnitude a + magnitude b
unfolding ◌-ℤ◌
difference_small a b = ground arith

magnitude-negate : (a : ℤ) → magnitude (negate a) ≡ magnitude a
magnitude-negate a = ground arith

abbrev IsProduct : Option (ℤ × ℤ) → Type 0
IsProduct none = ⊥
IsProduct (some (cr, cj)) = (magnitude cr < 2 ^ 23) × (magnitude cj < 2 ^ 23)

multiply-IsProduct :
    (ar aj br bj : ℤ)
    → magnitude ar < 2 ^ 11
    → magnitude aj < 2 ^ 11
    → magnitude br < 2 ^ 11
    → magnitude bj < 2 ^ 11
    → IsProduct (multiply ar aj br bj)
unfolding multiply
multiply-IsProduct ar aj br bj har haj hbr hbj =
    rw
      (
        int32_small (ar *ℤ br) (omega (arith, rr)),
        int32_small (aj *ℤ bj) (omega (arith, jj)),
        int32_small (aj *ℤ br) (omega (arith, jr)),
        int32_small (ar *ℤ bj) (omega (arith, rj)),
        int32_small (ar *ℤ br -ℤ aj *ℤ bj) (omega (arith, real)),
        int32_small (aj *ℤ br +ℤ ar *ℤ bj) (omega (arith, imaginary)),
      )
      (omega (arith, real), omega (arith, imaginary))
  where
    rr : magnitude (ar *ℤ br) < 2 ^ 22
    rr = product_small ar br har hbr

    jj : magnitude (aj *ℤ bj) < 2 ^ 22
    jj = product_small aj bj haj hbj

    jr : magnitude (aj *ℤ br) < 2 ^ 22
    jr = product_small aj br haj hbr

    rj : magnitude (ar *ℤ bj) < 2 ^ 22
    rj = product_small ar bj har hbj

    real : magnitude (ar *ℤ br -ℤ aj *ℤ bj) < 2 ^ 23
    real = omega (arith, rr, jj, difference_small (ar *ℤ br) (aj *ℤ bj))

    imaginary : magnitude (aj *ℤ br +ℤ ar *ℤ bj) < 2 ^ 23
    imaginary = omega (arith, jr, rj, sum_small (aj *ℤ br) (ar *ℤ bj))

-- A table of the size of the source's, with angles of at most a quarter turn.
pub record IsTable (atan_lut : List ℤ) : Type 0 where
  pub size : length atan_lut ≡ atan_lut_size
  pub entries :
      (i : ℕ) (a : ℤ) → get_elem? atan_lut i ≡ some a → (neg_part a ≡ 0) × (pos_part a ≤ 8192)

abbrev pub IsAngle : Option ℤ → Type 0
IsAngle none = ⊥
IsAngle (some a) = magnitude a ≤ 16384

table_angle :
    (left down : Bool) (a : ℤ)
    → neg_part a ≡ 0
    → pos_part a ≤ 8192
    → magnitude (
        if left
        then (if down then negate a else pos 16384 -ℤ a)
        else if down
        then a -ℤ pos 16384
        else a)
      ≤ 16384
unfolding ◌-ℤ◌
table_angle true true a h k = ground arith
table_angle true false a h k = ground arith
table_angle false true a h k = ground arith
table_angle false false a h k = ground arith

axis_angle : (cr cj : ℤ) → magnitude (on_axis cr cj) ≤ 16384
unfolding on_axis
axis_angle cr cj = ground arith

module _ (atan_lut : List ℤ) (table : IsTable atan_lut) where
  off_axis-IsAngle : (x cj : ℤ) → IsAngle (off_axis atan_lut x cj)
  unfolding off_axis
  off_axis-IsAngle x cj = elim (Bool-cases (leb atan_lut_size (magnitude x))) [
    | inl beyond ↦ rw beyond (quarter (is_neg cj))
    | inr inside ↦
        rw (inside, (found inside).1)
          (table_angle (is_neg x || is_null x) (is_neg cj) (found inside).0
            (table.entries (magnitude x) (found inside).0 (found inside).1).0
            (table.entries (magnitude x) (found inside).0 (found inside).1).1)
  ]
    where
      quarter : (b : Bool) → magnitude (if b then negsuc 8191 else pos 8192) ≤ 16384
      quarter true = omega arith
      quarter false = omega arith

      found :
          leb atan_lut_size (magnitude x) ≡ false
          → (a : ℤ) × (get_elem? atan_lut (magnitude x) ≡ some a)
      found inside = get_elem?-inside atan_lut (magnitude x) (ground (arith, table.size))

  either_case :
      (cr cj : ℤ)
      → magnitude cj < 2 ^ 23
      → IsAngle (
          if is_null cr || is_null cj
          then some (on_axis cr cj)
          else (int32 (shl cj 8) >>= λ shifted. off_axis atan_lut (quot shifted cr) cj))
  either_case cr cj small = by_test (is_null cr || is_null cj)
    where
      by_test :
          (b : Bool)
          → IsAngle (
              if b
              then some (on_axis cr cj)
              else (int32 (shl cj 8) >>= λ shifted. off_axis atan_lut (quot shifted cr) cj))
      by_test true = axis_angle cr cj
      by_test false =
          rw (int32_small (shl cj 8) (ground arith)) (off_axis-IsAngle (quot (shl cj 8) cr) cj)

  -- With a table of 131072 angles of at most a quarter turn, and samples whose parts are below
  -- 2^11 in size, the discriminant by table overflows no `int`, reads its table in range and gives
  -- an angle of at most a half turn.
  pub polar_disc_lut-IsAngle :
      (ar aj br bj : ℤ)
      → magnitude ar < 2 ^ 11
      → magnitude aj < 2 ^ 11
      → magnitude br < 2 ^ 11
      → magnitude bj < 2 ^ 11
      → IsAngle (polar_disc_lut atan_lut ar aj br bj)
  unfolding polar_disc_lut
  polar_disc_lut-IsAngle ar aj br bj har haj hbr hbj =
      after (multiply ar aj br (negate bj))
        (multiply-IsProduct ar aj br (negate bj) har haj hbr (omega (arith, magnitude-negate bj)))
    where
      after :
          (o : Option (ℤ × ℤ))
          → IsProduct o
          → IsAngle (
              o >>= λ c.
              if is_null c.0 || is_null c.1
              then some (on_axis c.0 c.1)
              else (int32 (shl c.1 8) >>= λ shifted. off_axis atan_lut (quot shifted c.0) c.1))
      after none bad = bad
      after (some (cr, cj)) (real, imaginary) = either_case cr cj imaginary
