-- ===== src/Fm/Phase.antt =====
-- src/rtl_fm.c: the angle between two samples, in integers: `multiply`, `fast_atan2`,
-- `polar_disc_fast` and `polar_disc_lut`. A sum or product outside the range of an `int`, and a read
-- outside the table, is `none`.
pub mod Bounds
pub mod Table
use rtl_sdr_blog.Common.{
  List, Option, get_elem?, if◌then◌else◌, leb, none, some, ℕ, ◌&&◌, ◌*◌, ◌||◌,
}
use rtl_sdr_blog.Common.Int.{neg_part, negsuc, pos, pos_part, sub_ℕ, ℤ, ◌*ℤ◌, ◌+ℤ◌, ◌-ℤ◌}
use rtl_sdr_blog.Common.Cint.{int32, is_neg, is_null, magnitude, negate, quot, shl, ◌>>=◌}

abbrev pub pi4 : ℤ
pi4 = pos 4096

abbrev pub pi34 : ℤ
pi34 = pos 12288

unfoldable pub multiply : ℤ → ℤ → ℤ → ℤ → Option (ℤ × ℤ)
multiply ar aj br bj = do
  rr ← int32 (ar *ℤ br)
  jj ← int32 (aj *ℤ bj)
  jr ← int32 (aj *ℤ br)
  rj ← int32 (ar *ℤ bj)
  cr ← int32 (rr -ℤ jj)
  cj ← int32 (jr +ℤ rj)
  some (cr, cj)

-- `pi4 * n / m`.
unfoldable pub eighth_times : ℤ → ℤ → Option ℤ
eighth_times n m = do
  product ← int32 (sub_ℕ (4096 * pos_part n) (4096 * neg_part n))
  if is_null m then none else some (quot product m)

-- The angle for a `y` that is not negative.
unfoldable pub angle_up : ℤ → ℤ → Option ℤ
angle_up x yabs =
    if is_neg x
    then (do
      sum ← int32 (x +ℤ yabs)
      difference ← int32 (yabs -ℤ x)
      part ← eighth_times sum difference
      some (pi34 -ℤ part))
    else (do
      difference ← int32 (x -ℤ yabs)
      sum ← int32 (x +ℤ yabs)
      part ← eighth_times difference sum
      some (pi4 -ℤ part))

unfoldable pub fast_atan2 : ℤ → ℤ → Option ℤ
fast_atan2 y x = if is_null x && is_null y then some (pos 0) else (do
  yabs ← int32 (pos (magnitude y))
  angle ← angle_up x yabs
  some (if is_neg y then negate angle else angle))

unfoldable pub polar_disc_fast : ℤ → ℤ → ℤ → ℤ → Option ℤ
polar_disc_fast ar aj br bj = do (cr, cj) ← multiply ar aj br (negate bj); fast_atan2 cj cr

abbrev pub atan_lut_size : ℕ
atan_lut_size = 131072

-- The four cases in which a part of the product is 0.
unfoldable pub on_axis : ℤ → ℤ → ℤ
on_axis cr cj =
    if is_null cr
    then (if is_null cj then pos 0 else if is_neg cj then negsuc 8191 else pos 8192)
    else if is_neg cr
    then pos 16384
    else pos 0

-- The other cases, with `x` the quotient times 2^8 and the table that `atan_lut_init` fills.
unfoldable pub off_axis : List ℤ → ℤ → ℤ → Option ℤ
off_axis atan_lut x cj =
    if leb atan_lut_size (magnitude x)
    then some (if is_neg cj then negsuc 8191 else pos 8192)
    else (do
      a ← get_elem? atan_lut (magnitude x)
      some (
          if is_neg x || is_null x
          then (if is_neg cj then negate a else pos 16384 -ℤ a)
          else if is_neg cj
          then a -ℤ pos 16384
          else a))

unfoldable pub polar_disc_lut : List ℤ → ℤ → ℤ → ℤ → ℤ → Option ℤ
polar_disc_lut atan_lut ar aj br bj = do
  (cr, cj) ← multiply ar aj br (negate bj)
  if is_null cr || is_null cj
      then some (on_axis cr cj)
      else (do shifted ← int32 (shl cj 8); off_axis atan_lut (quot shifted cr) cj)
