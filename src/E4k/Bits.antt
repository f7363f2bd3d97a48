-- ===== src/E4k/Bits.antt =====
-- Bytes with the bits of a mask replaced, by going through all of them.
use rtl_sdr_blog.Common.{
  ==_iff, Bool, arith, bit_and, bit_or, get_or, length, ltb, ltb→lt, refl, true, ℕ, ◌*◌, ◌/◌, ◌<◌,
  ◌==◌, ◌^◌, ◌≡◌,
}
use rtl_sdr_blog.Common.Bits.{all_below, all_below_lem}
use rtl_sdr_blog.Common.Word.{inv8, u8}
use rtl_sdr_blog.E4k.{RegField, field_mask, masked, width2mask}
use rtl_sdr_blog.E4k.Filter.{IfFilter, chan, if_filter_bw, if_filter_field, mix, rc}

unfoldable all_pairs : ℕ → ℕ → (ℕ → ℕ → Bool) → Bool
all_pairs n k p = all_below n (λ a. all_below k (p a))

all_pairs_lem :
    (n k : ℕ) (p : ℕ → ℕ → Bool) (a b : ℕ) → all_pairs n k p ≡ true → a < n → b < k → p a b ≡ true
unfolding all_pairs
all_pairs_lem n k p a b h below below' =
    all_below_lem k (p a) b (all_below_lem n (λ c. all_below k (p c)) a h below) below'

abbrev keeps : ℕ → ℕ → Bool
keeps tmp mask = masked tmp mask (bit_and tmp mask) == tmp

keeps_all : all_pairs 256 256 keeps ≡ true
unfolding all_pairs all_below
keeps_all = refl

pub masked_same : (tmp mask : ℕ) → tmp < 256 → mask < 256 → masked tmp mask (bit_and tmp mask) ≡ tmp
masked_same tmp mask h k = (==_iff _ _).0 (all_pairs_lem 256 256 keeps tmp mask keeps_all h k)

abbrev or_fits : ℕ → ℕ → Bool
or_fits a b = ltb (bit_or a b) 256

or_fits_all : all_pairs 256 256 or_fits ≡ true
unfolding all_pairs all_below
or_fits_all = refl

abbrev and_fits : ℕ → ℕ → Bool
and_fits a b = ltb (bit_and a b) 256

and_fits_all : all_pairs 256 256 and_fits ≡ true
unfolding all_pairs all_below
and_fits_all = refl

bit_and_fits : (a b : ℕ) → a < 256 → b < 256 → bit_and a b < 256
bit_and_fits a b h k = ltb→lt _ _ (all_pairs_lem 256 256 and_fits a b and_fits_all h k)

pub masked_fits :
    (tmp mask val : ℕ) → tmp < 256 → mask < 256 → val < 256 → masked tmp mask val < 256
masked_fits tmp mask val h k l = ltb→lt _ _ (
    all_pairs_lem 256 256 or_fits (bit_and tmp (inv8 mask)) (bit_and val mask) or_fits_all
      (bit_and_fits tmp (inv8 mask) h (omega arith)) (bit_and_fits val mask l k))

-- What a field of the filters reads after `val` was put into it.
abbrev pub field_of : RegField → ℕ → ℕ
field_of f byte = bit_and (byte / 2 ^ f.shift) (get_or width2mask f.width 0)

abbrev reads : IfFilter → ℕ → ℕ → Bool
reads filter val tmp =
    field_of (if_filter_field filter) (
      masked tmp (field_mask (if_filter_field filter))
        (u8 (val * 2 ^ (if_filter_field filter).shift)))
    == val

reads_all : (filter : IfFilter) → all_pairs (length (if_filter_bw filter)) 256 (reads filter) ≡ true
unfolding all_pairs all_below
reads_all mix = refl
reads_all chan = refl
reads_all rc = refl

pub field_of-masked :
    (filter : IfFilter) (val tmp : ℕ)
    → val < length (if_filter_bw filter)
    → tmp < 256
    → field_of (if_filter_field filter) (
        masked tmp
          (field_mask (if_filter_field filter))
          (u8 (val * 2 ^ (if_filter_field filter).shift)))
      ≡ val
field_of-masked filter val tmp h k =
    (==_iff _ _).0 (
      all_pairs_lem (length (if_filter_bw filter)) 256 (reads filter) val tmp (reads_all filter) h
        k)
