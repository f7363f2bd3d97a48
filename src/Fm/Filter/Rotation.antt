-- ===== src/Fm/Filter/Rotation.antt =====
-- What `rotate_90` does to the values of the samples, whose zero is between 127 and 128.
use mathlib.Core.Option
use rtl_sdr_blog.Common.{
  List, Option, [], arith, map, none, refl, some, suc, zero, ℕ, ◌*◌, ◌-◌, ◌<◌, ◌∷◌, ◌≡◌,
}
use rtl_sdr_blog.Common.Int.{sub_ℕ, ℤ}
use rtl_sdr_blog.Common.Cint.{negate}
use rtl_sdr_blog.Fm.Filter.{Iq, rotate_90}

-- Twice the distance from 127.5.
abbrev pub level : ℕ → ℤ
level x = sub_ℕ (2 * x) 255

abbrev pub value : ℕ × ℕ → Iq
value (i, q) = (level i, level q)

-- The product with the imaginary unit.
abbrev pub times_j : Iq → Iq
times_j (i, q) = (negate q, i)

abbrev pub turned : ℕ → Iq → Iq
turned zero s = s
turned (suc k) s = times_j (turned k s)

-- Each sample turned once more than the one before it.
abbrev pub turning : ℕ → List Iq → List Iq
turning k [] = []
turning k (s ∷ samples) = turned k s ∷ turning (suc k) samples

-- Whole groups of four samples of two bytes each.
abbrev pub IsByte : ℕ × ℕ → Type 0
IsByte (i, q) = (i < 256) × (q < 256)

abbrev pub AreGroups : List (ℕ × ℕ) → Type 0
AreGroups [] = Unit
AreGroups (s0 ∷ s1 ∷ s2 ∷ s3 ∷ buf) = IsByte s0 × IsByte s1 × IsByte s2 × IsByte s3 × AreGroups buf
AreGroups buf = ⊥

abbrev pub Turns : List (ℕ × ℕ) → Option (List (ℕ × ℕ)) → Type 0
Turns buf none = ⊥
Turns buf (some out) = map value out ≡ turning 0 (map value buf)

negate_twice : (a : ℤ) → negate (negate a) ≡ a
negate_twice a = ground arith

level_inverted : (x : ℕ) → x < 256 → level (255 - x) ≡ negate (level x)
level_inverted x h = ground arith

-- Four turns are none.
turned_full : (k : ℕ) (s : Iq) → turned (suc (suc (suc (suc k)))) s ≡ turned k s
turned_full k s = full (turned k s)
  where
    full : (s : Iq) → times_j (times_j (times_j (times_j s))) ≡ s
    full (i, q) = rw (negate_twice i, negate_twice q) refl

turning_full :
    (k : ℕ) (samples : List Iq) → turning (suc (suc (suc (suc k)))) samples ≡ turning k samples
turning_full k [] = refl
turning_full k (s ∷ samples) = rw (turned_full k s, turning_full (suc k) samples) refl

-- For whole groups of four samples of bytes, `rotate_90` reads and writes inside the buffer, and
-- multiplies sample k by the k-th power of the imaginary unit, where the value of a byte is its
-- distance from 127.5.
pub rotate_90-Turns : (buf : List (ℕ × ℕ)) → AreGroups buf → Turns buf (rotate_90 buf)
unfolding rotate_90
rotate_90-Turns [] h = refl
rotate_90-Turns ((i0, q0) ∷ []) h = elim h [ ]
rotate_90-Turns ((i0, q0) ∷ (i1, q1) ∷ []) h = elim h [ ]
rotate_90-Turns ((i0, q0) ∷ (i1, q1) ∷ (i2, q2) ∷ []) h = elim h [ ]
rotate_90-Turns ((i0, q0) ∷ (i1, q1) ∷ (i2, q2) ∷ (i3, q3) ∷ buf) (h0, h1, h2, h3, h) =
    extended (rotate_90 buf) (rotate_90-Turns buf h)
  where
    extended :
        (o : Option (List (ℕ × ℕ)))
        → Turns buf o
        → Turns ((i0, q0) ∷ (i1, q1) ∷ (i2, q2) ∷ (i3, q3) ∷ buf) (
            Option.map
              (λ rest. (i0, q0) ∷ (255 - q1, i1) ∷ (255 - i2, 255 - q2) ∷ (q3, 255 - i3) ∷ rest)
              o)
    extended none bad = absurd bad
    extended (some out) e =
        rw
          (
            e,
            turning_full 0 (map value buf),
            level_inverted q1 h1.1,
            level_inverted i2 h2.0,
            level_inverted q2 h2.1,
            level_inverted i3 h3.0,
            negate_twice (level q3),
          )
          refl
