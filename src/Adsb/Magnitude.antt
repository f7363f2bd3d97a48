-- ===== src/Adsb/Magnitude.antt =====
-- src/rtl_adsb.c: the table of squares and the magnitudes of the samples.
use rtl_sdr_blog.Common.{
  List, [], arith, if◌then◌else◌, leb, refl, ℕ, ◌*◌, ◌+◌, ◌-◌, ◌<◌, ◌∷◌, ◌≡◌, ◌≤◌,
}
use rtl_sdr_blog.Common.Word.{u16}
use native.Mathlib.Nat.{mul-le-mul}

unfoldable pub abs8 : ℕ → ℕ
abs8 x = if leb 127 x then x - 127 else 127 - x

-- `squares[i]`.
unfoldable pub square : ℕ → ℕ
unfolding abs8
square i = u16 (abs8 i * abs8 i)

-- The 16-bit samples that replace the pairs of bytes. With an odd length the loop makes one more
-- sample, of a byte past the end; the callers pass even lengths.
unfoldable pub magnitute : List ℕ → List ℕ
unfolding square
magnitute [] = []
magnitute (i ∷ []) = []
magnitute (i ∷ q ∷ buf) = u16 (square i + square q) ∷ magnitute buf

abs8_bound : (x : ℕ) → x < 256 → abs8 x ≤ 128
unfolding abs8
abs8_bound x h = ground arith

square_lem : (x : ℕ) → x < 256 → (square x ≡ abs8 x * abs8 x) × (square x ≤ 16384)
unfolding square
square_lem x h = omega (arith, mul-le-mul (abs8_bound x h) (abs8_bound x h))

-- The bytes of a buffer.
abbrev pub AllBytes : List ℕ → Type 0
AllBytes [] = Unit {0}
AllBytes (x ∷ xs) = (x < 256) × AllBytes xs

-- Each sample is the sum of the squared distances of its two bytes from 127.
abbrev pub Magnitudes : List ℕ → List ℕ → Type 0
Magnitudes (i ∷ q ∷ buf) (m ∷ ms) =
    (m ≡ abs8 i * abs8 i + abs8 q * abs8 q) × (m ≤ 32768) × Magnitudes buf ms
Magnitudes (i ∷ q ∷ buf) [] = ⊥
Magnitudes (i ∷ []) ms = ms ≡ []
Magnitudes [] ms = ms ≡ []

-- For a buffer of bytes, the magnitudes are one for each pair of bytes, each the sum of the
-- squares of their distances from 127 with no overflow, and at most 32768.
pub magnitute-Magnitudes : (buf : List ℕ) → AllBytes buf → Magnitudes buf (magnitute buf)
unfolding magnitute
magnitute-Magnitudes [] h = refl
magnitute-Magnitudes (i ∷ []) h = refl
magnitute-Magnitudes (i ∷ q ∷ buf) h = (
  omega (arith, square_lem i h.0, square_lem q h.1.0),
  omega (arith, square_lem i h.0, square_lem q h.1.0),
  magnitute-Magnitudes buf h.1.1,
)
