-- ===== src/R82xx/Pll/Sigma.antt =====
-- The sigma-delta loop of `r82xx_set_pll`: it ends, divides by no zero, and its word stands for
-- the fraction that was asked for, up to the rounding of its sixteen divisions.
use rtl_sdr_blog.Common.{
  Option, arith, false, leb, ltb, lt→ltb, none, refl, some, suc, true, zero, ℕ, ◌*◌, ◌+◌, ◌-◌, ◌/◌,
  ◌<◌, ◌==◌, ◌≡◌, ◌≤◌,
}
use rtl_sdr_blog.Common.Word.{u16, u32}
use rtl_sdr_blog.R82xx.Pll.{sdm_loop}
use native.Mathlib.Nat.{div-add-mod, mod-lt, mul-le-mul_left, div-div-eq-div-mul}
use native.Mathlib.Decide.{dec_lt}

-- The divisor `n`, with the weight `w` of its bit, on its way to 0x8000 in `j` doublings.
abbrev pub Weights : ℕ → ℕ → ℕ → Type 0
Weights zero n w = (n ≡ 32768) × (w ≡ 2)
Weights (suc j) n w =
    (32768 / (n / 2) ≡ w)
    × (n * w ≡ 65536)
    × (2 ≤ n)
    × (n ≤ 16384)
    × (w ≡ w / 2 * 2)
    × (0 < w)
    × Weights j (n * 2) (w / 2)

-- A word `s` that began at `sdm` takes up `fra`, but for `up` above and `low` below.
abbrev pub Takes : (ref fra sdm up low : ℕ) → Option ℕ → Type 0
Takes ref fra sdm up low none = ⊥
Takes ref fra sdm up low (some s) =
    (s < 65536)
    × (s * (2 * ref) ≤ sdm * (2 * ref) + (fra + up) * 65536)
    × (fra * 65536 + sdm * (2 * ref) ≤ s * (2 * ref) + low * 65536)

scale_up : (r n q w : ℕ) → r ≤ n * q → n * w ≡ 65536 → w * r ≤ q * 65536
scale_up r n q w h e = rw (← e) (rw (regroup n q w) (mul-le-mul_left w h))
  where
    regroup : (n q w : ℕ) → q * (n * w) ≡ w * (n * q)
    regroup n q w = omega arith

scale_down : (r n q w : ℕ) → n * q ≤ r → n * w ≡ 65536 → q * 65536 ≤ w * r
scale_down r n q w h e = rw (← e) (rw (regroup n q w) (mul-le-mul_left w h))
  where
    regroup : (n q w : ℕ) → q * (n * w) ≡ w * (n * q)
    regroup n q w = omega arith

quotient_bounds : (r n : ℕ) → 0 < n → (r ≤ n * (r / n + 1)) × (n * (r / n) ≤ r)
quotient_bounds r n pos =
    (omega (arith, div-add-mod r n, mod-lt r pos), omega (arith, div-add-mod r n))

weight_bounds :
    (ref n w : ℕ)
    → 0 < n
    → n * w ≡ 65536
    → (w * (2 * ref) ≤ (2 * ref / n + 1) * 65536) × (2 * ref / n * 65536 ≤ w * (2 * ref))
weight_bounds ref n w pos e = (
  scale_up (2 * ref) n (2 * ref / n + 1) w (quotient_bounds (2 * ref) n pos).0 e,
  scale_down (2 * ref) n (2 * ref / n) w (quotient_bounds (2 * ref) n pos).1 e,
)

-- Halving the quotient's divisor step by step.
quotient_half : (r n : ℕ) → 0 < n → r / n ≤ 2 * (r / (n * 2)) + 1
quotient_half r n pos = omega (arith, div-div-eq-div-mul r n 2)

module _ (f ref fra n sdm : ℕ) where
  sdm_loop-stop : fra ≤ 1 → sdm_loop (suc f) ref fra n sdm ≡ some sdm
  unfolding sdm_loop
  sdm_loop-stop h = ground arith

  module _ (small : ref < 32768) (more : 1 < fra) (pos : 2 ≤ n) where
    no_wrap : u32 (2 * ref) ≡ 2 * ref
    no_wrap = omega arith

    not_done : ltb 1 fra ≡ true
    not_done = ground arith

    not_zero : (n == 0) ≡ false
    not_zero = ground arith

    sdm_loop-skip :
        n ≤ 16384
        → fra ≤ 2 * ref / n
        → sdm_loop (suc f) ref fra n sdm ≡ sdm_loop f ref fra (n * 2) sdm
    unfolding sdm_loop
    sdm_loop-skip low h = rw (no_wrap, not_done, not_zero, keep, doubled)
      where
        keep : ltb (2 * ref / n) fra ≡ false
        keep = ground arith

        doubled : u16 (n * 2) ≡ n * 2
        doubled = omega arith

    module _ (w : ℕ) (weight : 32768 / (n / 2) ≡ w) (room : sdm + w < 65536)
        (h : 2 * ref / n < fra) where
      summed : u16 (sdm + w) ≡ sdm + w
      summed = omega arith

      sdm_loop-last : 32768 ≤ n → sdm_loop (suc f) ref fra n sdm ≡ some (sdm + w)
      unfolding sdm_loop
      sdm_loop-last high = rw (no_wrap, not_done, not_zero, lt→ltb _ _ h, last, weight, summed)
        where
          last : leb 0x8000 n ≡ true
          last = ground arith

      sdm_loop-take :
          n ≤ 16384
          → sdm_loop (suc f) ref fra n sdm ≡ sdm_loop f ref (fra - 2 * ref / n) (n * 2) (sdm + w)
      unfolding sdm_loop
      sdm_loop-take low =
          rw (no_wrap, not_done, not_zero, lt→ltb _ _ h, not_last, weight, summed, doubled)
        where
          not_last : leb 0x8000 n ≡ false
          not_last = ground arith

          doubled : u16 (n * 2) ≡ n * 2
          doubled = omega arith

-- One divisor taken, of the quotient `q` and the weight `w`; and one skipped.
Takes-take :
    (ref fra sdm j e n w : ℕ) (r : Option ℕ)
    → 0 < n
    → n * w ≡ 65536
    → 2 * ref / n < fra
    → Takes ref (fra - 2 * ref / n) (sdm + w) (j + 1) (j + 2 + (e + 1)) r
    → Takes ref fra sdm (suc j + 1) (suc j + 2 + e) r
Takes-take ref fra sdm j e n w none pos e' h t = t
Takes-take ref fra sdm j e n w (some s) pos e' h t = omega (arith, weight_bounds ref n w pos e')

Takes-skip :
    (ref fra sdm j e : ℕ) (r : Option ℕ)
    → Takes ref fra sdm (j + 1) (j + 2 + (e + 1)) r
    → Takes ref fra sdm (suc j + 1) (suc j + 2 + e) r
Takes-skip ref fra sdm j e none t = t
Takes-skip ref fra sdm j e (some s) t = omega arith

pub sdm_loop-Takes :
    (j f ref fra n w sdm e : ℕ)
    → ref < 32768
    → Weights j n w
    → j < f
    → sdm + 2 * w ≤ 65536
    → fra ≤ 2 * (2 * ref / n) + e
    → Takes ref fra sdm (j + 1) (j + 2 + e) (sdm_loop f ref fra n sdm)
unfolding sdm_loop
sdm_loop-Takes zero zero ref fra n w sdm e small ws enough room below = absurd (omega arith)
sdm_loop-Takes (suc j) zero ref fra n w sdm e small ws enough room below = absurd (omega arith)
sdm_loop-Takes zero (suc f) ref fra n w sdm e small ws enough room below = elim (dec_lt 1 fra) [
  | no few ↦ rw (sdm_loop-stop f ref fra n sdm (omega arith)) (omega arith)
  | yes more ↦
      rw
        (sdm_loop-last f ref fra n sdm small more (omega arith) 2 (rw ws.0) (omega arith)
          (least more) (omega arith))
        (omega (arith, below'))
]
  where
    below' : fra ≤ 2 * (2 * ref / 32768) + e
    below' = rw ws.0 at below

    least : 1 < fra → 2 * ref / n < fra
    least more = rw ws.0 (omega arith)
sdm_loop-Takes (suc j) (suc f) ref fra n w sdm e small ws enough room below = elim (dec_lt 1 fra) [
  | no few ↦ rw (sdm_loop-stop f ref fra n sdm (omega arith)) (omega arith)
  | yes more ↦ elim (dec_lt (2 * ref / n) fra) [
    | no h ↦ rw (sdm_loop-skip f ref fra n sdm small more ws.2 ws.3 (omega arith)) (
        Takes-skip ref fra sdm j e _ (
          sdm_loop-Takes j f ref fra (n * 2) (w / 2) sdm (e + 1) small ws.6 (omega arith)
            (omega arith) (omega (arith, half))))
    | yes h ↦ rw (sdm_loop-take f ref fra n sdm small more ws.2 w ws.0 (omega arith) h ws.3) (
        Takes-take ref fra sdm j e n w _ (omega arith) ws.1 h (
          sdm_loop-Takes j f ref (fra - 2 * ref / n) (n * 2) (w / 2) (sdm + w) (e + 1) small ws.6
            (omega arith) (omega arith) (omega (arith, half))))
  ]
]
  where
    half : 2 * ref / n ≤ 2 * (2 * ref / (n * 2)) + 1
    half = quotient_half (2 * ref) n (omega arith)

-- For a crystal below 32768 kHz and a rest of at most twice the crystal (in kHz), the sigma-delta
-- loop ends without a division by zero, and its 16-bit word times twice the crystal is within 15
-- units of 65536 above the rest times 65536, and within 16 below.
pub sdm_loop-Takes_start :
    (ref fra : ℕ) → ref < 32768 → fra ≤ 2 * ref → Takes ref fra 0 15 16 (sdm_loop 32 ref fra 2 0)
sdm_loop-Takes_start ref fra small below =
    sdm_loop-Takes 14 32 ref fra 2 32768 0 0 small (omega arith) (omega arith) (omega arith)
      (omega arith)

-- Whatever is left over, the loop ends with a word.
pub sdm_loop_ends :
    (ref fra : ℕ) → ref < 32768 → (s : ℕ) × (sdm_loop 32 ref fra 2 0 ≡ some s) × (s < 65536)
sdm_loop_ends ref fra small = of_Takes (sdm_loop 32 ref fra 2 0) refl (
    sdm_loop-Takes 14 32 ref fra 2 32768 0 fra small (omega arith) (omega arith) (omega arith)
      (omega arith))
  where
    of_Takes :
        (r : Option ℕ)
        → sdm_loop 32 ref fra 2 0 ≡ r
        → Takes ref fra 0 15 (16 + fra) r
        → (s : ℕ) × (sdm_loop 32 ref fra 2 0 ≡ some s) × (s < 65536)
    of_Takes none e t = absurd t
    of_Takes (some s) e t = (s, e, t.0)
