-- ===== src/Fm/Controller/Tests.antt =====
-- Runs of the controller, and the theorem at a concrete frequency.
use rtl_sdr_blog.Common.{
  Bool-cases, [], arith, false, if◌then◌else◌, inl, inr, ltb, refl, some, suc, zero, ℕ, ◌+◌, ◌/◌,
  ◌<◌, ◌^◌, ◌∷◌, ◌≡◌, ◌≤◌,
}
use rtl_sdr_blog.Common.Int.{◌+ℤ◌}
use rtl_sdr_blog.Fm.Thread.{fm}
use rtl_sdr_blog.Fm.Controller.{Controller, Tuned, next_hop, optimal_settings, oversample}
use rtl_sdr_blog.Fm.Controller.Oversample.{IsLog2, IsSetFor, doubled, optimal_settings-IsSetFor}

-- The whole part of the logarithm, by halving.
halvings : ℕ → ℕ → ℕ
halvings zero n = 0
halvings (suc fuel) n = let rest = halvings fuel (n / 2) in if ltb n 2 then 0 else rest + 1

halvings-IsLog2 :
    (fuel n : ℕ) → 1 ≤ n → n ≤ fuel → (2 ^ halvings fuel n ≤ n) × (n < 2 ^ (halvings fuel n + 1))
unfolding halvings
halvings-IsLog2 zero n positive enough = absurd (omega arith)
halvings-IsLog2 (suc fuel) n positive enough = elim (Bool-cases (ltb n 2)) [
  | inl one ↦ rw one (positive, ground arith)
  | inr more ↦ rw more (
      halved (halvings fuel (n / 2)) (ground arith)
        (halvings-IsLog2 fuel (n / 2) (ground arith) (ground arith)))
]
  where
    halved :
        (l : ℕ)
        → 2 ≤ n
        → (2 ^ l ≤ n / 2) × (n / 2 < 2 ^ (l + 1))
        → (2 ^ (l + 1) ≤ n) × (n < 2 ^ (l + 1 + 1))
    halved l two h = (omega (arith, h.0, doubled l 1), omega (arith, h.1, doubled (l + 1) 1))

abbrev log2 : ℕ → ℕ
log2 n = halvings n n

log2-IsLog2 : IsLog2 log2
log2-IsLog2 n positive = halvings-IsLog2 n n positive (omega arith)

optimal_settings-IsSetFor_example :
    (t : Tuned) × (optimal_settings log2 false 0 fm 170000 0 98500000 ≡ some t)
    × IsSetFor false 0 170000 98500000 t
optimal_settings-IsSetFor_example =
    optimal_settings-IsSetFor log2 log2-IsLog2 false 0 fm 170000 0 98500000 (omega arith)
      (omega arith) (omega arith) (omega arith)

abbrev stations : Controller
stations = record { freqs = 98500000 ∷ 101100000 ∷ []; freq_now = 1; edge = 0 }

-- From the last station to the first, and 255 kHz above it.
round_trip :
    next_hop log2 false fm 170000 0 stations
    ≡ some (
      record stations { freq_now = 0 },
      some (
        record {
          downsample = 6;
          downsample_passes = 0;
          output_scale = 1;
          freq = 98755000;
          rate = 1020000;
        },
        4096,
      ),
    )
unfolding next_hop optimal_settings oversample ◌+ℤ◌
round_trip = refl
