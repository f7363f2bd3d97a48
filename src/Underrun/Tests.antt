-- ===== src/Underrun/Tests.antt =====
-- Streams of the test mode.
use rtl_sdr_blog.Common.{List, [], arith, none, refl, some, ◌∷◌, ◌≡◌, ℕ}
use rtl_sdr_blog.Underrun.{Counts, count_lost, underrun_test, underrun_tests}
use rtl_sdr_blog.Underrun.Counting.{IsCounting, stream, underrun_tests-IsCounting}

abbrev fresh_counts : Counts
fresh_counts = record { bcnt = none; total_samples = 0; dropped_samples = 0 }

abbrev wrapping : List (List ℕ)
wrapping = (254 ∷ 255 ∷ []) ∷ (0 ∷ 1 ∷ 2 ∷ []) ∷ []

-- From 1 to 4 two bytes are lost.
two_lost :
    underrun_tests fresh_counts ((0 ∷ 1 ∷ []) ∷ (4 ∷ 5 ∷ []) ∷ [])
    ≡ some (record { bcnt = some 6; total_samples = 4; dropped_samples = 2 })
unfolding underrun_tests underrun_test count_lost
two_lost = refl

underrun_tests-IsCounting_example :
    (end : Counts) × (underrun_tests fresh_counts wrapping ≡ some end)
    × (end.dropped_samples ≡ 0 → IsCounting 254 (stream wrapping))
    × (IsCounting 254 (stream wrapping) → end.dropped_samples ≡ 0)
underrun_tests-IsCounting_example =
    underrun_tests-IsCounting 254 (255 ∷ []) ((0 ∷ 1 ∷ 2 ∷ []) ∷ [])
      ((omega arith, (omega arith, tt)), ((omega arith, (omega arith, (omega arith, tt))), tt))
      (omega arith)
