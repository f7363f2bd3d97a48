-- ===== src/Convenience/Tests.antt =====
-- The nearest gain of the R820T to 13 dB.
use rtl_sdr_blog.Common.{List, [], arith, some, ◌∷◌, ◌≡◌}
use rtl_sdr_blog.Common.Int.{pos, ℤ, ◌-ℤ◌}
use rtl_sdr_blog.Convenience.Nearest.{IsIn, IsNearest, nearest_of-IsNearest}
use rtl_sdr_blog.Convenience.Search.{nearest_of}

-- The gains of the list that come after the first one.
abbrev later_gains : List ℤ
later_gains = pos 9 ∷ pos 14 ∷ pos 27 ∷ pos 125 ∷ pos 144 ∷ []

nearest_of-IsNearest_example :
    (gain : ℤ) × (nearest_of (pos 130) (pos 0 ∷ later_gains) ≡ some gain)
    × IsIn gain (pos 0 ∷ later_gains)
    × IsNearest (pos 130) gain (pos 0 ∷ later_gains)
unfolding ◌-ℤ◌
nearest_of-IsNearest_example =
    nearest_of-IsNearest (pos 130) (pos 0) later_gains
      (omega arith, (omega arith, (omega arith, (omega arith, (omega arith, (omega arith, tt))))))
