-- ===== src/Convenience/Search.antt =====
-- The search of `nearest_gain` in src/convenience/convenience.c.
use rtl_sdr_blog.Common.{List, Option, [], if◌then◌else◌, ltb, none, some, ℕ, ◌^◌, ◌∷◌}
use rtl_sdr_blog.Common.Int.{pos, ℤ, ◌-ℤ◌}
use rtl_sdr_blog.Common.Cint.{magnitude, ◌>>=◌}

-- `abs(a - b)`; `none` where that is not an `int`.
abbrev pub distance : ℤ → ℤ → Option ℕ
distance a b = if ltb (magnitude (a -ℤ b)) (2 ^ 31) then some (magnitude (a -ℤ b)) else none

-- The loop: a gain that is nearer than the nearest one so far replaces it.
unfoldable pub nearest_from : ℤ → ℤ → List ℤ → Option ℤ
nearest_from target_gain nearest [] = some nearest
nearest_from target_gain nearest (g ∷ gains) = do
  err1 ← distance target_gain nearest
  err2 ← distance target_gain g
  nearest_from target_gain (if ltb err2 err1 then g else nearest) gains

-- The error is 0 where there are no gains.
unfoldable pub nearest_of : ℤ → List ℤ → Option ℤ
nearest_of target_gain [] = some (pos 0)
nearest_of target_gain (g ∷ gains) = nearest_from target_gain g (g ∷ gains)
