-- ===== src/Convenience/Nearest.antt =====
-- `nearest_gain` finds a gain of the list, and none is nearer.
use rtl_sdr_blog.Common.{
  Bool, Bool-cases, List, Option, [], arith, false, if◌then◌else◌, inl, inr, ltb, none, refl, some,
  true, ℕ, ◌<◌, ◌^◌, ◌∷◌, ◌≡◌, ◌≤◌, ◌⊎◌,
}
use rtl_sdr_blog.Common.Int.{ℤ, ◌-ℤ◌}
use rtl_sdr_blog.Common.Cint.{magnitude}
use rtl_sdr_blog.Convenience.Search.{distance, nearest_from, nearest_of}

abbrev pub IsIn : ℤ → List ℤ → Type 0
IsIn a [] = ⊥
IsIn a (g ∷ gains) = (a ≡ g) ⊎ IsIn a gains

-- How far a gain is from the target.
abbrev pub gap : ℤ → ℤ → ℕ
gap target g = magnitude (target -ℤ g)

-- No difference to the target overflows an `int`.
abbrev pub Fits : ℤ → List ℤ → Type 0
Fits target [] = Unit
Fits target (g ∷ gains) = (gap target g < 2 ^ 31) × Fits target gains

-- No entry is nearer to the target.
abbrev pub IsNearest : ℤ → ℤ → List ℤ → Type 0
IsNearest target a [] = Unit
IsNearest target a (g ∷ gains) = (gap target a ≤ gap target g) × IsNearest target a gains

-- The loop's result is the start or an entry, and at least as near as the start and each entry.
record Found (target start : ℤ) (gains : List ℤ) (o : Option ℤ) : Type 0 where
  gain : ℤ
  found : o ≡ some gain
  from : (gain ≡ start) ⊎ IsIn gain gains
  near : gap target gain ≤ gap target start
  all : IsNearest target gain gains

distance_fits : (target g : ℤ) → gap target g < 2 ^ 31 → distance target g ≡ some (gap target g)
distance_fits target g h = by_test (ltb (gap target g) (2 ^ 31)) (ground arith)
  where
    by_test :
        (b : Bool) → b ≡ true → (if b then some (gap target g) else none) ≡ some (gap target g)
    by_test true e = refl
    by_test false e = absurd (cc e)

nearest_from-Found :
    (target start : ℤ) (gains : List ℤ)
    → gap target start < 2 ^ 31
    → Fits target gains
    → Found target start gains (nearest_from target start gains)
unfolding nearest_from
nearest_from-Found target start [] small fits = record {
  gain = start;
  found = refl;
  from = inl refl;
  near = omega arith;
  all = tt;
}
nearest_from-Found target start (g ∷ gains) small fits =
    rw (distance_fits target start small, distance_fits target g fits.0)
      (elim (Bool-cases (ltb (gap target g) (gap target start))) [
        | inl nearer ↦
            rw nearer (taken (ground arith) (nearest_from-Found target g gains fits.0 fits.1))
        | inr further ↦
            rw further (kept (ground arith) (nearest_from-Found target start gains small fits.1))
      ])
  where
    taken :
        {o : Option ℤ}
        → gap target g < gap target start
        → Found target g gains o
        → Found target start (g ∷ gains) o
    taken less f = record {
      gain = f.gain;
      found = f.found;
      from = inr f.from;
      near = omega (arith, less, f.near);
      all = (f.near, f.all);
    }

    kept :
        {o : Option ℤ}
        → gap target start ≤ gap target g
        → Found target start gains o
        → Found target start (g ∷ gains) o
    kept more f = record {
      gain = f.gain;
      found = f.found;
      from = elim f.from [ inl e ↦ inl e | inr k ↦ inr (inr k) ];
      near = f.near;
      all = (omega (arith, more, f.near), f.all);
    }

-- For any list of gains that is not empty, and any target of which no difference to a gain of the
-- list overflows an `int`, the search of `nearest_gain` ends in defined behaviour with a gain of
-- the list, and no gain of the list is nearer to the target.
pub nearest_of-IsNearest :
    (target first : ℤ) (gains : List ℤ)
    → Fits target (first ∷ gains)
    → (gain : ℤ) × (nearest_of target (first ∷ gains) ≡ some gain)
      × IsIn gain (first ∷ gains)
      × IsNearest target gain (first ∷ gains)
unfolding nearest_of
nearest_of-IsNearest target first gains fits =
    let f = nearest_from-Found target first (first ∷ gains) fits.0 fits in
    (f.gain, f.found, elim f.from [ inl e ↦ inl e | inr k ↦ k ], f.all)
