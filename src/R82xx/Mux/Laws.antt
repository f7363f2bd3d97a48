-- ===== src/R82xx/Mux/Laws.antt =====
-- The range that `r82xx_set_mux` chooses is the one that the frequency falls in.
use rtl_sdr_blog.Common.{
  Bool, List, [], arith, false, if◌then◌else◌, inl, inr, ltb, ltb→lt, refl, true, ℕ, ◌<◌, ◌∷◌, ◌≡◌,
  ◌≤◌, ◌⊎◌,
}
use rtl_sdr_blog.R82xx.Tables.{FreqRange, first_range, freq_ranges, later_ranges}
use rtl_sdr_blog.R82xx.Mux.{pick, pick_range}

abbrev Ascending : FreqRange → List FreqRange → Type 0
Ascending r [] = Unit {0}
Ascending r (s ∷ rest) = (r.freq < s.freq) × Ascending s rest

-- Each range of the list begins at `q` at the latest, or above `freq`.
abbrev pub Outside : FreqRange → ℕ → List FreqRange → Type 0
Outside q freq [] = Unit {0}
Outside q freq (s ∷ rest) = ((s.freq ≤ q.freq) ⊎ (freq < s.freq)) × Outside q freq rest

above :
    (q s : FreqRange) (freq : ℕ) (rest : List FreqRange)
    → freq < s.freq
    → Ascending s rest
    → Outside q freq rest
above q s freq [] h up = tt
above q s freq (t ∷ rest) h up = (inr (omega arith), above q t freq rest (omega arith) up.1)

-- `q` is a range for `freq`, at `r` or after it.
abbrev Chosen : FreqRange → FreqRange → ℕ → List FreqRange → Type 0
Chosen q r freq rest = (q.freq ≤ freq) × (r.freq ≤ q.freq) × Outside q freq rest

pick-Chosen :
    (r : FreqRange) (rest : List FreqRange) (freq : ℕ)
    → r.freq ≤ freq
    → Ascending r rest
    → Chosen (pick r rest freq) r freq rest
unfolding pick
pick-Chosen r [] freq h up = (h, omega arith, tt)
pick-Chosen r (s ∷ rest) freq h up =
    by_test (ltb freq s.freq) refl (λ k. pick-Chosen s rest freq k up.1)
  where
    next : (q : FreqRange) → Chosen q s freq rest → Chosen q r freq (s ∷ rest)
    next q (a, b, c) = (a, omega arith, (inl b, c))

    by_test :
        (b : Bool)
        → ltb freq s.freq ≡ b
        → (s.freq ≤ freq → Chosen (pick s rest freq) s freq rest)
        → Chosen (if b then r else pick s rest freq) r freq (s ∷ rest)
    by_test true e later = (
      h,
      omega arith,
      (inr (ltb→lt freq s.freq e), above r s freq rest (ltb→lt freq s.freq e) up.1),
    )
    by_test false e later = next (pick s rest freq) (later (ground arith))

-- For any frequency the range that is chosen begins at the frequency or below, and each range of
-- the table begins at the chosen one at the latest, or above the frequency.
pub pick_range-Outside :
    (freq : ℕ) → ((pick_range freq).freq ≤ freq) × Outside (pick_range freq) freq freq_ranges
unfolding pick_range
pick_range-Outside freq =
    whole (pick first_range later_ranges freq)
      (pick-Chosen first_range later_ranges freq (omega arith) (omega arith))
  where
    whole :
        (q : FreqRange)
        → Chosen q first_range freq later_ranges
        → (q.freq ≤ freq) × Outside q freq (first_range ∷ later_ranges)
    whole q (a, b, c) = (a, (inl b, c))
