-- ===== src/Fm/Thread/Hops.antt =====
-- When the thread of the demodulator asks for the next frequency.
use rtl_sdr_blog.Common.{
  Bool, Bool-cases, List, Option, [], ap, arith, false, if◌then◌else◌, inl, inr, ltb, none, refl,
  some, true, ℕ, ◌+◌, ◌<◌, ◌∷◌, ◌≡◌, ◌≤◌, ◌⊎◌,
}
use rtl_sdr_blog.Common.Int.{ℤ}
use rtl_sdr_blog.Common.Cint.{is_null, ◌>>=◌}
use rtl_sdr_blog.Fm.Filter.{Iq}
use rtl_sdr_blog.Fm.Demod.{Float}
use rtl_sdr_blog.Fm.Thread.{
  Back, DemodState, Front, Round, Settings, demod_round, demodulated, ends, full_demod, hop,
  is_quiet, is_raw, narrowed, put_out, smoothed, squelch,
}

abbrev pub is_hop : Round → Bool
is_hop hop = true
is_hop (put_out result) = false

module _ (float : Float) (atan_lut : List ℤ) (level : ℤ → ℤ → ℕ → ℤ) (c : Settings) where
  -- The rounds of the thread from a state to another: for each, whether the filtered samples were
  -- quiet, and whether it asked for a hop.
  pub data Rounds : DemodState → List Bool → List Bool → DemodState → Type 0 where
    stay : {d : DemodState} → Rounds d [] [] d
    round :
        {d next e : DemodState}
        → {low : Front} → {r : Round} → {quiets hops : List Bool} → (lowpassed narrow : List Iq)
        → narrowed c d.front lowpassed ≡ some (low, narrow)
        → demod_round float atan_lut level c d lowpassed ≡ some (next, r)
        → Rounds next quiets hops e
        → Rounds d (is_quiet level c narrow ∷ quiets) (is_hop r ∷ hops) e

-- The quiet buffers in a row, with no limit,
abbrev pub in_row : ℕ → Bool → ℕ
in_row n true = n + 1
in_row n false = 0

-- and whether they are more than `conseq_squelch` after each buffer.
abbrev pub unlimited : ℕ → ℕ → List Bool → List Bool
unlimited conseq_squelch n [] = []
unlimited conseq_squelch n (quiet ∷ quiets) =
    ltb conseq_squelch (in_row n quiet) ∷ unlimited conseq_squelch (in_row n quiet) quiets

module _ (float : Float) (atan_lut : List ℤ) (level : ℤ → ℤ → ℕ → ℤ) (c : Settings)
    (squelched : is_null c.squelch_level ≡ false) where
  squelch-in_row :
      (hits : ℕ) (low : List Iq) → (squelch level c hits low).0 ≡ in_row hits (is_quiet level c low)
  unfolding squelch
  squelch-in_row hits low = elim (Bool-cases (is_quiet level c low)) [
    | inl quiet ↦ rw (squelched, quiet) refl
    | inr loud ↦ rw (squelched, loud) refl
  ]

  -- What a round leaves of a state whose quiet buffers in a row are then `n`.
  abbrev IsEnd : ℕ → DemodState → Round → Type 0
  IsEnd n next r =
      (is_hop r ≡ ltb c.conseq_squelch n)
      × (next.squelch_hits ≡ (if ltb c.conseq_squelch n then c.conseq_squelch + 1 else n))

  ends-IsEnd :
      (d : DemodState) (result : List ℤ)
      → IsEnd d.squelch_hits
          (ends float atan_lut level c d result).0
          (ends float atan_lut level c d result).1
  ends-IsEnd d result = elim (Bool-cases (ltb c.conseq_squelch d.squelch_hits)) [
    | inl more ↦ rw (squelched, more) (refl, refl)
    | inr few ↦ rw (squelched, few) (refl, refl)
  ]

  -- The end of a round, from the result that is still to be filtered, and from what is put out.
  abbrev built : ℕ → Front → Iq → Back × List ℤ → DemodState × List ℤ
  built hits low pre fine =
      (record { front = low; squelch_hits = hits; pre = pre; back = fine.0 }, fine.1)

  abbrev ended : Option (DemodState × List ℤ) → Option (DemodState × Round)
  ended demod = demod >>= λ out. some (ends float atan_lut level c out.0 out.1)

  fine-IsEnd :
      {next : DemodState}
      → {r : Round} → (hits : ℕ) (low : Front) (pre : Iq) (fine : Option (Back × List ℤ))
      → ended (fine >>= λ f. some (built hits low pre f)) ≡ some (next, r)
      → IsEnd hits next r
  fine-IsEnd hits low pre none h = absurd (cc h)
  fine-IsEnd {next = next} {r = r} hits low pre (some f) h =
      ends_at (record { front = low; squelch_hits = hits; pre = pre; back = f.0 }) f.1 (cc h)
    where
      ends_at :
          (d : DemodState) (result : List ℤ)
          → Path (DemodState × Round) (ends float atan_lut level c d result) (next, r)
          → IsEnd d.squelch_hits next r
      ends_at d result same = (
        cc ((ends-IsEnd d result).0, ap (λ s. is_hop s.1) same),
        cc ((ends-IsEnd d result).1, ap (λ s. s.0.squelch_hits) same),
      )

  out-IsEnd :
      {next : DemodState}
      → {r : Round} → (hits : ℕ) (low : Front) (out : Option (Iq × List ℤ))
      → (fine : Iq × List ℤ → Option (Back × List ℤ))
      → ended (out >>= λ o. (fine o >>= λ f. some (built hits low o.0 f))) ≡ some (next, r)
      → IsEnd hits next r
  out-IsEnd hits low none fine h = absurd (cc h)
  out-IsEnd hits low (some o) fine h = fine-IsEnd hits low o.0 (fine o) h

  demod_round-IsEnd :
      (d : DemodState) {next : DemodState}
      → {low : Front} → {r : Round} → (lowpassed narrow : List Iq)
      → narrowed c d.front lowpassed ≡ some (low, narrow)
      → demod_round float atan_lut level c d lowpassed ≡ some (next, r)
      → IsEnd (in_row d.squelch_hits (is_quiet level c narrow)) next r
  unfolding demod_round full_demod
  demod_round-IsEnd d {low = low} lowpassed narrow at_low =
      rw (at_low, ← squelch-in_row d.squelch_hits narrow)
        (out-IsEnd (squelch level c d.squelch_hits narrow).0 low
          (demodulated float atan_lut level c.mode_demod c d.pre
            (squelch level c d.squelch_hits narrow).1)
          (λ out. if is_raw c.mode_demod then some (d.back, out.1) else smoothed c d.back out.1))

  -- The thread's count, which stops one above the limit, and one without a limit.
  abbrev Agree : ℕ → ℕ → Type 0
  Agree hits n = (hits ≡ n) ⊎ ((c.conseq_squelch < hits) × (c.conseq_squelch < n))

  Agree-in_row :
      (hits n : ℕ) (quiet : Bool) → Agree hits n → Agree (in_row hits quiet) (in_row n quiet)
  Agree-in_row hits n true (inl same) = inl (omega (arith, same))
  Agree-in_row hits n true (inr both) = inr (omega (arith, both.0), omega (arith, both.1))
  Agree-in_row hits n false h = inl refl

  Agree-limited :
      (hits m n : ℕ)
      → hits ≡ (if ltb c.conseq_squelch m then c.conseq_squelch + 1 else m)
      → Agree m n
      → (ltb c.conseq_squelch m ≡ ltb c.conseq_squelch n)
        × Agree hits n
        × (hits ≤ c.conseq_squelch + 1)
  Agree-limited hits m n h (inl same) = ground arith
  Agree-limited hits m n h (inr both) = ground arith

  Rounds-unlimited_from :
      (n : ℕ) {d e : DemodState} {quiets hops : List Bool}
      → Rounds float atan_lut level c d quiets hops e
      → Agree d.squelch_hits n
      → d.squelch_hits ≤ c.conseq_squelch + 1
      → (hops ≡ unlimited c.conseq_squelch n quiets) × (e.squelch_hits ≤ c.conseq_squelch + 1)
  Rounds-unlimited_from n stay agree low = (refl, low)
  Rounds-unlimited_from n (round {d = d} {next = next} lowpassed narrow at_low at_end rest) agree
        low =
      let quiet = is_quiet level c narrow in
      let end = demod_round-IsEnd d lowpassed narrow at_low at_end in
      let limited =
        Agree-limited next.squelch_hits (in_row d.squelch_hits quiet) (in_row n quiet) end.1
          (Agree-in_row d.squelch_hits n quiet agree) in
      let later = Rounds-unlimited_from (in_row n quiet) rest limited.1 limited.2 in
      (cc (end.0, limited.0, later.0), later.1)

  -- With a squelch level, over any rounds of the thread of the demodulator from a state whose
  -- count is at most one above `conseq_squelch`, the thread asks for a hop after exactly those
  -- buffers with which the quiet ones in a row, counted on from that state with no limit, are more
  -- than `conseq_squelch`, though its own count is set back at each hop; that count never gets
  -- further than one above `conseq_squelch`.
  pub Rounds-unlimited :
      (d e : DemodState) (quiets hops : List Bool)
      → Rounds float atan_lut level c d quiets hops e
      → d.squelch_hits ≤ c.conseq_squelch + 1
      → (hops ≡ unlimited c.conseq_squelch d.squelch_hits quiets)
        × (e.squelch_hits ≤ c.conseq_squelch + 1)
  Rounds-unlimited d e quiets hops rounds low =
      Rounds-unlimited_from d.squelch_hits rounds (inl refl) low
