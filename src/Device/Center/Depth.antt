-- ===== src/Device/Center/Depth.antt =====
-- `rtlsdr_set_center_freq` calls itself through `_rtlsdr_set_direct_sampling` at most twice.
use rtl_sdr_blog.Common.{
  ==_iff, Bool, Bool-cases, ap, arith, false, if◌then◌else◌, inl, inr, leb, refl, sym, true, ℕ,
  ◌==◌, ◌^◌, ◌∙◌, ◌≡◌, ◌≢◌, ◌⊎◌,
}
use rtl_sdr_blog.State.{
  Dev, Host, M, Res, err, fault, get, modify, no_result, ok, when, ◌>>=◌, ◌>>◌,
}
use rtl_sdr_blog.Usb.{check_dongle_model}
use rtl_sdr_blog.Usb.Frame.{IsApart, Within, bind_res, bind_res_agree}
use rtl_sdr_blog.Device.Codes.{Code, attempt, is_zero, minus, or_code, return_code, zero_code}
use rtl_sdr_blog.Device.Doubles.{Doubles}
use rtl_sdr_blog.Device.Center.{
  Core, center_freq_then, direct_sampling_then, retune, set_center_freq, switch_calls,
  switch_sampling, tune, wants_direct,
}
use rtl_sdr_blog.Device.Center.Frame.{LeavesDevice, Stays-attempt, Stays-switch_calls, Stays-tune}

-- What the choice of the sampling mode reads, as it is in `d`.
abbrev SameKind : Dev → Dev → Type 0
SameKind d e =
    (e.direct_sampling_mode ≡ d.direct_sampling_mode)
    × (e.tuner_type ≡ d.tuner_type)
    × (e.manufact ≡ d.manufact)
    × (e.product ≡ d.product)

-- With the two fields that the switch reads and sets.
abbrev Same : (ds freq : ℕ) → Dev → Dev → Type 0
Same ds freq d e = SameKind d e × (e.direct_sampling ≡ ds) × (e.freq ≡ freq)

abbrev SameButMode : ℕ → Dev → Dev → Type 0
SameButMode freq d e = SameKind d e × (e.freq ≡ freq)

Same-IsApart : (ds freq : ℕ) (d : Dev) → IsApart (Same ds freq d)
Same-IsApart ds freq d = record { log = λ e t r p. p; r82xx = λ e q p. p; e4k = λ e k p. p }

SameButMode-IsApart : (freq : ℕ) (d : Dev) → IsApart (SameButMode freq d)
SameButMode-IsApart freq d = record { log = λ e t r p. p; r82xx = λ e q p. p; e4k = λ e k p. p }

wants_direct_same :
    (d e : Dev) (freq : ℕ) → SameKind d e → wants_direct e freq ≡ wants_direct d freq
unfolding wants_direct check_dongle_model
wants_direct_same d e freq (m, t, a, b) = rw (t, a, b) refl

module _ (host : Host) (doubles : Doubles) (core : Core) (leaves : LeavesDevice core) where
  -- Where the nested call is made: after the mode was chosen anew for `freq`, at `f`.
  abbrev Nested : Dev → ℕ → ℕ → Dev → Type 0
  Nested d freq f e =
      SameKind d e
      × (d.direct_sampling_mode ≡ 0)
      × (e.direct_sampling ≡ wants_direct d freq)
      × (d.direct_sampling ≢ wants_direct d freq)
      × ((f ≡ freq) ⊎ (f ≡ 0))

  Within-attempt :
      {B : Type 0} (P Q : Dev → Type 0) (m : M (Unit {0})) (k : Code → M B) (d : Dev)
      → Within P (m d)
      → ((c : Code) (e : Dev) → P e → Within Q (k c e))
      → Within Q ((attempt m >>= k) d)
  unfolding bind_res
  Within-attempt {B} P Q m k d h next = on_result (m d) h
    where
      on_result :
          (r : Res (Unit {0}))
          → Within P r
          → Within {A = B} Q (
              bind_res
                (elim r [ ok a e ↦ ok zero_code e | err n e ↦ ok (minus n) e | fault ↦ fault ])
                k)
      on_result (ok a e) p = next zero_code e p
      on_result (err n e) p = next (minus n) e p
      on_result fault p = tt

  Within-return_code : (Q : Dev → Type 0) (c : Code) (e : Dev) → Q e → Within Q (return_code c e)
  Within-return_code Q zero_code e q = q
  Within-return_code Q (minus n) e q = q

  abbrev Switched : ℕ → Dev → Dev → Type 0
  Switched on d e = SameButMode d.freq d e × (e.direct_sampling ≡ on)

  switch_sampling-Switched :
      (on : ℕ) (d : Dev) → Within (Switched on d) (switch_sampling host doubles core on d)
  unfolding switch_sampling modify
  switch_sampling-Switched on d =
      Within-attempt (SameButMode d.freq d) (Switched on d) (switch_calls host doubles core on) _ d
        ((Stays-switch_calls (SameButMode-IsApart d.freq d) host doubles core leaves on).run d
          ((refl, refl, refl, refl), refl))
        λ c e p. Within-return_code (Switched on d) c (record e { direct_sampling = on }) (p, refl)

  module _ (again again' : ℕ → M (Unit {0})) where
    -- Two ways to make the nested call that agree where the switch ends.
    direct_sampling_then_agree :
        (on : ℕ) (d : Dev)
        → ((e : Dev) → Switched on d e → again e.freq e ≡ again' e.freq e)
        → direct_sampling_then host doubles core again on d
          ≡ direct_sampling_then host doubles core again' on d
    unfolding direct_sampling_then bind_res get
    direct_sampling_then_agree on d h =
        bind_res_agree (Switched on d) (attempt (switch_sampling host doubles core on) d) _ _
          (attempted (switch_sampling host doubles core on d) (switch_sampling-Switched on d))
          λ r e q.
            ap (λ (x : Res (Unit {0})). bind_res (code_of x) (λ s. return_code (or_code r s)))
              (h e q)
      where
        code_of : Res (Unit {0}) → Res Code
        code_of x = elim x [ ok a e ↦ ok zero_code e | err n e ↦ ok (minus n) e | fault ↦ fault ]

        attempted :
            (x : Res (Unit {0})) → Within (Switched on d) x → Within (Switched on d) (code_of x)
        attempted (ok a e) q = q
        attempted (err n e) q = q
        attempted fault q = tt

    retune_agree :
        (last freq : ℕ) (r : Code) (d : Dev)
        → ((e : Dev)
            → last ≢ d.direct_sampling
            → Switched d.direct_sampling (record d { freq = if is_zero r then freq else 0 }) e
            → again e.freq e ≡ again' e.freq e)
        → retune host doubles core again last freq r d
          ≡ retune host doubles core again' last freq r d
    unfolding retune get modify
    retune_agree last freq r d h = elim (Bool-cases (last == d.direct_sampling)) [
      | inl same ↦ rw same refl
      | inr differ ↦ rw differ (
          direct_sampling_then_agree d.direct_sampling
            (record d { freq = if is_zero r then freq else 0 }) λ e q. h e (ground arith) q)
    ]

    -- The state in which the frequency is tuned, where the mode is chosen anew or not.
    abbrev chosen : Bool → ℕ → Dev → Dev
    chosen b freq d = elim b [
      | true ↦ record d { direct_sampling = wants_direct d freq }
      | false ↦ d
    ]

    tuned_agree :
        (b : Bool) (freq : ℕ) (d : Dev)
        → ((r : Code) (e : Dev)
            → Same (chosen b freq d).direct_sampling d.freq d e
            → retune host doubles core again d.direct_sampling freq r e
              ≡ retune host doubles core again' d.direct_sampling freq r e)
        → bind_res
            (attempt (tune host doubles core freq) (chosen b freq d))
            (retune host doubles core again d.direct_sampling freq)
          ≡ bind_res
              (attempt (tune host doubles core freq) (chosen b freq d))
              (retune host doubles core again' d.direct_sampling freq)
    tuned_agree b freq d h =
        bind_res_agree (Same (chosen b freq d).direct_sampling d.freq d)
          (attempt (tune host doubles core freq) (chosen b freq d)) _ _
          ((Stays-attempt (
              Stays-tune (Same-IsApart (chosen b freq d).direct_sampling d.freq d) host doubles core
                leaves freq)).run
            (chosen b freq d) (start b))
          h
      where
        start : (b : Bool) → Same (chosen b freq d).direct_sampling d.freq d (chosen b freq d)
        start true = ((refl, refl, refl, refl), refl, refl)
        start false = ((refl, refl, refl, refl), refl, refl)

    center_freq_then_agree :
        (freq : ℕ) (d : Dev)
        → ((f : ℕ) (e : Dev) → Nested d freq f e → again f e ≡ again' f e)
        → center_freq_then host doubles core again freq d
          ≡ center_freq_then host doubles core again' freq d
    unfolding center_freq_then get modify bind_res
    center_freq_then_agree freq d h = elim (Bool-cases (leb (2 ^ 31) d.direct_sampling)) [
      | inl negative ↦ rw negative refl
      | inr usual ↦ rw usual (by_mode (d.direct_sampling_mode == 0) refl)
    ]
      where
        both_ways : Bool → (ℕ → M (Unit {0})) → Res (Unit {0})
        both_ways b k =
            (when b (modify (λ e. record e { direct_sampling = wants_direct e freq }))
                >> (attempt (tune host doubles core freq) >>= λ r.
                    retune host doubles core k d.direct_sampling freq r))
              d

        either : (b : Bool) (f : ℕ) → f ≡ (if b then freq else 0) → (f ≡ freq) ⊎ (f ≡ 0)
        either true f e = inl e
        either false f e = inr e

        nested :
            (r : Code) (u v : Dev)
            → (d.direct_sampling_mode == 0) ≡ true
            → Same (wants_direct d freq) d.freq d u
            → d.direct_sampling ≢ u.direct_sampling
            → Switched u.direct_sampling (record u { freq = if is_zero r then freq else 0 }) v
            → Nested d freq v.freq v
        nested r u v e same differ q = (
          (q.0.0.0 ∙ same.0.0, q.0.0.1 ∙ same.0.1, q.0.0.2 ∙ same.0.2, q.0.0.3 ∙ same.0.3),
          (==_iff d.direct_sampling_mode 0).0 e,
          q.1 ∙ same.1,
          (λ k. differ (k ∙ sym same.1)),
          either (is_zero r) v.freq q.0.1,
        )

        by_mode :
            (b : Bool) → (d.direct_sampling_mode == 0) ≡ b → both_ways b again ≡ both_ways b again'
        by_mode true e = tuned_agree true freq d λ r u same.
            retune_agree d.direct_sampling freq r u
              λ v differ q. h v.freq v (nested r u v e same differ q)
        by_mode false e = tuned_agree false freq d λ r u same.
            retune_agree d.direct_sampling freq r u λ v differ q. absurd (differ (sym same.1))

  -- With the mode as the frequency wants it, there is no nested call.
  settled :
      (again again' : ℕ → M (Unit {0})) (freq : ℕ) (d : Dev)
      → d.direct_sampling ≡ wants_direct d freq
      → center_freq_then host doubles core again freq d
        ≡ center_freq_then host doubles core again' freq d
  settled again again' freq d e = center_freq_then_agree again again' freq d λ f u n. absurd (n.3 e)

  -- A nested call at the frequency that chose the mode.
  twice_settled :
      (again again' : ℕ → M (Unit {0})) (freq f : ℕ) (d e : Dev)
      → Nested d freq f e
      → f ≡ freq
      → center_freq_then host doubles core again f e ≡ center_freq_then host doubles core again' f e
  twice_settled again again' freq f d e n same =
      settled again again' f e
        (n.2 ∙ (sym (wants_direct_same d e freq n.0) ∙ ap (λ g. wants_direct e g) (sym same)))

  -- From frequency 0 a nested call is at 0 again.
  from_zero :
      (again again' : ℕ → M (Unit {0})) (d : Dev)
      → center_freq_then host doubles core (center_freq_then host doubles core again) 0 d
        ≡ center_freq_then host doubles core (center_freq_then host doubles core again') 0 d
  from_zero again again' d =
      center_freq_then_agree (center_freq_then host doubles core again)
        (center_freq_then host doubles core again') 0 d
        λ f u n. twice_settled again again' 0 f d u n (elim n.4 [ inl e ↦ e | inr e ↦ e ])

  -- For any host, any tuner whose functions leave the device record alone but for the log and the
  -- tuners' own records, any state and any frequency, the calls of `rtlsdr_set_center_freq`
  -- through `_rtlsdr_set_direct_sampling` nest three deep at most: what a call nested deeper would
  -- do makes no difference to the outcome.
  pub set_center_freq_deep :
      (again : ℕ → M (Unit {0})) (freq : ℕ) (d : Dev)
      → center_freq_then host doubles core
          (center_freq_then host doubles core (center_freq_then host doubles core again))
          freq
          d
        ≡ set_center_freq host doubles core freq d
  unfolding set_center_freq
  set_center_freq_deep again freq d =
      center_freq_then_agree
        (center_freq_then host doubles core (center_freq_then host doubles core again))
        (center_freq_then host doubles core (center_freq_then host doubles core λ f. no_result))
        freq d
        λ f u n. elim n.4 [
          | inl same ↦ twice_settled _ _ freq f d u n same
          | inr zeroed ↦ rw zeroed (from_zero again (λ f. no_result) u)
        ]
