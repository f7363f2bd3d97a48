-- ===== src/E4k/Gain/Reach.antt =====
-- Which gains the E4000 takes, against those that `rtlsdr_get_tuner_gains` gives for it.
use rtl_sdr_blog.Common.{
  Bool, Bool-cases, List, Option, Option-cases, [], ap, arith, bit_and, false, if◌then◌else◌, inl,
  inr, ltb, ltb→lt, none, not, refl, set, some, suc, true, zero, ℕ, ◌+◌, ◌<◌, ◌==◌, ◌^◌, ◌||◌, ◌∙◌,
  ◌∷◌, ◌≡◌, ◌≤◌,
}
use rtl_sdr_blog.Common.Bits.{all_below, all_below_lem}
use rtl_sdr_blog.Common.Int.{ltb_ℤ, neg_part, negsuc, pos, pos_part, same_ℤ, ℤ, ◌*ℤ◌, ◌-ℤ◌}
use rtl_sdr_blog.Common.Cint.{int32}
use rtl_sdr_blog.State.{
  Dev, Host, M, Reply, Res, Transfer, done, err, fail, failed, fault, get, ignore, ok, or_value,
  pure, when, ◌>>=◌, ◌>>◌,
}
use rtl_sdr_blog.Device.Doubles.{Doubles}
use rtl_sdr_blog.Device.Gains.{e4k_gains}
use rtl_sdr_blog.E4k.Gain.{find_lna, lnagain, minus_einval, mixer_gain_set, set_lna_gain}
use rtl_sdr_blog.E4k.Iface.{e4000_set_gain, min_ℤ, mixgain_for}
use rtl_sdr_blog.Usb.{
  byte_or, i2c_read, i2c_write, in_transfer, out_transfer, read_array, status, transfer,
  write_array,
}
use rtl_sdr_blog.Usb.Frame.{bind_res}
use rtl_sdr_blog.Device.Codes.{Code, attempt, minus, zero_code}
use rtl_sdr_blog.E4k.Reg.{gain1, gain2}
use rtl_sdr_blog.E4k.{masked, one_or_fail, reg_read, reg_set_mask, reg_write, two_or_fail}
use rtl_sdr_blog.Usb.Laws.{logged}
use rtl_sdr_blog.R82xx.Chip.{i2c_out}

abbrev pub is_listed : List ℤ → ℤ → Bool
is_listed [] gain = false
is_listed (g ∷ gains) gain = same_ℤ g gain || is_listed gains gain

-- The gains of the list, 37 dB, and what is 42 dB or more.
abbrev pub is_taken : ℤ → Bool
is_taken gain = is_listed e4k_gains gain || same_ℤ (pos 370) gain || not (ltb_ℤ gain (pos 420))

-- The gain that is left to the LNA.
abbrev lna_gain : ℤ → ℤ
lna_gain gain = min_ℤ (pos 300) (gain -ℤ mixgain_for gain *ℤ pos 10)

lna-fits :
    (gain : ℤ)
    → pos_part gain < 2 ^ 31
    → neg_part gain + 40 ≤ 2 ^ 31
    → int32 (gain -ℤ mixgain_for gain *ℤ pos 10) ≡ some (gain -ℤ mixgain_for gain *ℤ pos 10)
unfolding ◌-ℤ◌ ◌*ℤ◌
lna-fits (pos n) high low = ground arith
lna-fits (negsuc n) high low = ground arith

lna_gain_top : (n : ℕ) → 420 ≤ n → lna_gain (pos n) ≡ pos 300
unfolding ◌-ℤ◌ ◌*ℤ◌
lna_gain_top n h = ground arith

is_taken_top : (n : ℕ) → 420 ≤ n → is_taken (pos n) ≡ true
is_taken_top n h = ground arith

lna_gain_negative : (n : ℕ) → lna_gain (negsuc n) ≡ negsuc (n + 40)
unfolding ◌-ℤ◌ ◌*ℤ◌
lna_gain_negative n = ground arith

-- What the search gives, and whether the gain is taken.
abbrev agreement : Option ℕ → Bool → Bool
agreement none b = not b
agreement (some bits) b = b

agrees_below :
    all_below 420 (λ n. agreement (find_lna lnagain (lna_gain (pos n))) (is_taken (pos n))) ≡ true
unfolding all_below find_lna ◌-ℤ◌ ◌*ℤ◌
agrees_below = refl

agrees_above :
    (n : ℕ) → 420 ≤ n → agreement (find_lna lnagain (lna_gain (pos n))) (is_taken (pos n)) ≡ true
unfolding find_lna
agrees_above n h = rw (lna_gain_top n h, is_taken_top n h) refl

agrees_negative :
    (n : ℕ) → agreement (find_lna lnagain (lna_gain (negsuc n))) (is_taken (negsuc n)) ≡ true
unfolding find_lna
agrees_negative n = rw (lna_gain_negative n) (ground arith)

is_taken-find_lna : (gain : ℤ) → agreement (find_lna lnagain (lna_gain gain)) (is_taken gain) ≡ true
is_taken-find_lna (negsuc n) = agrees_negative n
is_taken-find_lna (pos n) = elim (Bool-cases (ltb n 420)) [
  | inl below ↦
      all_below_lem 420 (λ n. agreement (find_lna lnagain (lna_gain (pos n))) (is_taken (pos n))) n
        agrees_below (ltb→lt _ _ below)
  | inr above ↦ agrees_above n (ground arith)
]

-- The call returns, and its only error is -1.
abbrev Plain : {A : Type 0} → Res A → Type 0
Plain (ok a e) = Unit
Plain (err n e) = n ≡ 0
Plain fault = ⊥

Plain-bind :
    {A B : Type 0} (r : Res A) (f : A → M B)
    → Plain r
    → ((a : A) (e : Dev) → Plain (f a e))
    → Plain (bind_res r f)
unfolding bind_res
Plain-bind (ok a e) f p q = q a e
Plain-bind (err n e) f p q = p
Plain-bind fault f p q = p

two_or_fail-Plain : (r : Reply) (d : Dev) → Plain (two_or_fail (status r) d)
two_or_fail-Plain (failed n) d = refl
two_or_fail-Plain (done n f) d = elim (Bool-cases (n == 2)) [
  | inl both ↦ rw both tt
  | inr short ↦ rw short refl
]

one_or_fail-Plain : (r : Reply) (d e : Dev) → Plain (one_or_fail (λ e. status r d) e)
one_or_fail-Plain (failed n) d e = refl
one_or_fail-Plain (done zero f) d e = refl
one_or_fail-Plain (done (suc n) f) d e = rw some_byte tt
  where
    some_byte : (suc n == 0) ≡ false
    some_byte = ground arith

or_value-Plain :
    (r : Res ℕ) (f : ℕ → M (Unit {0})) (d : Dev)
    → Plain r
    → ((a : ℕ) (e : Dev) → Plain (f a e))
    → Plain ((or_value 255 (λ e. r) >>= f) d)
or_value-Plain (ok a e) f d p q = q a e
or_value-Plain (err n e) f d p q = q 255 e
or_value-Plain fault f d p q = p

refute : false ≡ true → ⊥
refute h = cc

ignored_ends : (r : Res (Unit {0})) (d : Dev) → Plain r → (e : Dev) × (ignore (λ e. r) d ≡ ok tt e)
ignored_ends (ok a e) d p = (e, refl)
ignored_ends (err n e) d p = (e, refl)
ignored_ends fault d p = absurd p

-- Only -EINVAL of the mixer is an error.
abbrev unless_einval : Code → M (Unit {0})
unless_einval c = elim c [ zero_code ↦ pure tt | minus n ↦ when (n == 21) (fail 0) ]

mixer_passes :
    (r : Res (Unit {0})) (d : Dev)
    → Plain r
    → (e : Dev) × ((attempt (λ e. r) >>= unless_einval) d ≡ ok tt e)
mixer_passes (ok a e) d p = (e, refl)
mixer_passes (err n e) d p = (e, rw p refl)
mixer_passes fault d p = absurd p

find_lna-ne :
    (gain : ℤ) (bits : ℕ) → find_lna lnagain gain ≡ some bits → same_ℤ gain minus_einval ≡ false
unfolding find_lna
find_lna-ne (pos n) bits h = refl
find_lna-ne (negsuc n) bits h = ground arith

module _ (host : Host) where
  reg_write-Plain : (reg val : ℕ) (d : Dev) → Plain (reg_write host reg val d)
  unfolding reg_write get i2c_write write_array transfer
  reg_write-Plain reg val d =
      two_or_fail-Plain (host.answer d.log t) (logged t (host.answer d.log t) d)
    where
      t : Transfer
      t = out_transfer d.e4k.i2c_addr i2c_out (reg ∷ val ∷ [])

  reg_read-Plain : (reg : ℕ) (d : Dev) → Plain (reg_read host reg d)
  unfolding reg_read get i2c_write i2c_read write_array read_array transfer bind_res
  reg_read-Plain reg d =
      Plain-bind (one_or_fail (λ e. status (host.answer d.log t) named) d)
        (λ u.
          i2c_read host d.e4k.i2c_addr 1 >>= λ r. one_or_fail (status r) >> pure (byte_or r 0 reg))
        (one_or_fail-Plain (host.answer d.log t) named d)
        λ u e.
          Plain-bind
            (one_or_fail (status (host.answer e.log (in_transfer d.e4k.i2c_addr 0x600 1))) (
              logged (in_transfer d.e4k.i2c_addr 0x600 1)
                (host.answer e.log (in_transfer d.e4k.i2c_addr 0x600 1)) e))
            (λ u. pure (byte_or (host.answer e.log (in_transfer d.e4k.i2c_addr 0x600 1)) 0 reg))
            (one_or_fail-Plain (host.answer e.log (in_transfer d.e4k.i2c_addr 0x600 1))
              (logged (in_transfer d.e4k.i2c_addr 0x600 1)
                (host.answer e.log (in_transfer d.e4k.i2c_addr 0x600 1)) e)
              e)
            λ u e'. tt
    where
      t : Transfer
      t = out_transfer d.e4k.i2c_addr i2c_out (reg ∷ [])

      named : Dev
      named = logged t (host.answer d.log t) d

  reg_set_mask-Plain : (reg mask val : ℕ) (d : Dev) → Plain (reg_set_mask host reg mask val d)
  unfolding reg_set_mask
  reg_set_mask-Plain reg mask val d =
      or_value-Plain (reg_read host reg d)
        (λ tmp.
          if bit_and tmp mask == val then pure tt else reg_write host reg (masked tmp mask val))
        d (reg_read-Plain reg d)
        λ tmp e. elim (Bool-cases (bit_and tmp mask == val)) [
          | inl same ↦ rw same tt
          | inr other ↦ rw other (reg_write-Plain reg (masked tmp mask val) e)
        ]

  mixer_gain_set-Plain : (gain : ℤ) (d : Dev) → Plain (mixer_gain_set host (mixgain_for gain) d)
  unfolding mixer_gain_set
  mixer_gain_set-Plain gain d = elim (Bool-cases (ltb_ℤ (pos 340) gain)) [
    | inl high ↦ rw high (reg_set_mask-Plain gain2 1 1 d)
    | inr low ↦ rw low (reg_set_mask-Plain gain2 1 0 d)
  ]

  -- What is left of setting the gain once the LNA took its part.
  abbrev after_lna : ℤ → ℤ → M (Unit {0})
  after_lna gain set =
      when (same_ℤ set minus_einval) (fail 0)
      >> (attempt (mixer_gain_set host (mixgain_for gain)) >>= unless_einval)

  abbrev set_by : Option ℕ → ℤ → M ℤ
  set_by o gain = elim o [
    | none ↦ pure minus_einval
    | some bits ↦ ignore (reg_set_mask host gain1 0xf bits) >> pure gain
  ]

  mixer_ends :
      (gain : ℤ) (d : Dev)
      → (e : Dev) × ((attempt (mixer_gain_set host (mixgain_for gain)) >>= unless_einval) d
          ≡ ok tt e)
  mixer_ends gain d =
      mixer_passes (mixer_gain_set host (mixgain_for gain) d) d (mixer_gain_set-Plain gain d)

  module _ (doubles : Doubles) where
    -- For any gain that is an `int` and at least -(2^31 - 40), whatever the transfers come to,
    -- setting the gain of an E4000 returns no error where `rtlsdr_get_tuner_gains` lists it for
    -- the E4000, where it is 37 dB, and where it is 42 dB or more; otherwise it returns -1 without
    -- a transfer and leaves the device as it was.
    pub e4000_set_gain-is_taken :
        (gain : ℤ) (d : Dev)
        → pos_part gain < 2 ^ 31
        → neg_part gain + 40 ≤ 2 ^ 31
        → (is_taken gain ≡ true → (e : Dev) × (e4000_set_gain doubles host gain d ≡ ok tt e))
          × (is_taken gain ≡ false → e4000_set_gain doubles host gain d ≡ err 0 d)
    unfolding e4000_set_gain set_lna_gain
    e4000_set_gain-is_taken gain d high low =
        rw (lna-fits gain high low) (elim (Option-cases (find_lna lnagain (lna_gain gain))) [
          | inl missing ↦ (
            λ accepted. absurd (both missing accepted),
            λ refused. ap (λ o. (set_by o (lna_gain gain) >>= after_lna gain) d) missing,
          )
          | inr (bits, found) ↦ (
            λ accepted. (
              (mixer_ends gain (lna bits).0).0,
              ap (λ o. (set_by o (lna_gain gain) >>= after_lna gain) d) found
                  ∙ (ap
                        (λ (r : Res (Unit {0})).
                          (((λ e. r) >> pure (lna_gain gain)) >>= after_lna gain) d)
                        (lna bits).1
                      ∙ (ap
                            (λ b.
                              (when b (fail 0)
                                  >> (attempt (mixer_gain_set host (mixgain_for gain))
                                      >>= unless_einval))
                                (lna bits).0)
                            (find_lna-ne (lna_gain gain) bits found)
                          ∙ (mixer_ends gain (lna bits).0).1)),
            ),
            λ refused. absurd (neither bits found refused),
          )
        ])
      where
        both : find_lna lnagain (lna_gain gain) ≡ none → is_taken gain ≡ true → ⊥
        both missing accepted = refute (rw (missing, accepted) at (is_taken-find_lna gain))

        neither :
            (bits : ℕ) → find_lna lnagain (lna_gain gain) ≡ some bits → is_taken gain ≡ false → ⊥
        neither bits found refused = refute (rw (found, refused) at (is_taken-find_lna gain))

        lna : (bits : ℕ) → (e : Dev) × (ignore (reg_set_mask host gain1 0xf bits) d ≡ ok tt e)
        lna bits =
            ignored_ends (reg_set_mask host gain1 0xf bits d) d
              (reg_set_mask-Plain gain1 0xf bits d)
