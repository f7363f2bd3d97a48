-- ===== src/E4k/Field.antt =====
-- Registers and fields of an E4000 that answers.
use rtl_sdr_blog.Common.{
  ==_iff, Bool, Bool-cases, List, [], ap, arith, bit_and, get_or, if◌then◌else◌, inl, inr, refl,
  sym, true, ℕ, ◌-◌, ◌<◌, ◌==◌, ◌∙◌, ◌∷◌, ◌≡◌, ◌≢◌,
}
use rtl_sdr_blog.Common.Word.{u8}
use rtl_sdr_blog.State.{
  Dev, Host, Log, M, Res, Transfer, done, get, ok, or_value, pure, ◌>>=◌, ◌>>◌,
}
use rtl_sdr_blog.Usb.{
  byte_or, i2c_read, i2c_write, in_transfer, out_transfer, read_array, status, transfer,
  write_array,
}
use rtl_sdr_blog.Usb.Laws.{logged}
use rtl_sdr_blog.R82xx.Chip.{chip, i2c_out}
use rtl_sdr_blog.E4k.{masked, one_or_fail, reg_read, reg_set_mask, reg_write, two_or_fail}
use rtl_sdr_blog.E4k.Bits.{masked_fits, masked_same}

abbrev pub register_out : ℕ → ℕ → Transfer
register_out addr reg = out_transfer addr i2c_out (reg ∷ [])

abbrev pub byte_in : ℕ → Transfer
byte_in addr = in_transfer addr 0x600 1

abbrev pub value_out : ℕ → ℕ → ℕ → Transfer
value_out addr reg val = out_transfer addr i2c_out (reg ∷ val ∷ [])

-- The tuner takes each write, and the read after the number of a register gives the byte that the
-- writes left there; `base` is what the registers held before them.
pub record HasE4k (addr : ℕ) (base : ℕ → ℕ) (host : Host) : Type 0 where
  pub takes_register :
      (log : Log) (reg : ℕ) → (f : ℕ → ℕ) × (host.answer log (register_out addr reg) ≡ done 1 f)
  pub reads_back :
      (log : Log) (reg : ℕ) (f : ℕ → ℕ)
      → (g : ℕ → ℕ) × (host.answer
            (record { transfer = register_out addr reg; reply = done 1 f } ∷ log)
            (byte_in addr)
          ≡ done 1 g)
        × (u8 (g 0) ≡ u8 (chip addr base log reg))
  pub takes_value :
      (log : Log) (reg val : ℕ)
      → (f : ℕ → ℕ) × (host.answer log (value_out addr reg val) ≡ done 2 f)

module _ (addr : ℕ) (base : ℕ → ℕ) (host : Host) (e4k : HasE4k addr base host) where
  -- The byte that a register holds.
  abbrev pub held : Dev → ℕ → ℕ
  held d reg = u8 (chip addr base d.log reg)

  abbrev named : ℕ → Dev → Dev
  named reg d = logged (register_out addr reg) (done 1 (e4k.takes_register d.log reg).0) d

  abbrev pub after_read : ℕ → Dev → Dev
  after_read reg d =
      logged (byte_in addr) (done 1 (e4k.reads_back d.log reg (e4k.takes_register d.log reg).0).0)
        (named reg d)

  abbrev pub after_write : ℕ → ℕ → Dev → Dev
  after_write reg val d =
      logged (value_out addr reg val) (done 2 (e4k.takes_value d.log reg val).0) d

  i2c_write_takes :
      (bytes : List ℕ) (n : ℕ) (f : ℕ → ℕ) (d : Dev)
      → host.answer d.log (out_transfer addr i2c_out bytes) ≡ done n f
      → i2c_write host addr bytes d ≡ ok n (logged (out_transfer addr i2c_out bytes) (done n f) d)
  unfolding i2c_write write_array transfer
  i2c_write_takes bytes n f d h =
      ap (λ r. status r (logged (out_transfer addr i2c_out bytes) r d)) h

  i2c_read_gives :
      (g : ℕ → ℕ) (d : Dev)
      → host.answer d.log (byte_in addr) ≡ done 1 g
      → i2c_read host addr 1 d ≡ ok (done 1 g) (logged (byte_in addr) (done 1 g) d)
  unfolding i2c_read read_array transfer
  i2c_read_gives g d h = ap (λ r. ok r (logged (byte_in addr) r d)) h

  reg_write_lem :
      (reg val : ℕ) (d : Dev)
      → d.e4k.i2c_addr ≡ addr
      → reg_write host reg val d ≡ ok tt (after_write reg val d)
  unfolding reg_write get
  reg_write_lem reg val d h =
      ap (λ a. two_or_fail (i2c_write host a (reg ∷ val ∷ [])) d) h
      ∙ ap (λ r. two_or_fail (λ e. r) d)
          (i2c_write_takes (reg ∷ val ∷ []) 2 (e4k.takes_value d.log reg val).0 d
            (e4k.takes_value d.log reg val).1)

  -- What is left of a read once the number of the register was taken.
  abbrev read_on : ℕ → ℕ → M ℕ
  read_on a reg = do r ← i2c_read host a 1; one_or_fail (status r); pure (byte_or r 0 reg)

  pub reg_read_lem :
      (reg : ℕ) (d : Dev)
      → d.e4k.i2c_addr ≡ addr
      → reg_read host reg d ≡ ok (held d reg) (after_read reg d)
  unfolding reg_read get
  reg_read_lem reg d h =
      ap (λ a. (one_or_fail (i2c_write host a (reg ∷ [])) >> read_on a reg) d) h
      ∙ (ap (λ r. (one_or_fail (λ e. r) >> read_on addr reg) d)
            (i2c_write_takes (reg ∷ []) 1 (e4k.takes_register d.log reg).0 d
              (e4k.takes_register d.log reg).1)
          ∙ (ap (λ r. ((λ e. r) >>= λ r. one_or_fail (status r) >> pure (byte_or r 0 reg)) d)
                (i2c_read_gives (e4k.reads_back d.log reg (e4k.takes_register d.log reg).0).0
                  (named reg d) (e4k.reads_back d.log reg (e4k.takes_register d.log reg).0).1)
              ∙ ap (λ b. ok b (after_read reg d))
                  (e4k.reads_back d.log reg (e4k.takes_register d.log reg).0).2))

  pub held-after_read : (reg r : ℕ) (d : Dev) → held (after_read reg d) r ≡ held d r
  unfolding chip
  held-after_read reg r d = ground arith

  held-after_write_self : (reg val : ℕ) (d : Dev) → held (after_write reg val d) reg ≡ u8 val
  unfolding chip
  held-after_write_self reg val d = ground (arith, ap (λ k. get_or (val ∷ []) k 0) first)
    where
      first : reg - reg ≡ 0
      first = omega arith

  held-after_write_other :
      (reg val r : ℕ) (d : Dev) → r ≢ reg → held (after_write reg val d) r ≡ held d r
  unfolding chip
  held-after_write_other reg val r d h = ground arith

  -- The call returns no error, leaves the tuner's record alone, and the register holds `v`, all
  -- others what they held.
  pub record Sets (reg v : ℕ) (d : Dev) (m : M (Unit {0})) : Type 0 where
    pub end : Dev
    pub returns : m d ≡ ok tt end
    pub record_kept : end.e4k ≡ d.e4k
    pub set_to : held end reg ≡ v
    pub others : (r : ℕ) → r ≢ reg → held end r ≡ held d r

  pub reg_set_mask-Sets :
      (reg mask val : ℕ) (d : Dev)
      → d.e4k.i2c_addr ≡ addr
      → mask < 256
      → val < 256
      → Sets reg (masked (held d reg) mask val) d (reg_set_mask host reg mask val)
  unfolding reg_set_mask
  reg_set_mask-Sets reg mask val d h k l = elim (Bool-cases (bit_and (held d reg) mask == val)) [
    | inl same ↦ record {
      end = after_read reg d;
      returns = start ∙ ap (λ b. if_not b (after_read reg d)) same;
      record_kept = refl;
      set_to = held-after_read reg reg d ∙ as_was same;
      others = λ r other. held-after_read reg r d;
    }
    | inr other ↦ record {
      end = after_write reg (masked (held d reg) mask val) (after_read reg d);
      returns =
          start
          ∙ (ap (λ b. if_not b (after_read reg d)) other
              ∙ reg_write_lem reg (masked (held d reg) mask val) (after_read reg d) h);
      record_kept = refl;
      set_to =
          held-after_write_self reg (masked (held d reg) mask val) (after_read reg d)
          ∙ omega (arith, masked_fits (held d reg) mask val (omega arith) k l);
      others = λ r apart.
          held-after_write_other reg (masked (held d reg) mask val) r (after_read reg d) apart
          ∙ held-after_read reg r d;
    }
  ]
    where
      as_was : (bit_and (held d reg) mask == val) ≡ true → held d reg ≡ masked (held d reg) mask val
      as_was same =
          sym (masked_same (held d reg) mask (omega arith) k)
          ∙ ap (masked (held d reg) mask) ((==_iff _ _).0 same)

      if_not : Bool → M (Unit {0})
      if_not b = if b then pure tt else reg_write host reg (masked (held d reg) mask val)

      start :
          reg_set_mask host reg mask val d
          ≡ if_not (bit_and (held d reg) mask == val) (after_read reg d)
      start =
          ap
            (λ (r : Res ℕ).
              (or_value 255 (λ e. r) >>= λ tmp.
              if bit_and tmp mask == val then pure tt else reg_write host reg (masked tmp mask val))
                d)
            (reg_read_lem reg d h)
