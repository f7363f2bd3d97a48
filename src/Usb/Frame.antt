-- ===== src/Usb/Frame.antt =====
-- Properties of the device that calls leave alone, whether they fail or not: the log of transfers and
-- the tuners' records may change.
use rtl_sdr_blog.Common.{Bool, List, Option, false, if◌then◌else◌, none, refl, some, true, ℕ, ◌≡◌}
use rtl_sdr_blog.State.{
  Dev, E4k, Host, M, R82xx, Reply, Res, Transfer, done, err, fail, failed, fault, finally_r82xx,
  get, get_r82xx, ignore, modify, modify_e4k, modify_r82xx, no_result, ok, or_stuck, pure, when,
  ◌>>=◌, ◌>>◌,
}
use rtl_sdr_blog.Usb.{
  demod_read_reg, demod_write_reg, i2c_read, i2c_write, junk, read_array, read_reg,
  set_bias_tee_gpio, set_gpio_bit, set_gpio_output, set_i2c_repeater, status, transfer, write_array,
  write_reg,
}
use rtl_sdr_blog.Usb.Laws.{logged}

-- What `m >>= k` does with the outcome of `m`.
unfoldable pub bind_res : {A B : Type 0} → Res A → (A → M B) → Res B
bind_res r k = elim r [ ok a e ↦ k a e | err n e ↦ err n e | fault ↦ fault ]

-- Where the call returns, with an error or without, `P` holds of the state.
abbrev pub Within : {A : Type 0} → (Dev → Type 0) → Res A → Type 0
Within P (ok a e) = P e
Within P (err n e) = P e
Within P fault = Unit

pub record Stays {A : Type 0} (P : Dev → Type 0) (m : M A) : Type 0 where
  pub run : (d : Dev) → P d → Within P (m d)

-- Two continuations that agree where the call can end.
pub bind_res_agree :
    {A B : Type 0} (Q : Dev → Type 0) (r : Res A) (f g : A → M B)
    → Within Q r
    → ((a : A) (e : Dev) → Q e → f a e ≡ g a e)
    → bind_res r f ≡ bind_res r g
unfolding bind_res
bind_res_agree Q (ok a e) f g q h = h a e q
bind_res_agree Q (err n e) f g q h = refl
bind_res_agree Q fault f g q h = refl

-- What does not depend on the log and on the tuners' records.
pub record IsApart (P : Dev → Type 0) : Type 0 where
  pub log : (d : Dev) (t : Transfer) (r : Reply) → P d → P (logged t r d)
  pub r82xx : (d : Dev) (q : R82xx) → P d → P (record d { r82xx = q })
  pub e4k : (d : Dev) (k : E4k) → P d → P (record d { e4k = k })

module _ {P : Dev → Type 0} where
  pub Stays-bind :
      {A B : Type 0} {m : M A} {f : A → M B}
      → Stays P m
      → ((a : A) → Stays P (f a))
      → Stays P (m >>= f)
  Stays-bind {A} {B} {m} {f} h k = record { run = λ d p. on_result (m d) (h.run d p) }
    where
      on_result :
          (r : Res A)
          → Within P r
          → Within {A = B} P (elim r [ ok a e ↦ f a e | err n e ↦ err n e | fault ↦ fault ])
      on_result (ok a e) q = (k a).run e q
      on_result (err n e) q = q
      on_result fault q = q

  pub Stays-then :
      {B : Type 0} {m : M (Unit {0})} {k : M B} → Stays P m → Stays P k → Stays P (m >> k)
  Stays-then h k = Stays-bind h (λ a. k)

  pub Stays-ignore : {A : Type 0} {m : M A} → Stays P m → Stays P (ignore m)
  Stays-ignore {A} {m} h = record { run = λ d p. on_result (m d) (h.run d p) }
    where
      on_result :
          (r : Res A)
          → Within P r
          → Within {A = Unit {0}} P
              (elim r [ ok a e ↦ ok tt e | err n e ↦ ok tt e | fault ↦ fault ])
      on_result (ok a e) q = q
      on_result (err n e) q = q
      on_result fault q = q

  pub Stays-pure : {A : Type 0} (a : A) → Stays P (pure a)
  Stays-pure a = record { run = λ d v. v }

  pub Stays-fail : {A : Type 0} (n : ℕ) → Stays {A = A} P (fail n)
  Stays-fail n = record { run = λ d v. v }

  pub Stays-stuck : {A : Type 0} → Stays {A = A} P no_result
  Stays-stuck = record { run = λ d v. tt }

  pub Stays-get : Stays P get
  unfolding get
  Stays-get = record { run = λ d v. v }

  pub Stays-modify : (f : Dev → Dev) → ((d : Dev) → P d → P (f d)) → Stays P (modify f)
  unfolding modify
  Stays-modify f keep = record { run = keep }

  pub Stays-get_r82xx : Stays P get_r82xx
  unfolding get_r82xx
  Stays-get_r82xx = record { run = λ d v. v }

  pub Stays-or_stuck : {A : Type 0} (o : Option A) → Stays P (or_stuck o)
  Stays-or_stuck none = record { run = λ d v. tt }
  Stays-or_stuck (some a) = record { run = λ d v. v }

  pub Stays-when : (b : Bool) {m : M (Unit {0})} → Stays P m → Stays P (when b m)
  Stays-when true h = record { run = λ d p. h.run d p }
  Stays-when false h = record { run = λ d p. p }

  pub Stays-if :
      {A : Type 0} (b : Bool) {m n : M A} → Stays P m → Stays P n → Stays P (if b then m else n)
  Stays-if true h k = h
  Stays-if false h k = k

  pub Stays-status : (r : Reply) → Stays P (status r)
  Stays-status (done n f) = record { run = λ d p. p }
  Stays-status (failed n) = record { run = λ d p. p }

module _ {P : Dev → Type 0} (apart : IsApart P) where
  pub Stays-modify_r82xx : (f : R82xx → R82xx) → Stays P (modify_r82xx f)
  unfolding modify_r82xx
  Stays-modify_r82xx f = record { run = λ d p. apart.r82xx d (f d.r82xx) p }

  pub Stays-modify_e4k : (f : E4k → E4k) → Stays P (modify_e4k f)
  unfolding modify_e4k
  Stays-modify_e4k f = record { run = λ d p. apart.e4k d (f d.e4k) p }

  pub Stays-finally :
      (f : R82xx → R82xx) {m : M (Unit {0})} → Stays P m → Stays P (finally_r82xx f m)
  Stays-finally f {m} h = record { run = λ d p. after (m d) (h.run d p) }
    where
      after :
          (r : Res (Unit {0}))
          → Within P r
          → Within {A = Unit {0}} P (elim r [
            | ok a e ↦ ok a (record e { r82xx = f e.r82xx })
            | err n e ↦ err n (record e { r82xx = f e.r82xx })
            | fault ↦ fault
          ])
      after (ok a e) q = apart.r82xx e (f e.r82xx) q
      after (err n e) q = apart.r82xx e (f e.r82xx) q
      after fault q = tt

  module _ (host : Host) where
    pub Stays-transfer : (t : Transfer) → Stays P (transfer host t)
    unfolding transfer
    Stays-transfer t = record { run = λ d p. apart.log d t (host.answer d.log t) p }

    pub Stays-junk : (i : ℕ) → Stays P (junk host i)
    unfolding junk
    Stays-junk i = record { run = λ d p. p }

    pub Stays-i2c_write : (addr : ℕ) (bytes : List ℕ) → Stays P (i2c_write host addr bytes)
    unfolding i2c_write write_array
    Stays-i2c_write addr bytes = Stays-bind (Stays-transfer _) λ r. Stays-status r

    pub Stays-i2c_read : (addr len : ℕ) → Stays P (i2c_read host addr len)
    unfolding i2c_read read_array
    Stays-i2c_read addr len = Stays-transfer _

    pub Stays-read_reg : (block addr len : ℕ) → Stays P (read_reg host block addr len)
    unfolding read_reg
    Stays-read_reg block addr len =
        Stays-bind (Stays-junk 0)
          λ j0. Stays-bind (Stays-junk 1) λ j1. Stays-bind (Stays-transfer _) λ r. Stays-pure _

    pub Stays-write_reg : (block addr val len : ℕ) → Stays P (write_reg host block addr val len)
    unfolding write_reg
    Stays-write_reg block addr val len = Stays-bind (Stays-transfer _) λ r. Stays-status r

    Stays-demod_read_reg : (page addr len : ℕ) → Stays P (demod_read_reg host page addr len)
    unfolding demod_read_reg
    Stays-demod_read_reg page addr len =
        Stays-bind (Stays-junk 0)
          λ j0. Stays-bind (Stays-junk 1) λ j1. Stays-bind (Stays-transfer _) λ r. Stays-pure _

    pub Stays-demod_write_reg :
        (page addr val len : ℕ) → Stays P (demod_write_reg host page addr val len)
    unfolding demod_write_reg
    Stays-demod_write_reg page addr val len = Stays-bind (Stays-transfer _) λ r.
        Stays-then (Stays-ignore (Stays-demod_read_reg _ _ _))
          (Stays-if _ (Stays-pure tt) (Stays-fail 0))

    pub Stays-set_i2c_repeater : (on : Bool) → Stays P (set_i2c_repeater host on)
    unfolding set_i2c_repeater
    Stays-set_i2c_repeater on = Stays-ignore (Stays-demod_write_reg 1 0x01 _ 1)

    pub Stays-set_bias_tee_gpio : (gpio : ℕ) (on : Bool) → Stays P (set_bias_tee_gpio host gpio on)
    unfolding set_bias_tee_gpio set_gpio_output set_gpio_bit
    Stays-set_bias_tee_gpio gpio on = Stays-bind Stays-get λ d.
        Stays-then
          (Stays-bind (Stays-read_reg _ _ 1) λ r.
            Stays-then (Stays-ignore (Stays-write_reg _ _ _ 1))
              (Stays-bind (Stays-read_reg _ _ 1) λ r'. Stays-ignore (Stays-write_reg _ _ _ 1)))
          (Stays-bind (Stays-read_reg _ _ 1) λ r. Stays-ignore (Stays-write_reg _ _ _ 1))
