-- ===== src/Device/Open/Calls.antt =====
-- Calls that return whatever the transfers come to.
use rtl_sdr_blog.Common.{Bool, ap, bit_or, refl, ℕ, ◌^◌, ◌∙◌, ◌≡◌}
use rtl_sdr_blog.Common.Word.{u8}
use rtl_sdr_blog.State.{Dev, Host, M, Reply, done, failed, ignore, ok, pure, ◌>>=◌, ◌>>◌}
use rtl_sdr_blog.Usb.{
  byte_or, clear16, i2c_read_reg, junk, read_array, read_reg, set_gpio_bit, set_gpio_output, status,
  transfer, write_array, write_reg,
}
use rtl_sdr_blog.Usb.Laws.{logged}
use rtl_sdr_blog.Usb.Frame.{bind_res}
use rtl_sdr_blog.E4k.Field.{byte_in, register_out}
use rtl_sdr_blog.Usb.Block.{sysb}
use rtl_sdr_blog.Usb.Reg.{gpd, gpoe}

-- The call returns this value from any state.
abbrev pub Gives : {A : Type 0} → M A → A → Type 0
Gives m a = (d : Dev) → (e : Dev) × (m d ≡ ok a e)

pub Gives-bind :
    {A B : Type 0} (m : M A) (a : A) (f : A → M B) (b : B)
    → Gives m a
    → Gives (f a) b
    → Gives (m >>= f) b
unfolding bind_res
Gives-bind m a f b h k d = ((k (h d).0).0, ap (λ r. bind_res r f) (h d).1 ∙ (k (h d).0).1)

Gives-ignore : (r : Reply) (d : Dev) → (e : Dev) × (ignore (status r) d ≡ ok tt e)
Gives-ignore (done n f) d = (d, refl)
Gives-ignore (failed n) d = (d, refl)

-- The call returns no error from any state.
abbrev Ends : {A : Type 0} → M A → Type 0
Ends {A} m = (d : Dev) → (a : A) × (e : Dev) × (m d ≡ ok a e)

Ends-bind :
    {A B : Type 0} (m : M A) (f : A → M B) → Ends m → ((a : A) → Ends (f a)) → Ends (m >>= f)
unfolding bind_res
Ends-bind m f h k d = (
  (k (h d).0 (h d).1).0,
  (k (h d).0 (h d).1).1,
  ap (λ r. bind_res r f) (h d).2 ∙ (k (h d).0 (h d).1).2,
)

after_ignored : {A : Type 0} (r : Reply) (m : M A) (d : Dev) → (ignore (status r) >> m) d ≡ m d
after_ignored (done n f) m d = refl
after_ignored (failed n) m d = refl

module _ (host : Host) where
  -- The device once the number of a register was sent, whatever became of that.
  abbrev pub named : ℕ → ℕ → Dev → Dev
  named addr reg d = logged (register_out addr reg) (host.answer d.log (register_out addr reg)) d

  i2c_read_reg_lem :
      (addr reg : ℕ) (d : Dev)
      → i2c_read_reg host addr reg d
        ≡ ok (byte_or (host.answer (named addr reg d).log (byte_in addr)) 0 0) (
            logged
              (byte_in addr)
              (host.answer (named addr reg d).log (byte_in addr))
              (named addr reg d))
  unfolding i2c_read_reg write_array read_array transfer
  i2c_read_reg_lem addr reg d =
      after_ignored (host.answer d.log (register_out addr reg))
        (read_array host 6 addr 1 >>= λ r. pure (byte_or r 0 0)) (named addr reg d)

  pub Gives-i2c_read_reg :
      (addr reg b : ℕ)
      → ((d : Dev) → byte_or (host.answer (named addr reg d).log (byte_in addr)) 0 0 ≡ b)
      → Gives (i2c_read_reg host addr reg) b
  Gives-i2c_read_reg addr reg b h d = (
    logged (byte_in addr) (host.answer (named addr reg d).log (byte_in addr)) (named addr reg d),
    i2c_read_reg_lem addr reg d
        ∙ ap
            (λ b. ok b (
              logged (byte_in addr) (host.answer (named addr reg d).log (byte_in addr))
                (named addr reg d)))
            (h d),
  )

  Ends-read_reg : (block addr len : ℕ) → Ends (read_reg host block addr len)
  unfolding read_reg junk transfer
  Ends-read_reg block addr len d = (_, _, refl)

  Ends-write_reg : (block addr val len : ℕ) → Ends (ignore (write_reg host block addr val len))
  unfolding write_reg transfer
  Ends-write_reg block addr val len d = (tt, (Gives-ignore _ _).0, (Gives-ignore _ _).1)

  pub Gives-set_gpio_output : (gpio : ℕ) → Gives (set_gpio_output host gpio) tt
  unfolding set_gpio_output
  Gives-set_gpio_output gpio d = (ends.1, ends.2)
    where
      ends : (a : Unit {0}) × (e : Dev) × (set_gpio_output host gpio d ≡ ok a e)
      ends =
          Ends-bind (read_reg host sysb gpd 1)
            (λ r. ignore (write_reg host sysb gpd (clear16 r (u8 (2 ^ gpio))) 1) >> enable)
            (Ends-read_reg sysb gpd 1)
            (λ r.
              Ends-bind (ignore (write_reg host sysb gpd (clear16 r (u8 (2 ^ gpio))) 1))
                (λ u. enable) (Ends-write_reg sysb gpd (clear16 r (u8 (2 ^ gpio))) 1)
                λ u.
                  Ends-bind (read_reg host sysb gpoe 1)
                    (λ r'. ignore (write_reg host sysb gpoe (bit_or r' (u8 (2 ^ gpio))) 1))
                    (Ends-read_reg sysb gpoe 1)
                    λ r'. Ends-write_reg sysb gpoe (bit_or r' (u8 (2 ^ gpio))) 1)
            d
        where
          enable : M (Unit {0})
          enable = do
            r' ← read_reg host sysb gpoe 1
            ignore (write_reg host sysb gpoe (bit_or r' (u8 (2 ^ gpio))) 1)

  pub Gives-set_gpio_bit : (gpio : ℕ) (on : Bool) → Gives (set_gpio_bit host gpio on) tt
  unfolding set_gpio_bit read_reg write_reg junk transfer
  Gives-set_gpio_bit gpio on d = Gives-ignore _ _
