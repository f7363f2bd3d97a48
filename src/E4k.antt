-- ===== src/E4k.antt =====
-- src/tuner_e4k.c: the registers of the E4000.
pub mod Reg
pub mod Filter
pub mod Pll
pub mod Gain
pub mod Dc
pub mod Init
pub mod Iface
pub mod Bits
pub mod Field
mod Tests
use rtl_sdr_blog.Common.{
  List, [], bit_and, bit_or, get_or, if◌then◌else◌, ℕ, ◌*◌, ◌/◌, ◌==◌, ◌^◌, ◌∷◌,
}
use rtl_sdr_blog.Common.Word.{inv8, u8}
use rtl_sdr_blog.State.{
  Host, M, err, fail, fault, get, ok, or_minus_one, or_value, pure, when, ◌>>=◌, ◌>>◌,
}
use rtl_sdr_blog.Usb.{byte_or, i2c_read, i2c_write, status}

-- `struct reg_field`.
pub record RegField : Type 0 where
  pub reg : ℕ
  pub shift : ℕ
  pub width : ℕ

abbrev pub field_at : ℕ → ℕ → ℕ → RegField
field_at reg shift width = record { reg = reg; shift = shift; width = width }

abbrev pub width2mask : List ℕ
width2mask = 0 ∷ 1 ∷ 3 ∷ 7 ∷ 0xf ∷ 0x1f ∷ 0x3f ∷ 0x7f ∷ 0xff ∷ []

-- The widths of the tables are all in the range of `width2mask`.
abbrev pub field_mask : RegField → ℕ
field_mask f = u8 (get_or width2mask f.width 0 * 2 ^ f.shift)

-- `return r == 2 ? 0 : -1;`
abbrev pub two_or_fail : M ℕ → M (Unit {0})
two_or_fail m d = elim (m d) [
  | ok n e ↦ if n == 2 then ok tt e else err 0 e
  | err n e ↦ err 0 e
  | fault ↦ fault
]

-- `if (f() < 1) return -1;`
abbrev pub one_or_fail : M ℕ → M (Unit {0})
one_or_fail m = do n ← or_minus_one m; when (n == 0) (fail 0)

-- The byte with the bits of `mask` taken from `val`.
abbrev pub masked : ℕ → ℕ → ℕ → ℕ
masked tmp mask val = bit_or (bit_and tmp (inv8 mask)) (bit_and val mask)

module _ (host : Host) where
  unfoldable pub reg_write : ℕ → ℕ → M (Unit {0})
  reg_write reg val = do d ← get; two_or_fail (i2c_write host d.e4k.i2c_addr (reg ∷ val ∷ []))

  unfoldable pub reg_read : ℕ → M ℕ
  reg_read reg = do
    d ← get
    one_or_fail (i2c_write host d.e4k.i2c_addr (reg ∷ []))
    r ← i2c_read host d.e4k.i2c_addr 1
    one_or_fail (status r)
    pure (byte_or r 0 reg)

  -- A failed read is taken as the byte 255.
  unfoldable pub reg_set_mask : ℕ → ℕ → ℕ → M (Unit {0})
  reg_set_mask reg mask val = do
    tmp ← or_value 255 (reg_read reg)
    if bit_and tmp mask == val then pure tt else reg_write reg (masked tmp mask val)

  unfoldable pub field_write : RegField → ℕ → M (Unit {0})
  field_write field val = do
    rc ← reg_read field.reg
    reg_set_mask field.reg (field_mask field) (u8 (val * 2 ^ field.shift))

  unfoldable pub field_read : RegField → M ℕ
  field_read field = do
    rc ← reg_read field.reg
    pure (bit_and (rc / 2 ^ field.shift) (get_or width2mask field.width 0))
