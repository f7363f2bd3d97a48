-- ===== src/Usb.antt =====
-- src/librtlsdr.c: the control transfers. Registers of the demodulator, of the system and USB
-- blocks and, through the I2C block, of the tuner and the EEPROM are all read and written by them.
pub mod Block
pub mod Reg
pub mod Laws
pub mod Frame
use Prim.Native.String.{String}
use text.Mathlib.Text.{◌==◌ as str_eq}
use rtl_sdr_blog.Common.{
  Bool, List, [], bit_and, bit_or, false, if◌then◌else◌, length, ltb, suc, take, true, zero, ℕ,
  ◌&&◌, ◌*◌, ◌+◌, ◌-◌, ◌/◌, ◌==◌, ◌^◌, ◌∷◌,
}
use rtl_sdr_blog.Common.Word.{u16, u8}
use rtl_sdr_blog.State.{
  Dev, Host, M, Reply, Transfer, ctrl_in, ctrl_out, done, fail, failed, get, ignore, ok, pure,
  ◌>>=◌, ◌>>◌,
}

-- The bytes that were read, as a list of length `n`; `from` is the index of the first.
abbrev pub received : ℕ → ℕ → (ℕ → ℕ) → List ℕ
received zero from f = []
received (suc n) from f = u8 (f from) ∷ received n (from + 1) f

-- A byte of a two-byte buffer after a read: bytes beyond what was transferred keep the old value.
abbrev pub byte_or : Reply → ℕ → ℕ → ℕ
byte_or (done n f) i old = if ltb i n then u8 (f i) else old
byte_or (failed e) i old = old

abbrev pub out_transfer : ℕ → ℕ → List ℕ → Transfer
out_transfer value index bytes = record {
  direction = ctrl_out;
  value = value;
  index = index;
  bytes = bytes;
  len = length bytes;
}

abbrev pub in_transfer : ℕ → ℕ → ℕ → Transfer
in_transfer value index len = record {
  direction = ctrl_in;
  value = value;
  index = index;
  bytes = [];
  len = len;
}

-- The count that a transfer returns, or its error.
abbrev pub status : Reply → M ℕ
status (done n f) = pure n
status (failed e) = fail e

abbrev pub is_count : Reply → ℕ → Bool
is_count (done n f) len = n == len
is_count (failed e) len = false

-- The buffer of a register write: one byte, or two with the high byte first. `data[0]` and
-- `data[1]` are both set, and `len` of them are sent.
abbrev pub reg_bytes : ℕ → ℕ → List ℕ
reg_bytes val len =
    let lo = bit_and val 0xff in take len ((if len == 1 then lo else u8 (val / 2 ^ 8)) ∷ lo ∷ [])

-- `r & ~mask` on a `uint16_t` and an 8-bit mask: the mask's complement has its high byte set.
abbrev pub clear16 : ℕ → ℕ → ℕ
clear16 r mask = bit_and r (0xffff - mask)

module _ (host : Host) where
  -- `libusb_control_transfer` on the device's handle.
  unfoldable pub transfer : Transfer → M Reply
  transfer t d =
      let r = host.answer d.log t in
      ok r (record d { log = record { transfer = t; reply = r } ∷ d.log })

  -- The byte `i` of a buffer that nothing has written.
  unfoldable pub junk : ℕ → M ℕ
  junk i d = ok (u8 (host.junk d.log i)) d

  unfoldable pub write_array : ℕ → ℕ → List ℕ → M ℕ
  write_array block addr array = do
    r ← transfer (out_transfer addr (bit_or (u16 (block * 2 ^ 8)) 0x10) array)
    status r

  unfoldable pub read_array : ℕ → ℕ → ℕ → M Reply
  read_array block addr len = transfer (in_transfer addr (u16 (block * 2 ^ 8)) len)

  unfoldable pub i2c_write_reg : ℕ → ℕ → ℕ → M ℕ
  i2c_write_reg i2c_addr reg val = write_array Block.iicb i2c_addr (reg ∷ val ∷ [])

  unfoldable pub i2c_read_reg : ℕ → ℕ → M ℕ
  i2c_read_reg i2c_addr reg = do
    ignore (write_array Block.iicb i2c_addr (reg ∷ []))
    r ← read_array Block.iicb i2c_addr 1
    pure (byte_or r 0 0)

  -- `rtlsdr_i2c_write_fn` and `rtlsdr_i2c_write`, of fewer than 256 bytes.
  unfoldable pub i2c_write : ℕ → List ℕ → M ℕ
  i2c_write i2c_addr buffer = write_array Block.iicb i2c_addr buffer

  -- `rtlsdr_i2c_read_fn` and `rtlsdr_i2c_read`.
  unfoldable pub i2c_read : ℕ → ℕ → M Reply
  i2c_read i2c_addr len = read_array Block.iicb i2c_addr (u8 len)

  -- A failure is printed, and the value is read out of the buffer all the same.
  unfoldable pub read_reg : ℕ → ℕ → ℕ → M ℕ
  read_reg block addr len = do
    j0 ← junk 0
    j1 ← junk 1
    r ← transfer (in_transfer addr (u16 (block * 2 ^ 8)) len)
    pure (bit_or (byte_or r 1 j1 * 2 ^ 8) (byte_or r 0 j0))

  unfoldable pub write_reg : ℕ → ℕ → ℕ → ℕ → M ℕ
  write_reg block addr val len = do
    r ← transfer (out_transfer addr (bit_or (u16 (block * 2 ^ 8)) 0x10) (reg_bytes val len))
    status r

  unfoldable pub demod_read_reg : ℕ → ℕ → ℕ → M ℕ
  demod_read_reg page addr len = do
    j0 ← junk 0
    j1 ← junk 1
    r ← transfer (in_transfer (bit_or (u16 (addr * 2 ^ 8)) 0x20) page len)
    pure (bit_or (byte_or r 1 j1 * 2 ^ 8) (byte_or r 0 j0))

  -- 0, or -1 if the transfer was not of `len` bytes. The read after it is a dummy.
  unfoldable pub demod_write_reg : ℕ → ℕ → ℕ → ℕ → M (Unit {0})
  demod_write_reg page addr val len = do
    r ←
        transfer
          (out_transfer (bit_or (u16 (addr * 2 ^ 8)) 0x20) (bit_or 0x10 page) (reg_bytes val len))
    ignore (demod_read_reg 0x0a 0x01 1)
    if is_count r len then pure tt else fail 0

  unfoldable pub set_gpio_bit : ℕ → Bool → M (Unit {0})
  set_gpio_bit gpio val = do
    let mask = u8 (2 ^ gpio)
    r ← read_reg Block.sysb Reg.gpo 1
    ignore (write_reg Block.sysb Reg.gpo (if val then bit_or r mask else clear16 r mask) 1)

  unfoldable pub set_gpio_output : ℕ → M (Unit {0})
  set_gpio_output gpio = do
    let mask = u8 (2 ^ gpio)
    r ← read_reg Block.sysb Reg.gpd 1
    ignore (write_reg Block.sysb Reg.gpd (clear16 r mask) 1)
    r' ← read_reg Block.sysb Reg.gpoe 1
    ignore (write_reg Block.sysb Reg.gpoe (bit_or r' mask) 1)

  unfoldable pub set_i2c_repeater : Bool → M (Unit {0})
  set_i2c_repeater on = ignore (demod_write_reg 1 0x01 (if on then 0x18 else 0x10) 1)

  -- The bias tee stays on if the EEPROM forces it.
  unfoldable pub set_bias_tee_gpio : ℕ → Bool → M (Unit {0})
  set_bias_tee_gpio gpio on = do
    d ← get
    set_gpio_output gpio
    set_gpio_bit gpio (if (gpio == 0) && d.force_bt then true else on)

  unfoldable pub set_bias_tee : Bool → M (Unit {0})
  set_bias_tee on = set_bias_tee_gpio 0 on

unfoldable pub check_dongle_model : Dev → String → String → Bool
check_dongle_model d manufact product = str_eq d.manufact manufact && str_eq d.product product
