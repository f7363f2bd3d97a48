-- ===== src/R82xx/Chip.antt =====
-- The registers that the tuner itself holds, as the acknowledged I2C writes of the log set them:
-- the independent view that the driver's shadow registers are compared with. A write of bytes sets
-- the register that its first byte names and those after it (the chip's auto-increment).
pub mod Store
pub mod Write
pub mod Coherent
pub mod Ops
pub mod Pll
pub mod Gpio
pub mod Drivers
use rtl_sdr_blog.Common.{
  Bool, List, [], false, get_or, if◌then◌else◌, leb, length, ltb, true, ℕ, ◌&&◌, ◌+◌, ◌-◌, ◌==◌,
  ◌∷◌,
}
use rtl_sdr_blog.State.{Direction, Entry, Log, Reply, Transfer, ctrl_in, ctrl_out, done, failed}

-- `regs` with the bytes `val` written from `reg` on.
abbrev pub burst : ℕ → List ℕ → (ℕ → ℕ) → ℕ → ℕ
burst reg val regs r =
    if leb reg r && ltb r (reg + length val) then get_or val (r - reg) 0 else regs r

abbrev pub write_bytes : List ℕ → (ℕ → ℕ) → ℕ → ℕ
write_bytes [] regs = regs
write_bytes (reg ∷ val) regs = burst reg val regs

-- wIndex of a write to the I2C block.
abbrev pub i2c_out : ℕ
i2c_out = 0x610

abbrev pub is_out : Direction → Bool
is_out ctrl_out = true
is_out ctrl_in = false

-- A transfer counts if it is an I2C write to `addr` whose bytes were all taken.
abbrev pub taken : ℕ → Transfer → Reply → Bool
taken addr t (done n f) =
    is_out t.direction && (t.value == addr) && (t.index == i2c_out) && (n == length t.bytes)
taken addr t (failed e) = false

abbrev pub chip_step : ℕ → Entry → (ℕ → ℕ) → ℕ → ℕ
chip_step addr e regs =
    if taken addr e.transfer e.reply then write_bytes e.transfer.bytes regs else regs

-- The registers after the transfers of the log; `base` is what they were before.
unfoldable pub chip : ℕ → (ℕ → ℕ) → Log → ℕ → ℕ
chip addr base [] = base
chip addr base (e ∷ log) = chip_step addr e (chip addr base log)
