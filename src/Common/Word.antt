-- ===== src/Common/Word.antt =====
-- Casts to the fixed widths of C, and the masks that the drivers use.
use Prim.Native.Nat.{ℕ, zero, suc, ◌-◌, ◌%◌, ◌^◌}
use mathlib.Core.Bool.{Bool, true, false}

abbrev pub u8 : ℕ → ℕ
u8 n = n % 2 ^ 8

abbrev pub u16 : ℕ → ℕ
u16 n = n % 2 ^ 16

abbrev pub u32 : ℕ → ℕ
u32 n = n % 2 ^ 32

abbrev pub u64 : ℕ → ℕ
u64 n = n % 2 ^ 64

-- `~m` of an 8-bit mask, in the low 8 bits.
abbrev pub inv8 : ℕ → ℕ
inv8 m = 255 - m

-- A C flag: `!= 0`.
abbrev pub nonzero : ℕ → Bool
nonzero n = elim n [ zero ↦ false | suc k ↦ true ]
