-- ===== src/Demod/Fir.antt =====
-- src/librtlsdr.c, `rtlsdr_set_fir`: the coefficients of the FIR filter, 8 of 8 bits and 8 of 12
-- bits, packed into 20 bytes.
pub mod Digits
pub mod Laws
use rtl_sdr_blog.Common.{
  Bool, List, Option, [], bit_and, bit_or, drop, if◌then◌else◌, ltb, none, some, take, ℕ, ◌%◌, ◌&&◌,
  ◌*◌, ◌++◌, ◌+◌, ◌-◌, ◌/◌, ◌^◌, ◌∷◌,
}
use rtl_sdr_blog.Common.Int.{negsuc, pos, ℤ}
use rtl_sdr_blog.Common.Word.{u8}
use rtl_sdr_blog.State.{Host, M, fail, get, pure, ◌>>=◌, ◌>>◌}
use rtl_sdr_blog.Usb.{demod_write_reg}

abbrev pub fir_default : List ℤ
fir_default =
    negsuc 53
    ∷ negsuc 35
    ∷ negsuc 40
    ∷ negsuc 39
    ∷ negsuc 31
    ∷ negsuc 13
    ∷ pos 14
    ∷ pos 53
    ∷ pos 101
    ∷ pos 156
    ∷ pos 215
    ∷ pos 273
    ∷ pos 327
    ∷ pos 372
    ∷ pos 404
    ∷ pos 421
    ∷ []

-- The low byte of a value, in two's complement.
unfoldable pub to_u8 : ℤ → ℕ
to_u8 (pos n) = n % 2 ^ 8
to_u8 (negsuc n) = 255 - n % 2 ^ 8

-- `val >> k`, which keeps the sign.
unfoldable pub sar : ℤ → ℕ → ℤ
sar (pos n) k = pos (n / 2 ^ k)
sar (negsuc n) k = negsuc (n / 2 ^ k)

-- `val >= -half && val < half`.
unfoldable pub in_range : ℕ → ℤ → Bool
in_range half (pos n) = ltb n half
in_range half (negsuc n) = ltb n half

-- The first loop: the rest of the coefficients, or -1.
unfoldable pub pack8 : List ℤ → Option (List ℕ)
pack8 [] = some []
pack8 (val ∷ vals) = elim (pack8 vals) [
  | none ↦ none
  | some bytes ↦ if in_range 128 val then some (to_u8 val ∷ bytes) else none
]

-- Two coefficients of 12 bits in three bytes.
unfoldable pub pack_pair : ℤ → ℤ → List ℕ → List ℕ
pack_pair val0 val1 bytes =
    to_u8 (sar val0 4)
    ∷ u8 (bit_or (u8 (16 * to_u8 val0)) (bit_and (to_u8 (sar val1 8)) 0x0f))
    ∷ to_u8 val1
    ∷ bytes

-- The second loop.
unfoldable pub pack12 : List ℤ → Option (List ℕ)
pack12 (val0 ∷ val1 ∷ vals) = elim (pack12 vals) [
  | none ↦ none
  | some bytes ↦
      if in_range 2048 val0 && in_range 2048 val1 then some (pack_pair val0 val1 bytes) else none
]
pack12 (val0 ∷ []) = none
pack12 [] = some []

unfoldable pub fir_bytes : List ℤ → Option (List ℕ)
fir_bytes fir = elim (pack8 (take 8 fir)) [
  | none ↦ none
  | some low ↦ elim (pack12 (drop 8 fir)) [ none ↦ none | some high ↦ some (low ++ high) ]
]

module _ (host : Host) where
  -- The loop that writes the bytes. The only error of a demodulator write is -1.
  unfoldable pub write_fir : ℕ → List ℕ → M (Unit {0})
  write_fir addr [] = pure tt
  write_fir addr (byte ∷ bytes) = do demod_write_reg host 1 addr byte 1; write_fir (addr + 1) bytes

  unfoldable pub put_fir : Option (List ℕ) → M (Unit {0})
  put_fir none = fail 0
  put_fir (some bytes) = write_fir 0x1c bytes

  unfoldable pub set_fir : M (Unit {0})
  set_fir = do d ← get; put_fir (fir_bytes d.fir)
