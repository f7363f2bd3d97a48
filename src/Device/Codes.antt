-- ===== src/Device/Codes.antt =====
-- Return values that are kept and combined: `r = f(); ... r |= g(); return r;`.
use rtl_sdr_blog.Common.{Bool, bit_and, false, true, ℕ, ◌-◌, ◌^◌}
use rtl_sdr_blog.State.{M, err, fail, fault, ok, pure, ◌>>=◌}

-- A return value as data: 0, or -(n + 1).
pub data Code : Type 0 where
  zero_code : Code
  minus : ℕ → Code

-- The return value 1, which has the bits of -(2^32 - 1).
abbrev pub one : ℕ
one = 2 ^ 32 - 2

-- The bits of -(n + 1) and -(m + 1) together are those of -((n & m) + 1).
abbrev pub or_code : Code → Code → Code
or_code zero_code c = c
or_code (minus n) zero_code = minus n
or_code (minus n) (minus m) = minus (bit_and n m)

abbrev pub is_zero : Code → Bool
is_zero zero_code = true
is_zero (minus n) = false

-- A call whose return value is kept.
abbrev pub attempt : M (Unit {0}) → M Code
attempt m d = elim (m d) [ ok a e ↦ ok zero_code e | err n e ↦ ok (minus n) e | fault ↦ fault ]

abbrev pub return_code : Code → M (Unit {0})
return_code zero_code = pure tt
return_code (minus n) = fail n

-- `r = m; r |= k; return r;`
infixl 6 ◌|=◌
abbrev pub ◌|=◌ : M (Unit {0}) → M (Unit {0}) → M (Unit {0})
m |= k = attempt m >>= λ r. attempt k >>= λ s. return_code (or_code r s)
