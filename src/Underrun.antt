-- ===== src/Underrun.antt =====
-- src/rtl_test.c: `underrun_test`, on buffers of the test mode, whose bytes count up.
pub mod Counting
mod Tests
use rtl_sdr_blog.Common.{
  List, Option, Bool, [], none, some, if◌then◌else◌, ltb, length, ℕ, ◌+◌, ◌-◌, ◌==◌, ◌∷◌,
}
use rtl_sdr_blog.Common.Word.{u8, u32}
use rtl_sdr_blog.Common.Cint.{◌>>=◌}

-- The static variables; `bcnt` is `none` before the first buffer.
pub record Counts : Type 0 where
  pub bcnt : Option ℕ
  pub total_samples : ℕ
  pub dropped_samples : ℕ

abbrev pub distance : ℕ → ℕ → ℕ
distance byte bcnt = if ltb bcnt byte then byte - bcnt else bcnt - byte

-- The loop: the next byte that is due, and the number of lost ones.
unfoldable pub count_lost : ℕ → ℕ → List ℕ → ℕ × ℕ
count_lost bcnt lost [] = (bcnt, lost)
count_lost bcnt lost (byte ∷ buf) =
    count_lost (u8 (byte + 1)) (if bcnt == byte then lost else u32 (lost + distance byte bcnt)) buf

-- The first byte is what is due at first; `none` where there is none.
abbrev pub due : Option ℕ → List ℕ → Option ℕ
due (some bcnt) buf = some bcnt
due none [] = none
due none (byte ∷ buf) = some byte

unfoldable pub underrun_test : Counts → List ℕ → Option Counts
underrun_test s buf = do
  bcnt ← due s.bcnt buf
  let end = count_lost bcnt 0 buf
  some (record {
    bcnt = some end.0;
    total_samples = u32 (s.total_samples + length buf);
    dropped_samples = u32 (s.dropped_samples + end.1);
  })

-- Buffers one after the other.
unfoldable pub underrun_tests : Counts → List (List ℕ) → Option Counts
underrun_tests s [] = some s
underrun_tests s (buf ∷ bufs) = do next ← underrun_test s buf; underrun_tests next bufs
