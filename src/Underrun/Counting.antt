-- ===== src/Underrun/Counting.antt =====
-- Bytes are lost exactly where the stream does not count up.
use rtl_sdr_blog.Common.{
  List, Option, [], none, some, if◌then◌else◌, length, arith, ℕ, ◌+◌, ◌*◌, ◌==◌, ◌∷◌, ◌++◌, ◌≡◌,
  ◌≤◌, ◌<◌, ◌^◌, refl,
}
use rtl_sdr_blog.Common.Word.{u8, u32}
use rtl_sdr_blog.Underrun.{Counts, count_lost, distance, underrun_test, underrun_tests}

-- Bytes that count up from one on, modulo 256.
abbrev pub IsCounting : ℕ → List ℕ → Type 0
IsCounting c [] = Unit
IsCounting c (byte ∷ buf) = (c ≡ byte) × IsCounting (u8 (byte + 1)) buf

abbrev pub AreBytes : List ℕ → Type 0
AreBytes [] = Unit
AreBytes (byte ∷ buf) = (byte < 256) × AreBytes buf

-- What is lost on top of what was lost before, and whether nothing is.
abbrev IsLoss : ℕ → ℕ → List ℕ → ℕ × ℕ → Type 0
IsLoss bcnt lost buf end =
    (lost ≤ end.1)
    × (end.1 ≤ lost + 255 * length buf)
    × (end.0 < 256)
    × (end.1 ≡ lost → IsCounting bcnt buf)
    × (IsCounting bcnt buf → end.1 ≡ lost)

-- A byte: nothing is added exactly where it is the one that is due.
step :
    (bcnt lost byte : ℕ)
    → bcnt < 256
    → byte < 256
    → lost + 255 < 2 ^ 32
    → let next = if bcnt == byte then lost else u32 (lost + distance byte bcnt) in
      (lost ≤ next)
      × (next ≤ lost + 255)
      × (next ≡ lost → bcnt ≡ byte)
      × (bcnt ≡ byte → next ≡ lost)
step bcnt lost byte low small room = ground arith

count_lost-IsLoss :
    (bcnt lost : ℕ) (buf : List ℕ)
    → AreBytes buf
    → bcnt < 256
    → lost + 255 * length buf < 2 ^ 32
    → IsLoss bcnt lost buf (count_lost bcnt lost buf)
unfolding count_lost
count_lost-IsLoss bcnt lost [] bytes low small =
    (omega arith, omega arith, low, (λ h. tt), (λ h. refl))
count_lost-IsLoss bcnt lost (byte ∷ buf) bytes low small =
    let next = if bcnt == byte then lost else u32 (lost + distance byte bcnt) in
    let s = step bcnt lost byte low bytes.0 (omega (arith, small)) in
    let rest =
      count_lost-IsLoss (u8 (byte + 1)) next buf bytes.1 (omega arith)
        (omega (arith, small, s.1)) in
    (
      omega (arith, s.0, rest.0),
      omega (arith, s.1, rest.1),
      rest.2,
      (λ h. (s.2 (omega (arith, h, s.0, rest.0)), rest.3 (omega (arith, h, s.0, rest.0)))),
      (λ h. omega (arith, s.3 h.0, rest.4 h.1)),
    )

-- The byte that is due after a buffer that counts up.
IsCounting-append :
    (bcnt lost : ℕ) (buf rest : List ℕ)
    → IsCounting bcnt (buf ++ rest)
    → IsCounting bcnt buf × IsCounting (count_lost bcnt lost buf).0 rest
unfolding count_lost
IsCounting-append bcnt lost [] rest h = (tt, h)
IsCounting-append bcnt lost (byte ∷ buf) rest h =
    let later =
      IsCounting-append (u8 (byte + 1))
        (if bcnt == byte then lost else u32 (lost + distance byte bcnt)) buf rest h.1 in
    ((h.0, later.0), later.1)

append-IsCounting :
    (bcnt lost : ℕ) (buf rest : List ℕ)
    → IsCounting bcnt buf
    → IsCounting (count_lost bcnt lost buf).0 rest
    → IsCounting bcnt (buf ++ rest)
unfolding count_lost
append-IsCounting bcnt lost [] rest h k = k
append-IsCounting bcnt lost (byte ∷ buf) rest h k = (
  h.0,
  append-IsCounting (u8 (byte + 1)) (if bcnt == byte then lost else u32 (lost + distance byte bcnt))
      buf rest h.1 k,
)

-- A stream in buffers.
abbrev pub stream : List (List ℕ) → List ℕ
stream [] = []
stream (buf ∷ bufs) = buf ++ stream bufs

abbrev pub AllBytes : List (List ℕ) → Type 0
AllBytes [] = Unit
AllBytes (buf ∷ bufs) = AreBytes buf × AllBytes bufs

-- What the buffers come to from a state in which a byte is due.
record Ran (bcnt dropped : ℕ) (bufs : List (List ℕ)) (o : Option Counts) : Type 0 where
  end : Counts
  returned : o ≡ some end
  no_less : dropped ≤ end.dropped_samples
  none_lost : end.dropped_samples ≡ dropped → IsCounting bcnt (stream bufs)
  counting : IsCounting bcnt (stream bufs) → end.dropped_samples ≡ dropped

abbrev pub bytes_in : List (List ℕ) → ℕ
bytes_in [] = 0
bytes_in (buf ∷ bufs) = length buf + bytes_in bufs

underrun_tests-Ran :
    (bcnt total dropped : ℕ) (bufs : List (List ℕ))
    → AllBytes bufs
    → bcnt < 256
    → dropped + 255 * bytes_in bufs < 2 ^ 32
    → Ran bcnt dropped bufs (
        underrun_tests
          (record { bcnt = some bcnt; total_samples = total; dropped_samples = dropped })
          bufs)
unfolding underrun_tests underrun_test
underrun_tests-Ran bcnt total dropped [] bytes low small = record {
  end = record { bcnt = some bcnt; total_samples = total; dropped_samples = dropped };
  returned = refl;
  no_less = omega arith;
  none_lost = λ h. tt;
  counting = λ h. refl;
}
underrun_tests-Ran bcnt total dropped (buf ∷ bufs) bytes low small =
    let loss = count_lost-IsLoss bcnt 0 buf bytes.0 low (omega (arith, small)) in
    let lost = (count_lost bcnt 0 buf).1 in
    let due_next = (count_lost bcnt 0 buf).0 in
    let sum = u32_sum lost (omega (arith, loss.1, small)) in
    let rest =
      underrun_tests-Ran due_next (u32 (total + length buf)) (u32 (dropped + lost)) bufs bytes.1
        loss.2 (omega (arith, loss.1, small, sum)) in
    record {
      end = rest.end;
      returned = rest.returned;
      no_less = omega (arith, rest.no_less, sum);
      none_lost = λ h.
          append-IsCounting bcnt 0 buf (stream bufs) (loss.3 (omega (arith, h, rest.no_less, sum)))
            (rest.none_lost (omega (arith, h, rest.no_less, sum)));
      counting = λ h.
          let parts = IsCounting-append bcnt 0 buf (stream bufs) h in
          omega (arith, rest.counting parts.1, loss.4 parts.0, sum);
    }
  where
    u32_sum : (lost : ℕ) → dropped + lost < 2 ^ 32 → u32 (dropped + lost) ≡ dropped + lost
    u32_sum lost room = omega arith

-- From the start of the program, over any buffers of fewer than 2^24 bytes together, of which the
-- first has a byte, `underrun_test` reads no byte out of range, and it counts no lost bytes
-- exactly where the whole stream counts up from its first byte, modulo 256, across the ends of the
-- buffers.
pub underrun_tests-IsCounting :
    (first : ℕ) (buf : List ℕ) (bufs : List (List ℕ))
    → AllBytes ((first ∷ buf) ∷ bufs)
    → bytes_in ((first ∷ buf) ∷ bufs) < 2 ^ 24
    → (end : Counts) × (underrun_tests
          (record { bcnt = none; total_samples = 0; dropped_samples = 0 })
          ((first ∷ buf) ∷ bufs)
        ≡ some end)
      × (end.dropped_samples ≡ 0 → IsCounting first (stream ((first ∷ buf) ∷ bufs)))
      × (IsCounting first (stream ((first ∷ buf) ∷ bufs)) → end.dropped_samples ≡ 0)
unfolding underrun_tests underrun_test
underrun_tests-IsCounting first buf bufs bytes small =
    let ran =
      underrun_tests-Ran first 0 0 ((first ∷ buf) ∷ bufs) bytes bytes.0.0 (omega (arith, small)) in
    (ran.end, ran.returned, ran.none_lost, ran.counting)
