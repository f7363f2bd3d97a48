-- ===== src/Adsb/Manchester/Laws.antt =====
-- The outer loop of `manchester` ends when an error is allowed, since each round moves on.
use rtl_sdr_blog.Common.{
  Bool, List, Option, arith, false, get_or, if◌then◌else◌, length, length-set, ltb, ltb→lt, none,
  refl, set, some, suc, true, zero, ℕ, ◌&&◌, ◌+◌, ◌-◌, ◌/◌, ◌<◌, ◌==◌, ◌∙◌, ◌≡◌, ◌≤◌,
}
use native.Mathlib.Decide.{dec_lt}
use rtl_sdr_blog.Adsb.Manchester.{
  Scan, bad_sample, bits, find, manchester, mark, message_go, next_bit, overwrite, pass, preamble,
  preamble_len, put, round, scan_from,
}

-- The buffer keeps its length, and the index does not go back.
abbrev Moves : Scan → Scan → Type 0
Moves s t = (length t.buf ≡ length s.buf) × (s.i ≤ t.i)

length-mark : (left : ℕ) (buf : List ℕ) (i : ℕ) → length (mark left buf i) ≡ length buf
unfolding mark
length-mark zero buf i = refl
length-mark (suc left) buf i = length-mark left _ (i + 1) ∙ length-set buf i message_go

length-put : (buf : List ℕ) (i i2 bit : ℕ) → length (put buf i i2 bit) ≡ length buf
length-put buf i i2 bit =
    length-set (set (set buf (i + 1) overwrite) i overwrite) i2 bit
    ∙ length-set (set buf (i + 1) overwrite) i overwrite
    ∙ length-set buf (i + 1) overwrite

Moves-if : (test : Bool) (s t u : Scan) → Moves s t → Moves s u → Moves s (if test then t else u)
Moves-if true s t u h k = h
Moves-if false s t u h k = k

find-Moves : (left : ℕ) (s : Scan) → Moves s (find left s)
unfolding find
find-Moves zero s = (refl, omega arith)
find-Moves (suc left) s =
    Moves-if (preamble s.buf s.i) s _ _ (length-mark preamble_len s.buf s.i, omega arith)
      (
        (find-Moves left (record s { i = s.i + 1 })).0,
        omega (arith, (find-Moves left (record s { i = s.i + 1 })).1),
      )

-- The bits take the place of the samples.
abbrev pub SameLength : Scan → Option (List ℕ) → Type 0
SameLength s none = ⊥
SameLength s (some out) = length out ≡ length s.buf

module _ (quality allowed_errors : ℕ) where
  length-pass : (s : Scan) (i2 : ℕ) → length (pass quality s i2).buf ≡ length s.buf
  unfolding pass
  length-pass s i2 = length-put s.buf s.i i2 _

  pass-advance : (s : Scan) (i2 : ℕ) → (pass quality s i2).i ≡ s.i + 2
  unfolding pass
  pass-advance s i2 = refl

  Moves-pass : (s u : Scan) (i2 : ℕ) → Moves (pass quality s i2) u → Moves s u
  Moves-pass s u i2 h = (h.0 ∙ length-pass s i2, omega (arith, h.1, pass-advance s i2))

  -- The rounds after a pair that is passed.
  abbrev rest : ℕ → Scan → ℕ → ℕ → Scan
  rest left s i2 errors =
      bits quality allowed_errors left (pass quality s i2) (i2 + 1)
        (if next_bit quality s == bad_sample then errors + 1 else errors)

  bits-Moves :
      (left : ℕ) (s : Scan) (i2 errors : ℕ) → Moves s (bits quality allowed_errors left s i2 errors)
  unfolding bits
  bits-Moves zero s i2 errors = (refl, omega arith)
  bits-Moves (suc left) s i2 errors =
      Moves-if _ s _ _ (length-set s.buf i2 bad_sample, omega arith)
        (Moves-pass s (rest left s i2 errors) i2 (bits-Moves left (pass quality s i2) (i2 + 1) _))

  -- The first error is allowed, so the first pair of samples is passed.
  bits-advance :
      (left : ℕ) (s : Scan) (i2 : ℕ)
      → 0 < left
      → 1 ≤ allowed_errors
      → s.i < (bits quality allowed_errors left s i2 0).i
  unfolding bits
  bits-advance zero s i2 h k = absurd (omega arith)
  bits-advance (suc left) s i2 h k =
      advance (next_bit quality s == bad_sample) (allowed (next_bit quality s == bad_sample))
    where
      allowed : (bad : Bool) → (bad && ltb allowed_errors (0 + 1)) ≡ false
      allowed bad = ground arith

      onward : s.i < (rest left s i2 0).i
      onward = omega (
        arith,
        pass-advance s i2,
        (bits-Moves left (pass quality s i2) (i2 + 1)
            (if next_bit quality s == bad_sample then 0 + 1 else 0)).1,
      )

      stopped : Scan
      stopped = record {
        buf = set s.buf i2 bad_sample;
        i = s.i;
        a = get_or s.buf s.i 0;
        b = get_or s.buf (s.i + 1) 0;
      }

      advance :
          (bad : Bool)
          → (bad && ltb allowed_errors (0 + 1)) ≡ false
          → s.i < (if bad && ltb allowed_errors (0 + 1) then stopped else rest left s i2 0).i
      advance bad e = rw e onward

  round-advance :
      (s : Scan)
      → s.i < length s.buf - 1
      → 1 ≤ allowed_errors
      → (length (round quality allowed_errors s).buf ≡ length s.buf)
        × (s.i < (round quality allowed_errors s).i)
  unfolding round
  round-advance s h k = (
    (bits-Moves _ found found.i 0).0 ∙ (find-Moves _ s).0,
    elim (dec_lt s.i found.i) [
      | yes moved ↦ omega (arith, (bits-Moves left found found.i 0).1)
      | no stayed ↦ omega (
        arith,
        (find-Moves (length s.buf - preamble_len - s.i) s).1,
        bits-advance left found found.i
            (omega (arith, (find-Moves (length s.buf - preamble_len - s.i) s).1)) k,
      )
    ],
  )
    where
      found : Scan
      found = find (length s.buf - preamble_len - s.i) s

      left : ℕ
      left = (length s.buf - 1 - found.i + 1) / 2

  carry :
      (s u : Scan) (o : Option (List ℕ))
      → length u.buf ≡ length s.buf
      → SameLength u o
      → SameLength s o
  carry s u none size e = e
  carry s u (some out) size e = e ∙ size

  scan_from-SameLength :
      (fuel : ℕ) (s : Scan)
      → length s.buf - 1 - s.i < fuel
      → 1 ≤ allowed_errors
      → SameLength s (scan_from quality allowed_errors fuel s)
  unfolding scan_from
  scan_from-SameLength zero s h k = absurd (omega arith)
  scan_from-SameLength (suc fuel) s h k =
      by_test (ltb s.i (length s.buf - 1)) refl
        λ u size more inside. scan_from-SameLength fuel u (rw size (omega arith)) k
    where
      by_test :
          (test : Bool)
          → ltb s.i (length s.buf - 1) ≡ test
          → ((u : Scan)
              → length u.buf ≡ length s.buf
              → s.i < u.i
              → s.i < length s.buf - 1
              → SameLength u (scan_from quality allowed_errors fuel u))
          → SameLength s (
              if test
              then scan_from quality allowed_errors fuel (round quality allowed_errors s)
              else some s.buf)
      by_test false e later = refl
      by_test true e later =
          carry s (round quality allowed_errors s)
            (scan_from quality allowed_errors fuel (round quality allowed_errors s)) step.0
            (later (round quality allowed_errors s) step.0 step.1 inside)
        where
          inside : s.i < length s.buf - 1
          inside = ltb→lt s.i (length s.buf - 1) e

          step :
              (length (round quality allowed_errors s).buf ≡ length s.buf)
              × (s.i < (round quality allowed_errors s).i)
          step = round-advance s inside k

  -- With at least one error allowed, and at any quality, the Manchester decoder ends on any buffer
  -- (one round for each sample is enough fuel), and leaves a buffer of the same length.
  pub manchester-SameLength :
      (buf : List ℕ)
      → 1 ≤ allowed_errors
      → SameLength
          (record { buf = buf; i = 0; a = 0; b = 0 })
          (manchester quality allowed_errors buf)
  unfolding manchester
  manchester-SameLength buf k =
      scan_from-SameLength (length buf + 1) (record { buf = buf; i = 0; a = 0; b = 0 })
        (omega arith) k
