-- ===== src/Adsb/Manchester.antt =====
-- src/rtl_adsb.c: `single_manchester`, `preamble` and `manchester`. The buffer of magnitudes is
-- overwritten with the bits that were found.
pub mod Laws
use rtl_sdr_blog.Common.{
  Bool, List, Option, false, get_or, if◌then◌else◌, leb, length, ltb, none, not, set, some, suc,
  true, zero, ℕ, ◌&&◌, ◌+◌, ◌-◌, ◌/◌, ◌==◌, ◌||◌,
}

abbrev pub message_go : ℕ
message_go = 253

abbrev pub overwrite : ℕ
overwrite = 254

abbrev pub bad_sample : ℕ
bad_sample = 255

abbrev pub preamble_len : ℕ
preamble_len = 16

abbrev pub bit_of : Bool → ℕ
bit_of b = if b then 1 else 0

-- A bit from two consecutive pairs of samples, at each quality.
unfoldable pub single_manchester : ℕ → ℕ → ℕ → ℕ → ℕ → ℕ
single_manchester quality a b c d =
    let bit_p = ltb b a in
    let bit = ltb d c in
    if quality == 0
    then bit_of bit
    else if quality == 5
    then if (bit && bit_p && ltb c b) || (not bit && not bit_p && ltb b c)
      then bad_sample
      else bit_of bit
    else if quality == 10
    then if (bit && bit_p && ltb b c) || (bit && not bit_p && ltb d b)
      then 1
      else if (not bit && bit_p && ltb b d) || (not bit && not bit_p && ltb c b)
      then 0
      else bad_sample
    else if (bit && bit_p && ltb b c && ltb d a) || (bit && not bit_p && ltb a c && ltb d b)
    then 1
    else if (not bit && bit_p && ltb c a && ltb b d) || (not bit && not bit_p && ltb c b && ltb a d)
    then 0
    else bad_sample

-- The places of the preamble's pulses.
abbrev pub is_pulse : ℕ → Bool
is_pulse i2 = (i2 == 0) || (i2 == 2) || (i2 == 7) || (i2 == 9)

-- The loop of `preamble`, with the places left.
unfoldable pub preamble_from : ℕ → List ℕ → ℕ → ℕ → ℕ → ℕ → Bool
preamble_from zero buf i i2 low high = true
preamble_from (suc left) buf i i2 low high =
    let v = get_or buf (i + i2) 0 in
    let high' = if is_pulse i2 then v else high in
    let low' = if is_pulse i2 then low else v in
    let rest = preamble_from left buf i (i2 + 1) low' high' in
    if leb high' low' then false else rest

unfoldable pub preamble : List ℕ → ℕ → Bool
unfolding preamble_from
preamble buf i = preamble_from preamble_len buf i 0 0 65535

-- What the loops of `manchester` keep.
pub record Scan : Type 0 where
  pub buf : List ℕ
  pub i : ℕ
  pub a : ℕ
  pub b : ℕ

-- The loop that marks the preamble.
unfoldable pub mark : ℕ → List ℕ → ℕ → List ℕ
mark zero buf i = buf
mark (suc left) buf i = mark left (set buf i message_go) (i + 1)

-- The search for a preamble; the rounds left are `len - preamble_len - i`.
unfoldable pub find : ℕ → Scan → Scan
unfolding preamble mark
find zero s = s
find (suc left) s =
    let next = find left (record s { i = s.i + 1 }) in
    if preamble s.buf s.i
    then record {
      buf = mark preamble_len s.buf s.i;
      i = s.i + preamble_len;
      a = get_or s.buf s.i 0;
      b = get_or s.buf (s.i + 1) 0;
    }
    else next

-- `buf[i] = buf[i+1] = OVERWRITE; buf[i2] = bit;`
abbrev pub put : List ℕ → ℕ → ℕ → ℕ → List ℕ
put buf i i2 bit = set (set (set buf (i + 1) overwrite) i overwrite) i2 bit

abbrev pub next_bit : ℕ → Scan → ℕ
next_bit quality s =
    single_manchester quality s.a s.b (get_or s.buf s.i 0) (get_or s.buf (s.i + 1) 0)

-- A pair of samples that is passed. After an error the old values match neither bit.
unfoldable pub pass : ℕ → Scan → ℕ → Scan
unfolding single_manchester
pass quality s i2 =
    let c = get_or s.buf s.i 0 in
    let d = get_or s.buf (s.i + 1) 0 in
    let bad = next_bit quality s == bad_sample in
    record {
      buf = put s.buf s.i i2 (if bad then bit_of (ltb d c) else next_bit quality s);
      i = s.i + 2;
      a = if bad then 0 else c;
      b = if bad then 65535 else d;
    }

-- The loop that marks bits; the rounds left are those with `i < len - 1`.
unfoldable pub bits : ℕ → ℕ → ℕ → Scan → ℕ → ℕ → Scan
unfolding pass
bits quality allowed_errors zero s i2 errors = s
bits quality allowed_errors (suc left) s i2 errors =
    let bad = next_bit quality s == bad_sample in
    let next =
      bits quality allowed_errors left (pass quality s i2) (i2 + 1)
        (if bad then errors + 1 else errors) in
    if bad && ltb allowed_errors (errors + 1)
    then record {
      buf = set s.buf i2 bad_sample;
      i = s.i;
      a = get_or s.buf s.i 0;
      b = get_or s.buf (s.i + 1) 0;
    }
    else next

-- One round of the outer loop.
unfoldable pub round : ℕ → ℕ → Scan → Scan
unfolding find bits
round quality allowed_errors s =
    let len = length s.buf in
    let t = find (len - preamble_len - s.i) s in
    bits quality allowed_errors ((len - 1 - t.i + 1) / 2) t t.i 0

-- The outer loop; `none` where the fuel runs out.
unfoldable pub scan_from : ℕ → ℕ → ℕ → Scan → Option (List ℕ)
unfolding round
scan_from quality allowed_errors zero s = none
scan_from quality allowed_errors (suc fuel) s =
    let next = scan_from quality allowed_errors fuel (round quality allowed_errors s) in
    if ltb s.i (length s.buf - 1) then next else some s.buf

unfoldable pub manchester : ℕ → ℕ → List ℕ → Option (List ℕ)
unfolding scan_from
manchester quality allowed_errors buf =
    scan_from quality allowed_errors (length buf + 1) (record { buf = buf; i = 0; a = 0; b = 0 })
