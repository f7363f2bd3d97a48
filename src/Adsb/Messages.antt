-- ===== src/Adsb/Messages.antt =====
-- src/rtl_adsb.c, `messages` and `display`: packing runs of bits into frames. The rest of the buffer
-- stands for the index `i`.
pub mod Laws
use rtl_sdr_blog.Common.{
  Bool, List, Option, [], bit_and, bit_or, drop, false, get_elem?, get_or, if◌then◌else◌, leb, ltb,
  none, not, set, some, suc, take, true, zero, ℕ, ◌%◌, ◌&&◌, ◌+◌, ◌-◌, ◌/◌, ◌==◌, ◌^◌, ◌||◌, ◌∷◌,
}
use rtl_sdr_blog.Common.Word.{nonzero, u8}

abbrev pub long_frame : ℕ
long_frame = 112

abbrev pub short_frame : ℕ
short_frame = 56

abbrev pub empty_frame : List ℕ
empty_frame = 0 ∷ 0 ∷ 0 ∷ 0 ∷ 0 ∷ 0 ∷ 0 ∷ 0 ∷ 0 ∷ 0 ∷ 0 ∷ 0 ∷ 0 ∷ 0 ∷ []

-- `adsb_frame[index] |= 1 << shift`; `none` for an index out of range.
unfoldable pub put_bit : ℕ → List ℕ → ℕ → Option (List ℕ)
put_bit bit frame data_i =
    if nonzero bit
    then elim (get_elem? frame (data_i / 8)) [
      | none ↦ none
      | some byte ↦ some (set frame (data_i / 8) (bit_or byte (u8 (2 ^ (7 - data_i % 8)))))
    ]
    else some frame

-- A run of bits: what follows it, the frame, the number of its bits and their number when complete.
pub record Run : Type 0 where
  pub rest : List ℕ
  pub frame : List ℕ
  pub data_i : ℕ
  pub frame_len : ℕ

-- The length of the frame once its first byte is complete.
abbrev pub next_len : ℕ → List ℕ → ℕ → ℕ
next_len data_i frame frame_len =
    if data_i == 7
    then if nonzero (bit_and (get_or frame 0 0) 0x80) then long_frame else short_frame
    else frame_len

-- The inner loop. A first byte of 0 ends it before the next bit.
unfoldable pub collect : List ℕ → List ℕ → ℕ → ℕ → Option Run
unfolding put_bit
collect [] frame data_i frame_len =
    some (record { rest = []; frame = frame; data_i = data_i; frame_len = frame_len })
collect (b ∷ buf) frame data_i frame_len = elim (leb b 1 && ltb data_i frame_len) [
  | false ↦ some (record { rest = b ∷ buf; frame = frame; data_i = data_i; frame_len = frame_len })
  | true ↦ elim (put_bit b frame data_i) [
    | none ↦ none
    | some frame' ↦ elim ((data_i == 7) && (get_or frame' 0 0 == 0)) [
      | true ↦
          some (record { rest = b ∷ buf; frame = frame'; data_i = data_i; frame_len = frame_len })
      | false ↦ collect buf frame' (data_i + 1) (next_len data_i frame' frame_len)
    ]
  ]
]

abbrev pub is_complete : Run → Bool
is_complete r = not (ltb r.data_i (r.frame_len - 1))

-- The outer loop: the frames that are displayed, with their lengths. Each round begins at a sample
-- and goes on after the one that ended the run; `none` where the fuel runs out.
unfoldable pub messages : ℕ → List ℕ → Option (List (List ℕ × ℕ))
unfolding collect
messages fuel [] = some []
messages zero (b ∷ buf) = none
messages (suc fuel) (b ∷ buf) = elim (ltb 1 b) [
  | true ↦ messages fuel buf
  | false ↦ elim (collect (b ∷ buf) empty_frame 0 long_frame) [
    | none ↦ none
    | some r ↦ elim (messages fuel (drop 1 r.rest)) [
      | none ↦ none
      | some frames ↦ some (if is_complete r then (r.frame, r.frame_len) ∷ frames else frames)
    ]
  ]
]

-- The bytes that `display` prints in hexadecimal, if it prints the frame.
unfoldable pub display : Bool → ℕ → List ℕ → ℕ → Option (List ℕ)
display short_output quality frame len =
    let df = bit_and (get_or frame 0 0 / 2 ^ 3) 0x1f in
    if not short_output && leb len short_frame
    then none
    else if (quality == 0) && not ((df == 11) || (df == 17) || (df == 18) || (df == 19))
    then none
    else some (take ((len + 7) / 8) frame)
