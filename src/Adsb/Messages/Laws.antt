-- ===== src/Adsb/Messages/Laws.antt =====
-- The frames of `messages` in src/rtl_adsb.c: no index out of range, and an end.
use rtl_sdr_blog.Common.{
  Bool-cases, List, Option, [], arith, bit_or, drop, false, get_elem?, get_or, if◌then◌else◌, inl,
  inr, leb, length, length-drop, length-set, ltb, none, refl, set, some, suc, true, zero, ℕ, ◌%◌,
  ◌&&◌, ◌+◌, ◌-◌, ◌/◌, ◌<◌, ◌==◌, ◌^◌, ◌∙◌, ◌∷◌, ◌≡◌, ◌≤◌, ◌⊎◌,
}
use rtl_sdr_blog.Common.Word.{nonzero, u8}
use rtl_sdr_blog.Adsb.Messages.{
  Run, collect, empty_frame, is_complete, long_frame, messages, next_len, put_bit,
}

-- No more bits than the frame holds, of 14 bytes, of one of the two lengths.
abbrev pub IsRun : List ℕ → Run → Type 0
IsRun buf r =
    (length r.rest ≤ length buf)
    × (length r.frame ≡ 14)
    × (r.data_i ≤ r.frame_len)
    × ((r.frame_len ≡ 112) ⊎ (r.frame_len ≡ 56))

abbrev pub Ends : List ℕ → Option Run → Type 0
Ends buf none = ⊥
Ends buf (some r) = IsRun buf r

get_elem?-inside {ℓ} :
    {A : Type ℓ} (xs : List A) (i : ℕ) → i < length xs → (a : A) × (get_elem? xs i ≡ some a)
get_elem?-inside [] i h = absurd (omega arith)
get_elem?-inside (x ∷ xs) zero h = (x, refl)
get_elem?-inside (x ∷ xs) (suc i) h = get_elem?-inside xs i (omega arith)

put_bit_inside :
    (bit : ℕ) (frame : List ℕ) (data_i : ℕ)
    → length frame ≡ 14
    → data_i < 112
    → (f : List ℕ) × (put_bit bit frame data_i ≡ some f) × (length f ≡ 14)
unfolding put_bit
put_bit_inside bit frame data_i h k = elim (Bool-cases (nonzero bit)) [
  | inr clear ↦ (frame, rw clear refl, h)
  | inl one ↦ (
    set frame (data_i / 8) (bit_or byte.0 (u8 (2 ^ (7 - data_i % 8)))),
    rw (one, byte.1) refl,
    length-set frame (data_i / 8) _ ∙ h,
  )
]
  where
    byte : (v : ℕ) × (get_elem? frame (data_i / 8) ≡ some v)
    byte = get_elem?-inside frame (data_i / 8) (omega arith)

next_len_inside :
    (data_i : ℕ) (frame : List ℕ) (frame_len : ℕ)
    → data_i < frame_len
    → (frame_len ≡ 112) ⊎ (frame_len ≡ 56)
    → (data_i + 1 ≤ next_len data_i frame frame_len)
      × ((next_len data_i frame frame_len ≡ 112) ⊎ (next_len data_i frame frame_len ≡ 56))
next_len_inside data_i frame frame_len h k = ground arith

collect-Ends :
    (buf frame : List ℕ) (data_i frame_len : ℕ)
    → length frame ≡ 14
    → data_i ≤ frame_len
    → (frame_len ≡ 112) ⊎ (frame_len ≡ 56)
    → Ends buf (collect buf frame data_i frame_len)
unfolding collect
collect-Ends [] frame data_i frame_len h k l = (omega arith, h, k, l)
collect-Ends (b ∷ buf) frame data_i frame_len h k l =
    elim (Bool-cases (leb b 1 && ltb data_i frame_len)) [
      | inr other ↦ rw (other, collect) (omega arith, h, k, l)
      | inl a_bit ↦
          after (λ f n. collect-Ends buf f (data_i + 1) n) a_bit (ground arith)
            (put_bit_inside b frame data_i h (ground arith))
    ]
  where
    Ends-tail : (r : Option Run) → Ends buf r → Ends (b ∷ buf) r
    Ends-tail none e = e
    Ends-tail (some r) e = (omega arith, e.1, e.2, e.3)

    after :
        ((f : List ℕ) (n : ℕ)
          → length f ≡ 14
          → data_i + 1 ≤ n
          → (n ≡ 112) ⊎ (n ≡ 56)
          → Ends buf (collect buf f (data_i + 1) n))
        → (leb b 1 && ltb data_i frame_len) ≡ true
        → data_i < frame_len
        → (f : List ℕ) × (put_bit b frame data_i ≡ some f) × (length f ≡ 14)
        → Ends (b ∷ buf) (collect (b ∷ buf) frame data_i frame_len)
    after rest a_bit less (f, e, size) =
        rw (a_bit, collect, e)
          (elim (Bool-cases ((data_i == 7) && (get_or f 0 0 == 0))) [
            | inl stop ↦ rw (stop, collect) (omega arith, size, k, l)
            | inr on ↦
                rw (on, collect)
                  (Ends-tail (collect buf f (data_i + 1) (next_len data_i f frame_len)) (
                    rest f (next_len data_i f frame_len) size
                      (next_len_inside data_i f frame_len less l).0
                      (next_len_inside data_i f frame_len less l).1))
          ])

-- The frames that are displayed have 14 bytes and one of the two lengths.
abbrev pub Frames : List (List ℕ × ℕ) → Type 0
Frames [] = Unit {0}
Frames ((frame, len) ∷ rest) = (length frame ≡ 14) × ((len ≡ 112) ⊎ (len ≡ 56)) × Frames rest

abbrev pub Decoded : Option (List (List ℕ × ℕ)) → Type 0
Decoded none = ⊥
Decoded (some frames) = Frames frames

-- With fuel for each sample of any buffer, the decoder of ADS-B messages ends without an index out
-- of range, and each frame that it hands on has 14 bytes and a length of 112 or 56 bits.
pub messages-Decoded : (fuel : ℕ) (buf : List ℕ) → length buf ≤ fuel → Decoded (messages fuel buf)
unfolding messages
messages-Decoded zero [] h = tt
messages-Decoded (suc fuel) [] h = tt
messages-Decoded zero (b ∷ buf) h = absurd (omega arith)
messages-Decoded (suc fuel) (b ∷ buf) h = elim (Bool-cases (ltb 1 b)) [
  | inl no_bit ↦ rw (no_bit, messages) (messages-Decoded fuel buf (omega arith))
  | inr a_bit ↦
      after (messages-Decoded fuel) a_bit (collect (b ∷ buf) empty_frame 0 long_frame) refl
        (collect-Ends (b ∷ buf) empty_frame 0 long_frame refl (omega arith) (inl refl))
]
  where
    with_frame :
        (r : Run) (o : Option (List (List ℕ × ℕ)))
        → IsRun (b ∷ buf) r
        → Decoded o
        → Decoded (elim o [
          | none ↦ none
          | some frames ↦ some (if is_complete r then (r.frame, r.frame_len) ∷ frames else frames)
        ])
    with_frame r none run d = d
    with_frame r (some frames) run d = elim (Bool-cases (is_complete r)) [
      | inl complete ↦ rw complete (run.1, run.3, d)
      | inr short ↦ rw short d
    ]

    after :
        ((rest : List ℕ) → length rest ≤ fuel → Decoded (messages fuel rest))
        → ltb 1 b ≡ false
        → (o : Option Run) → collect (b ∷ buf) empty_frame 0 long_frame ≡ o
        → Ends (b ∷ buf) o
        → Decoded (messages (suc fuel) (b ∷ buf))
    after later a_bit none e ends = absurd ends
    after later a_bit (some r) e ends =
        rw (a_bit, messages, e)
          (with_frame r (messages fuel (drop 1 r.rest)) ends
            (later (drop 1 r.rest) (omega (arith, length-drop 1 r.rest, ends.0))))
