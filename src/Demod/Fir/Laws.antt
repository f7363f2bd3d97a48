-- ===== src/Demod/Fir/Laws.antt =====
-- The packing of the FIR coefficients loses nothing, and refuses exactly what does not fit.
use rtl_sdr_blog.Common.{
  Bool, Bool-cases, List, Option, [], ap, arith, drop, false, if◌then◌else◌, inl, inr, length,
  length-append, length-drop, length-take, none, refl, some, suc, take, take-append-drop, true,
  zero, ℕ, ◌&&◌, ◌*◌, ◌++◌, ◌∙◌, ◌∷◌, ◌≡◌,
}
use rtl_sdr_blog.Common.Int.{ℤ}
use rtl_sdr_blog.Demod.Fir.{fir_bytes, in_range, pack12, pack8, pack_pair, put_fir, set_fir, to_u8}
use rtl_sdr_blog.State.{Dev, Host, err, get}
use rtl_sdr_blog.Demod.Fir.Digits.{signed-to_u8, unpack12, unpack12-pack_pair, unpack8}

both : (a b : Bool) → a ≡ true → b ≡ true → (a && b) ≡ true
both a b h k = ground arith

not_left : (a b : Bool) → a ≡ false → (a && b) ≡ false
not_left a b h = ground arith

not_right : (a b : Bool) → b ≡ false → (a && b) ≡ false
not_right a b h = ground arith

regroup : (a b c : Bool) (r : Bool) → (a && b && c) ≡ r → (a && (b && c)) ≡ r
regroup a b c r h = ground arith

abbrev pub all_in : ℕ → List ℤ → Bool
all_in half [] = true
all_in half (v ∷ vs) = in_range half v && all_in half vs

abbrev Packed8 : List ℤ → Option (List ℕ) → Type 0
Packed8 vals none = all_in 128 vals ≡ false
Packed8 vals (some bytes) =
    (all_in 128 vals ≡ true) × (unpack8 bytes ≡ vals) × (length bytes ≡ length vals)

pack8-Packed8 : (vals : List ℤ) → Packed8 vals (pack8 vals)
unfolding pack8
pack8-Packed8 [] = (refl, refl, refl)
pack8-Packed8 (val ∷ vals) = step (pack8 vals) (pack8-Packed8 vals)
  where
    step :
        (o : Option (List ℕ))
        → Packed8 vals o
        → Packed8 (val ∷ vals) (elim o [
          | none ↦ none
          | some bytes ↦ if in_range 128 val then some (to_u8 val ∷ bytes) else none
        ])
    step none h = not_right (in_range 128 val) (all_in 128 vals) h
    step (some bytes) h = elim (Bool-cases (in_range 128 val)) [
      | inl good ↦ rw good (
        both (in_range 128 val) (all_in 128 vals) good h.0,
        rw (h.1, signed-to_u8 val good) refl,
        ap suc h.2,
      )
      | inr bad ↦ rw bad (not_left (in_range 128 val) (all_in 128 vals) bad)
    ]

abbrev Packed12 : List ℤ → Option (List ℕ) → Type 0
Packed12 vals none = all_in 2048 vals ≡ false
Packed12 vals (some bytes) =
    (all_in 2048 vals ≡ true) × (unpack12 bytes ≡ vals) × (2 * length bytes ≡ 3 * length vals)

abbrev IsEven : List ℤ → Type 0
IsEven [] = Unit {0}
IsEven (v ∷ []) = ⊥
IsEven (v ∷ w ∷ vals) = IsEven vals

pack12-Packed12 : (vals : List ℤ) → IsEven vals → Packed12 vals (pack12 vals)
unfolding pack12 pack_pair
pack12-Packed12 [] h = (refl, refl, refl)
pack12-Packed12 (v ∷ []) h = absurd h
pack12-Packed12 (v ∷ w ∷ vals) even = step (pack12 vals) (pack12-Packed12 vals even)
  where
    step :
        (o : Option (List ℕ))
        → Packed12 vals o
        → Packed12 (v ∷ w ∷ vals) (elim o [
          | none ↦ none
          | some bytes ↦
              if in_range 2048 v && in_range 2048 w then some (pack_pair v w bytes) else none
        ])
    step none h =
        not_right (in_range 2048 v) (in_range 2048 w && all_in 2048 vals)
          (not_right (in_range 2048 w) (all_in 2048 vals) h)
    step (some bytes) h = elim (Bool-cases (in_range 2048 v && in_range 2048 w)) [
      | inl good ↦ rw good (
        regroup (in_range 2048 v) (in_range 2048 w) (all_in 2048 vals) true
            (both (in_range 2048 v && in_range 2048 w) (all_in 2048 vals) good h.0),
        unpack12-pack_pair v w bytes good ∙ ap (λ l. v ∷ w ∷ l) h.1,
        omega (arith, h.2),
      )
      | inr bad ↦ rw bad (
          regroup (in_range 2048 v) (in_range 2048 w) (all_in 2048 vals) false
            (not_left (in_range 2048 v && in_range 2048 w) (all_in 2048 vals) bad))
    ]

-- The coefficients that the packed bytes stand for, or that one is out of range.
abbrev pub Packed : List ℤ → Option (List ℕ) → Type 0
Packed fir none = (all_in 128 (take 8 fir) && all_in 2048 (drop 8 fir)) ≡ false
Packed fir (some bytes) =
    ((all_in 128 (take 8 fir) && all_in 2048 (drop 8 fir)) ≡ true)
    × (unpack8 (take 8 bytes) ++ unpack12 (drop 8 bytes) ≡ fir)
    × (length bytes ≡ 20)

take-append :
    (xs ys : List ℕ) (n : ℕ) → length xs ≡ n → (take n (xs ++ ys) ≡ xs) × (drop n (xs ++ ys) ≡ ys)
take-append [] ys zero h = (refl, refl)
take-append [] ys (suc n) h = absurd (omega arith)
take-append (x ∷ xs) ys zero h = absurd (omega arith)
take-append (x ∷ xs) ys (suc n) h =
    (ap (◌∷◌ x) (take-append xs ys n (omega arith)).0, (take-append xs ys n (omega arith)).1)

length-IsEven : (vals : List ℤ) (k : ℕ) → length vals ≡ 2 * k → IsEven vals
length-IsEven [] k h = tt
length-IsEven (v ∷ []) k h = absurd (omega arith)
length-IsEven (v ∷ w ∷ vals) zero h = absurd (omega arith)
length-IsEven (v ∷ w ∷ vals) (suc k) h = length-IsEven vals k (omega arith)

-- For 16 coefficients the packing of the FIR filter gives either 20 bytes that unpack to the same
-- coefficients (8 of 8 bits and 8 of 12, two to three bytes), and then all are in range, or none,
-- and then one is out of range.
pub fir_bytes-Packed : (fir : List ℤ) → length fir ≡ 16 → Packed fir (fir_bytes fir)
unfolding fir_bytes
fir_bytes-Packed fir h =
    join (pack8 (take 8 fir)) (pack12 (drop 8 fir)) (pack8-Packed8 (take 8 fir)) (
      pack12-Packed12 (drop 8 fir)
        (length-IsEven (drop 8 fir) 4 (omega (arith, length-drop 8 fir))))
  where
    join :
        (o p : Option (List ℕ))
        → Packed8 (take 8 fir) o
        → Packed12 (drop 8 fir) p
        → Packed fir (elim o [
          | none ↦ none
          | some low ↦ elim p [ none ↦ none | some high ↦ some (low ++ high) ]
        ])
    join none p low high = not_left (all_in 128 (take 8 fir)) (all_in 2048 (drop 8 fir)) low
    join (some l) none low high =
        not_right (all_in 128 (take 8 fir)) (all_in 2048 (drop 8 fir)) high
    join (some l) (some g) low high = (
      both (all_in 128 (take 8 fir)) (all_in 2048 (drop 8 fir)) low.0 high.0,
      rw ((take-append l g 8 eight).0, (take-append l g 8 eight).1, low.1, high.1)
          (take-append-drop 8 fir),
      omega (arith, length-append l g, eight, high.2, length-drop 8 fir),
    )
      where
        eight : length l ≡ 8
        eight = omega (arith, low.2, length-take 8 fir)

-- With 16 coefficients of which one is out of range, setting the FIR filter returns -1 and leaves
-- the device as it was, without a transfer.
pub set_fir-refuses :
    (host : Host) (d : Dev)
    → length d.fir ≡ 16
    → (all_in 128 (take 8 d.fir) && all_in 2048 (drop 8 d.fir)) ≡ false
    → set_fir host d ≡ err 0 d
unfolding set_fir put_fir get
set_fir-refuses host d size bad = refused (fir_bytes d.fir) (fir_bytes-Packed d.fir size)
  where
    contradiction : (b : Bool) → b ≡ true → b ≡ false → ⊥
    contradiction b h k = ground arith

    refused : (o : Option (List ℕ)) → Packed d.fir o → put_fir host o d ≡ err 0 d
    refused none h = refl
    refused (some bytes) h = absurd (contradiction _ h.0 bad)
