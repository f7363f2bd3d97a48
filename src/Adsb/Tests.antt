-- ===== src/Adsb/Tests.antt =====
-- The theorems on the ADS-B decoder at concrete samples.
use rtl_sdr_blog.Common.{List, [], arith, refl, some, suc, zero, ℕ, ◌∷◌, ◌≡◌}
use rtl_sdr_blog.Adsb.Manchester.{Scan, manchester, round}
use rtl_sdr_blog.Adsb.Manchester.Laws.{SameLength, manchester-SameLength}
use rtl_sdr_blog.Adsb.Messages.{messages}
use rtl_sdr_blog.Adsb.Messages.Laws.{Decoded, messages-Decoded}

abbrev some_bits : List ℕ
some_bits = 253 ∷ 1 ∷ 0 ∷ 0 ∷ 1 ∷ 255 ∷ 0 ∷ 1 ∷ []

messages-Decoded_example : Decoded (messages 8 some_bits)
messages-Decoded_example = messages-Decoded 8 some_bits (omega arith)

-- A short frame: a first byte of 0x5a, and 48 bits more.
abbrev ones : ℕ → List ℕ
ones zero = 255 ∷ []
ones (suc n) = 1 ∷ ones n

short_message :
    messages 60 (0 ∷ 1 ∷ 0 ∷ 1 ∷ 1 ∷ 0 ∷ 1 ∷ 0 ∷ ones 48)
    ≡ some ((0x5a ∷ 255 ∷ 255 ∷ 255 ∷ 255 ∷ 255 ∷ 255 ∷ 0 ∷ 0 ∷ 0 ∷ 0 ∷ 0 ∷ 0 ∷ 0 ∷ [], 56) ∷ [])
unfolding messages
short_message = refl

-- A preamble, and the Manchester code of some bits.
abbrev pulses : List ℕ
pulses =
    90 ∷ 1 ∷ 91 ∷ 2 ∷ 0 ∷ 1 ∷ 0 ∷ 92 ∷ 1 ∷ 93 ∷ 1 ∷ 0 ∷ 2 ∷ 1 ∷ 0 ∷ 1 ∷ 88 ∷ 3 ∷ 2 ∷ 95 ∷ 90 ∷ 1
    ∷ 91 ∷ 0 ∷ []

manchester-SameLength_example :
    SameLength (record { buf = pulses; i = 0; a = 0; b = 0 }) (manchester 10 5 pulses)
manchester-SameLength_example = manchester-SameLength 10 5 pulses (omega arith)

-- With no error allowed, a round can leave everything as it was: the outer loop goes on for ever.
abbrev stuck : Scan
stuck = record { buf = 255 ∷ 255 ∷ 255 ∷ 255 ∷ []; i = 0; a = 255; b = 255 }

round-stuck : round 10 0 stuck ≡ stuck
unfolding round
round-stuck = refl
