-- ===== src/Fm/Fir.antt =====
-- src/rtl_fm.c: `fifth_order`, which halves the rate, and `generic_fir`, which levels its droop. Each
-- works on one half of the interleaved data, here a list.
use rtl_sdr_blog.Common.{List, Option, [], get_or, none, some, ◌∷◌}
use rtl_sdr_blog.Common.Int.{negsuc, pos, ℤ, ◌*ℤ◌, ◌+ℤ◌}
use rtl_sdr_blog.Common.Cint.{i16, int32, shr, ◌>>=◌}

-- `hist`, of six samples.
pub record FifthHist : Type 0 where
  pub h0 : ℤ
  pub h1 : ℤ
  pub h2 : ℤ
  pub h3 : ℤ
  pub h4 : ℤ
  pub h5 : ℤ

unfoldable pub fifth : FifthHist → ℤ
fifth h = i16 (shr (h.h0 +ℤ (h.h1 +ℤ h.h4) *ℤ pos 5 +ℤ (h.h2 +ℤ h.h3) *ℤ pos 10 +ℤ h.h5) 4)

-- The window two samples further.
abbrev pub shifted : FifthHist → ℤ → ℤ → FifthHist
shifted h e f = record { h0 = h.h2; h1 = h.h3; h2 = h.h4; h3 = h.h5; h4 = e; h5 = f }

-- The loop from the second value on. A last sample that is alone is not read.
unfoldable pub fifth_loop : FifthHist → List ℤ → FifthHist × List ℤ
fifth_loop h [] = (h, [])
fifth_loop h (e ∷ []) = (h, [])
fifth_loop h (e ∷ f ∷ data_left) =
    let rest = fifth_loop (shifted h e f) data_left in (rest.0, fifth (shifted h e f) ∷ rest.1)

-- The window at the first sample of a buffer.
abbrev pub archived : FifthHist → ℤ → FifthHist
archived hist f = record {
  h0 = hist.h1;
  h1 = hist.h2;
  h2 = hist.h3;
  h3 = hist.h4;
  h4 = hist.h5;
  h5 = f;
}

-- `none` where there is no first sample.
unfoldable pub fifth_order : FifthHist → List ℤ → Option (FifthHist × List ℤ)
fifth_order hist [] = none
fifth_order hist (f ∷ samples) =
    let rest = fifth_loop (archived hist f) samples in
    some (rest.0, fifth (archived hist f) ∷ rest.1)

pub record FirHist : Type 0 where
  pub f0 : ℤ
  pub f1 : ℤ
  pub f2 : ℤ
  pub f3 : ℤ
  pub f4 : ℤ
  pub f5 : ℤ
  pub f6 : ℤ
  pub f7 : ℤ
  pub f8 : ℤ

-- `sum += x * k`.
abbrev pub add_product : ℤ → ℤ → ℤ → Option ℤ
add_product sum x k = do product ← int32 (x *ℤ k); int32 (sum +ℤ product)

-- `fir` has the length in front of its coefficients.
unfoldable pub fir_sum : List ℤ → FirHist → Option ℤ
fir_sum fir h = do
  s1 ← add_product (pos 0) (h.f0 +ℤ h.f8) (get_or fir 1 (pos 0))
  s2 ← add_product s1 (h.f1 +ℤ h.f7) (get_or fir 2 (pos 0))
  s3 ← add_product s2 (h.f2 +ℤ h.f6) (get_or fir 3 (pos 0))
  s4 ← add_product s3 (h.f3 +ℤ h.f5) (get_or fir 4 (pos 0))
  add_product s4 h.f4 (get_or fir 5 (pos 0))

abbrev pub fir_shifted : FirHist → ℤ → FirHist
fir_shifted h temp = record {
  f0 = h.f1;
  f1 = h.f2;
  f2 = h.f3;
  f3 = h.f4;
  f4 = h.f5;
  f5 = h.f6;
  f6 = h.f7;
  f7 = h.f8;
  f8 = temp;
}

unfoldable pub generic_fir : List ℤ → FirHist → List ℤ → Option (FirHist × List ℤ)
generic_fir fir hist [] = some (hist, [])
generic_fir fir hist (temp ∷ samples) = do
  sum ← fir_sum fir hist
  rest ← generic_fir fir (fir_shifted hist temp) samples
  some (rest.0, i16 (shr sum 15) ∷ rest.1)

-- The rows by the number of passes.
abbrev pub cic_9_tables : List (List ℤ)
cic_9_tables =
    (pos 0 ∷ [])
    ∷ (pos 9
        ∷ negsuc 155
        ∷ negsuc 96
        ∷ pos 2798
        ∷ negsuc 15488
        ∷ pos 61019
        ∷ negsuc 15488
        ∷ pos 2798
        ∷ negsuc 96
        ∷ negsuc 155
        ∷ [])
    ∷ (pos 9
        ∷ negsuc 127
        ∷ negsuc 567
        ∷ pos 5593
        ∷ negsuc 24124
        ∷ pos 74126
        ∷ negsuc 24124
        ∷ pos 5593
        ∷ negsuc 567
        ∷ negsuc 127
        ∷ [])
    ∷ (pos 9
        ∷ negsuc 128
        ∷ negsuc 638
        ∷ pos 6187
        ∷ negsuc 26280
        ∷ pos 77511
        ∷ negsuc 26280
        ∷ pos 6187
        ∷ negsuc 638
        ∷ negsuc 128
        ∷ [])
    ∷ (pos 9
        ∷ negsuc 121
        ∷ negsuc 611
        ∷ pos 6082
        ∷ negsuc 26352
        ∷ pos 77818
        ∷ negsuc 26352
        ∷ pos 6082
        ∷ negsuc 611
        ∷ negsuc 121
        ∷ [])
    ∷ (pos 9
        ∷ negsuc 119
        ∷ negsuc 601
        ∷ pos 6015
        ∷ negsuc 26268
        ∷ pos 77757
        ∷ negsuc 26268
        ∷ pos 6015
        ∷ negsuc 601
        ∷ negsuc 119
        ∷ [])
    ∷ (pos 9
        ∷ negsuc 119
        ∷ negsuc 581
        ∷ pos 5951
        ∷ negsuc 26127
        ∷ pos 77542
        ∷ negsuc 26127
        ∷ pos 5951
        ∷ negsuc 581
        ∷ negsuc 119
        ∷ [])
    ∷ (pos 9
        ∷ negsuc 118
        ∷ negsuc 579
        ∷ pos 5931
        ∷ negsuc 26093
        ∷ pos 77505
        ∷ negsuc 26093
        ∷ pos 5931
        ∷ negsuc 579
        ∷ negsuc 118
        ∷ [])
    ∷ (pos 9
        ∷ negsuc 118
        ∷ negsuc 577
        ∷ pos 5921
        ∷ negsuc 26076
        ∷ pos 77484
        ∷ negsuc 26076
        ∷ pos 5921
        ∷ negsuc 577
        ∷ negsuc 118
        ∷ [])
    ∷ (pos 9
        ∷ negsuc 118
        ∷ negsuc 576
        ∷ pos 5917
        ∷ negsuc 26066
        ∷ pos 77473
        ∷ negsuc 26066
        ∷ pos 5917
        ∷ negsuc 576
        ∷ negsuc 118
        ∷ [])
    ∷ (pos 9
        ∷ negsuc 198
        ∷ negsuc 361
        ∷ pos 5303
        ∷ negsuc 25504
        ∷ pos 77489
        ∷ negsuc 25504
        ∷ pos 5303
        ∷ negsuc 361
        ∷ negsuc 198
        ∷ [])
    ∷ []
