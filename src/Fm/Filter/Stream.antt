-- ===== src/Fm/Filter/Stream.antt =====
-- `low_pass` over a stream that is cut into buffers.
use mathlib.Core.List.{append_assoc}
use rtl_sdr_blog.Common.{
  List, [], ap, arith, false, length, ltb, map, refl, sym, true, ℕ, ◌++◌, ◌+◌, ◌<◌, ◌∙◌, ◌∷◌, ◌≡◌,
}
use rtl_sdr_blog.Common.Int.{+ℤ_assoc, int_laws, pos, ℤ, ◌+ℤ◌}
use rtl_sdr_blog.Common.Cint.{i16}
use rtl_sdr_blog.Fm.Filter.{Iq, LowPass, low_pass, low_pass_step}

+ℤ_zero : (a : ℤ) → a +ℤ pos 0 ≡ a
+ℤ_zero a = omega int_laws

zero_+ℤ : (a : ℤ) → pos 0 +ℤ a ≡ a
zero_+ℤ a = omega int_laws

module _ (downsample : ℕ) where
  -- A stream cut in two at any place.
  low_pass_split :
      (d : LowPass) (xs ys : List Iq)
      → low_pass downsample d (xs ++ ys) ≡ (
        (low_pass downsample (low_pass downsample d xs).0 ys).0,
        (low_pass downsample d xs).1 ++ (low_pass downsample (low_pass downsample d xs).0 ys).1,
      )
  unfolding low_pass
  low_pass_split d [] ys = refl
  low_pass_split d (s ∷ xs) ys = rw (low_pass_split (low_pass_step downsample d s).0 xs ys) (
      ap
        (λ out. (
          (low_pass downsample (low_pass downsample (low_pass_step downsample d s).0 xs).0 ys).0,
          out,
        ))
        (sym (append_assoc (low_pass_step downsample d s).1 _ _)))

  -- The buffers of a stream, one after the other.
  abbrev pub run_buffers : LowPass → List (List Iq) → LowPass × List Iq
  run_buffers d [] = (d, [])
  run_buffers d (buf ∷ bufs) =
      let one = low_pass downsample d buf in
      let rest = run_buffers one.0 bufs in (rest.0, one.1 ++ rest.1)

  abbrev pub joined : List (List Iq) → List Iq
  joined [] = []
  joined (buf ∷ bufs) = buf ++ joined bufs

  -- Nothing added yet.
  abbrev pub empty : LowPass
  empty = record { now_r = pos 0; now_j = pos 0; prev_index = 0 }

  pub low_pass-joined :
      (d : LowPass) (bufs : List (List Iq))
      → run_buffers d bufs ≡ low_pass downsample d (joined bufs)
  unfolding low_pass
  low_pass-joined d [] = refl
  low_pass-joined d (buf ∷ bufs) =
      rw (low_pass-joined (low_pass downsample d buf).0 bufs)
        (sym (low_pass_split d buf (joined bufs)))

  abbrev pub sum_i : List Iq → ℤ
  sum_i [] = pos 0
  sum_i ((i, q) ∷ xs) = i +ℤ sum_i xs

  abbrev pub sum_q : List Iq → ℤ
  sum_q [] = pos 0
  sum_q ((i, q) ∷ xs) = q +ℤ sum_q xs

  -- What is put out for a group of samples.
  abbrev pub group_sum : List Iq → Iq
  group_sum xs = (i16 (sum_i xs), i16 (sum_q xs))

  abbrev pub AreGroups : List (List Iq) → Type 0
  AreGroups [] = Unit
  AreGroups (g ∷ groups) = (0 < length g) × (length g ≡ downsample) × AreGroups groups

  -- The samples that complete a group.
  completed :
      (d : LowPass) (s : Iq) (xs : List Iq)
      → d.prev_index + length (s ∷ xs) ≡ downsample
      → low_pass downsample d (s ∷ xs)
        ≡ (empty, (i16 (d.now_r +ℤ sum_i (s ∷ xs)), i16 (d.now_j +ℤ sum_q (s ∷ xs))) ∷ [])
  unfolding low_pass low_pass_step
  completed d (i, q) [] h = rw (full, +ℤ_zero i, +ℤ_zero q) refl
    where
      full : ltb (d.prev_index + 1) downsample ≡ false
      full = ground arith
  completed d (i, q) (t ∷ xs) h = rw more (
      completed
        (record { now_r = d.now_r +ℤ i; now_j = d.now_j +ℤ q; prev_index = d.prev_index + 1 }) t xs
        (omega arith)
      ∙ rw (+ℤ_assoc d.now_r i (sum_i (t ∷ xs)), +ℤ_assoc d.now_j q (sum_q (t ∷ xs))) refl)
    where
      more : ltb (d.prev_index + 1) downsample ≡ true
      more = ground arith

  summed :
      (groups : List (List Iq))
      → AreGroups groups
      → low_pass downsample empty (joined groups) ≡ (empty, map group_sum groups)
  unfolding low_pass
  summed [] h = refl
  summed ([] ∷ groups) (some_samples, whole, h) = absurd (omega arith)
  summed ((s ∷ xs) ∷ groups) (some_samples, whole, h) =
      low_pass_split empty (s ∷ xs) (joined groups)
      ∙ (ap
            (λ r. (
              (low_pass downsample r.0 (joined groups)).0,
              r.1 ++ (low_pass downsample r.0 (joined groups)).1,
            ))
            first
          ∙ ap (λ (r : LowPass × List Iq). (r.0, group_sum (s ∷ xs) ∷ r.1)) (summed groups h))
    where
      without_zero : (a b : ℤ) → ◌≡◌ {A = Iq} (i16 (pos 0 +ℤ a), i16 (pos 0 +ℤ b)) (i16 a, i16 b)
      without_zero a b = rw (zero_+ℤ a, zero_+ℤ b) refl

      first : low_pass downsample empty (s ∷ xs) ≡ (empty, group_sum (s ∷ xs) ∷ [])
      first =
          completed empty s xs (omega (arith, whole))
          ∙ ap (λ (p : Iq). (empty, p ∷ [])) (without_zero (sum_i (s ∷ xs)) (sum_q (s ∷ xs)))

  -- However a stream of samples is cut into buffers, and whatever `downsample` is, if the stream
  -- consists of whole groups of `downsample` samples then `low_pass` over the buffers, one after
  -- the other, ends with nothing pending and puts out the sum of each group, cut to 16 bits: the
  -- samples of the reference that sums each group by itself.
  pub run_buffers-group_sum :
      (bufs groups : List (List Iq))
      → AreGroups groups
      → joined bufs ≡ joined groups
      → run_buffers empty bufs ≡ (empty, map group_sum groups)
  run_buffers-group_sum bufs groups h e =
      low_pass-joined empty bufs ∙ (ap (low_pass downsample empty) e ∙ summed groups h)
