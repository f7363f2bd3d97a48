-- ===== src/R82xx/Chip/Store.antt =====
-- `shadow_store` writes the bytes into the shadow registers, index by index.
use rtl_sdr_blog.Common.{
  List, [], arith, get_or, if◌then◌else◌, leb, length, length-set, ltb, refl, set, suc, zero, ℕ,
  ◌&&◌, ◌+◌, ◌-◌, ◌<◌, ◌==◌, ◌∙◌, ◌∷◌, ◌≡◌, ◌≤◌,
}
use rtl_sdr_blog.R82xx.Regs.{store}

pub length-store : (regs : List ℕ) (r : ℕ) (val : List ℕ) → length (store regs r val) ≡ length regs
unfolding store
length-store regs r [] = refl
length-store regs r (v ∷ vs) = length-store (set regs r v) (r + 1) vs ∙ length-set regs r v

pub get_or-set :
    (xs : List ℕ) (i j v : ℕ)
    → i < length xs
    → get_or (set xs i v) j 0 ≡ (if i == j then v else get_or xs j 0)
get_or-set [] i j v h = absurd (omega arith)
get_or-set (x ∷ xs) zero zero v h = refl
get_or-set (x ∷ xs) zero (suc j) v h = ground arith
get_or-set (x ∷ xs) (suc i) zero v h = ground arith
get_or-set (x ∷ xs) (suc i) (suc j) v h = ground (arith, get_or-set xs i j v (omega arith))

pub get_or-store :
    (regs : List ℕ) (r : ℕ) (val : List ℕ) (i : ℕ)
    → r + length val ≤ length regs
    → get_or (store regs r val) i 0
      ≡ (if leb r i && ltb i (r + length val) then get_or val (i - r) 0 else get_or regs i 0)
unfolding store
get_or-store regs r [] i h = ground arith
get_or-store regs r (v ∷ vs) i h = ground (
  arith,
  get_or-store (set regs r v) (r + 1) vs i (rw length-set (omega arith)),
  get_or-set regs r i v (omega arith),
  get_or-cons v vs i r,
)
  where
    get_or-cons :
        (v : ℕ) (vs : List ℕ) (i r : ℕ)
        → r < i
        → get_or (v ∷ vs) (i - r) 0 ≡ get_or vs (i - (r + 1)) 0
    get_or-cons v vs i r h = rw (pred_index i r h)
      where
        pred_index : (i r : ℕ) → r < i → i - r ≡ suc (i - (r + 1))
        pred_index i r h = omega arith
