-- ===== src/R82xx/Gain/Laws.antt =====
-- The gain loop of `r82xx_set_gain` stays inside its tables.
use rtl_sdr_blog.Common.{
  Bool-cases, Option, arith, get_elem?, get_elem?-inside, inl, inr, none, refl, some, suc, zero, ℕ,
  ◌+◌, ◌≡◌, ◌≤◌,
}
use rtl_sdr_blog.Common.Int.{pos, ℤ, ◌+ℤ◌}
use rtl_sdr_blog.R82xx.Tables.{lna_gain_steps, mixer_gain_steps}
use rtl_sdr_blog.R82xx.Gain.{gain_loop, leb_ℤ, step_at}

-- Two indices, the LNA's at most one ahead.
abbrev pub InTables : Option (ℕ × ℕ) → Type 0
InTables none = ⊥
InTables (some (mix, lna)) = (lna ≤ 15) × (mix ≤ lna) × (lna ≤ mix + 1)

-- With no more rounds left than the tables have further entries, the gain loop reads neither table
-- out of range for any gain, and ends with an LNA index of at most 15 and a mixer index that
-- equals it or is one less.
pub gain_loop-InTables :
    (left : ℕ) (gain total : ℤ) (i : ℕ) → i + left ≤ 15 → InTables (gain_loop left gain total i i)
unfolding gain_loop
gain_loop-InTables zero gain total i h = omega arith
gain_loop-InTables (suc left) gain total i h = elim (Bool-cases (leb_ℤ gain total)) [
  | inl enough ↦ rw enough (omega arith)
  | inr more ↦
      rw (more, lna.1, step_at)
        (elim (Bool-cases (leb_ℤ gain (total +ℤ lna.0))) [
          | inl enough ↦ rw enough (omega arith)
          | inr more' ↦
              rw (more', mix.1, step_at) (gain_loop-InTables left gain _ (i + 1) (omega arith))
        ])
]
  where
    lna : (v : ℤ) × (get_elem? lna_gain_steps (i + 1) ≡ some v)
    lna = get_elem?-inside lna_gain_steps (i + 1) (omega arith)

    mix : (v : ℤ) × (get_elem? mixer_gain_steps (i + 1) ≡ some v)
    mix = get_elem?-inside mixer_gain_steps (i + 1) (omega arith)

pub gain_loop_ends : (gain : ℤ) → (p : ℕ × ℕ) × (gain_loop 15 gain (pos 0) 0 0 ≡ some p)
gain_loop_ends gain =
    of_InTables (gain_loop 15 gain (pos 0) 0 0) refl
      (gain_loop-InTables 15 gain (pos 0) 0 (omega arith))
  where
    of_InTables :
        (r : Option (ℕ × ℕ))
        → gain_loop 15 gain (pos 0) 0 0 ≡ r
        → InTables r
        → (p : ℕ × ℕ) × (gain_loop 15 gain (pos 0) 0 0 ≡ some p)
    of_InTables none e h = absurd h
    of_InTables (some p) e h = (p, e)
