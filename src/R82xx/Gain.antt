-- ===== src/R82xx/Gain.antt =====
-- src/tuner_r82xx.c: `r82xx_read_gain`, `r82xx_set_gain` and `r82xx_set_vga_gain`.
pub mod Laws
use rtl_sdr_blog.Common.{
  Bool, List, Option, [], bit_and, get_elem?, get_or, if◌then◌else◌, leb, none, some, suc, zero, ℕ,
  ◌*◌, ◌+◌, ◌/◌, ◌^◌, ◌∷◌,
}
use rtl_sdr_blog.Common.Int.{neg_part, pos, pos_part, ℤ, ◌+ℤ◌}
use rtl_sdr_blog.State.{Host, M, or_stuck, pure, ◌>>=◌, ◌>>◌}
use rtl_sdr_blog.Usb.{status}
use rtl_sdr_blog.R82xx.Tables.{lna_gain_steps, mixer_gain_steps}
use rtl_sdr_blog.R82xx.Regs.{masked, read, write_all, write_reg_mask}

abbrev pub leb_ℤ : ℤ → ℤ → Bool
leb_ℤ a b = leb (pos_part a + neg_part b) (pos_part b + neg_part a)

-- A table read that C leaves undefined out of range.
abbrev pub step_at : {A : Type 0} → List ℤ → ℕ → (ℤ → Option A) → Option A
step_at steps i f = elim (get_elem? steps i) [ none ↦ none | some v ↦ f v ]

-- The loop that raises the LNA and the mixer in turn, with the rounds left: the mixer's and the
-- LNA's index where the gain is reached.
unfoldable pub gain_loop : ℕ → ℤ → ℤ → ℕ → ℕ → Option (ℕ × ℕ)
gain_loop zero gain total mix_index lna_index = some (mix_index, lna_index)
gain_loop (suc left) gain total mix_index lna_index =
    if leb_ℤ gain total
    then some (mix_index, lna_index)
    else step_at lna_gain_steps (lna_index + 1) λ lna.
      (if leb_ℤ gain (total +ℤ lna)
        then some (mix_index, lna_index + 1)
        else step_at mixer_gain_steps (mix_index + 1)
            λ mix. gain_loop left gain (total +ℤ lna +ℤ mix) (mix_index + 1) (lna_index + 1))

module _ (host : Host) where
  unfoldable pub read_gain : M ℕ
  read_gain = do
    status ← read host 0x00 4
    let v = get_or status 3 0
    pure (bit_and v 0x0f * 2 + bit_and v 0xf0 / 2 ^ 4)

  unfoldable pub set_vga_gain : M (Unit {0})
  set_vga_gain = write_reg_mask host 0x0c 0x08 0x9f

  unfoldable pub set_gain : Bool → ℤ → M (Unit {0})
  set_gain set_manual_gain gain =
      if set_manual_gain
      then (do
        write_all host (masked 0x05 0x10 0x10 ∷ masked 0x07 0 0x10 ∷ [])
        status ← read host 0x00 4
        set_vga_gain
        (mix_index, lna_index) ← or_stuck (gain_loop 15 gain (pos 0) 0 0)
        write_all host (masked 0x05 lna_index 0x0f ∷ masked 0x07 mix_index 0x0f ∷ []))
      else write_all host (masked 0x05 0 0x10 ∷ masked 0x07 0x10 0x10 ∷ masked 0x0c 0x0b 0x9f ∷ [])
