-- ===== src/R82xx/Chip/Coherent.antt =====
-- The shadow registers agree with the chip: the state that the driver's operations keep.
use rtl_sdr_blog.Common.{
  List, [], ap, arith, get_or, length, refl, some, sym, take, ℕ, ◌+◌, ◌-◌, ◌<◌, ◌^◌, ◌∙◌, ◌∷◌, ◌≡◌,
  ◌≤◌,
}
use rtl_sdr_blog.State.{Dev, Host, get_r82xx}
use rtl_sdr_blog.Usb.Laws.{Ensures-weaken, Keeps}
use rtl_sdr_blog.R82xx.Tables.{num_regs, reg_shadow_start}
use rtl_sdr_blog.R82xx.Regs.{shadow_store, store, write}
use rtl_sdr_blog.R82xx.Chip.{chip}
use rtl_sdr_blog.R82xx.Chip.Store.{get_or-store, length-store}
use rtl_sdr_blog.R82xx.Chip.Write.{Sent, write_loop-Sent}
use mathlib.Core.Path.{subst}

-- The limit on messages leaves room for data, the crystal is one that the PLL code can work with,
-- all shadow registers are there, and each holds what the chip's register holds.
pub record IsReady (base : ℕ → ℕ) (d : Dev) : Type 0 where
  pub room : 2 ≤ d.r82xx.max_i2c_msg_len
  pub limit : d.r82xx.max_i2c_msg_len < 2 ^ 32
  pub clocked : 0 < d.r82xx.xtal
  pub slow : d.r82xx.xtal < 32767500
  pub sized : length d.r82xx.regs ≡ num_regs
  pub coherent :
      (i : ℕ)
      → i < num_regs
      → get_or d.r82xx.regs i 0 ≡ chip d.r82xx.i2c_addr base d.log (i + reg_shadow_start)

shadow_store-inside :
    (regs : List ℕ) (reg : ℕ) (val : List ℕ)
    → 5 ≤ reg
    → reg + length val ≤ 35
    → shadow_store regs reg val ≡ some (store regs (reg - 5) val)
unfolding shadow_store
shadow_store-inside regs reg [] low high = ground arith
shadow_store-inside regs reg (v ∷ vs) low high = ground (arith, take-length (v ∷ vs))
  where
    take-length : (xs : List ℕ) → take (length xs) xs ≡ xs
    take-length [] = refl
    take-length (x ∷ xs) = ap (◌∷◌ x) (take-length xs)

module _ (base : ℕ → ℕ) where
  stored : Dev → ℕ → List ℕ → Dev
  stored d reg val = record d {
    r82xx = record (d.r82xx) { regs = store d.r82xx.regs (reg - 5) val };
  }

  Sent-IsReady :
      (reg : ℕ) (val : List ℕ) (d e : Dev)
      → 5 ≤ reg
      → reg + length val ≤ 35
      → IsReady base d
      → Sent base reg val (stored d reg val) tt e
      → IsReady base e
  unfolding stored
  Sent-IsReady reg val d e low high v sent = subst (IsReady base) (sym sent.0) record {
    room = v.room;
    limit = v.limit;
    clocked = v.clocked;
    slow = v.slow;
    sized = length-store d.r82xx.regs (reg - 5) val ∙ v.sized;
    coherent = λ i h. ground (
      arith,
      v.sized,
      sent.1 (i + 5),
      v.coherent i h,
      get_or-store d.r82xx.regs (reg - 5) val i,
      ap (λ k. get_or val k 0) {x = i + 5 - reg} {y = i - (reg - 5)},
    );
  }

  module _ (host : Host) where
    pub write-IsReady :
        (reg : ℕ) (val : List ℕ)
        → 5 ≤ reg
        → reg + length val ≤ 35
        → Keeps (IsReady base) (write host reg val)
    unfolding get_r82xx write stored
    write-IsReady reg val low high = record {
      run = λ d v. rw (shadow_store-inside d.r82xx.regs reg val low high) (
          Ensures-weaken (Sent base reg val (stored d reg val)) (λ a e. IsReady base e) _
            (write_loop-Sent base host (length val + 1) reg val (stored d reg val) v.room v.limit
              (omega arith) (omega arith))
            λ a e sent. Sent-IsReady reg val d e low high v sent);
    }
