-- ===== src/R82xx/Chip/Ops.antt =====
-- The register operations of the tuner driver keep the shadow and the chip in step.
use rtl_sdr_blog.Common.{
  Bool, List, [], arith, false, get_or, leb, ltb, refl, true, ℕ, ◌&&◌, ◌-◌, ◌<◌, ◌==◌, ◌∷◌, ◌≡◌,
  ◌≤◌,
}
use rtl_sdr_blog.Common.Word.{u8}
use rtl_sdr_blog.State.{
  Dev, Host, R82xx, Reply, Res, Transfer, done, err, failed, get_r82xx, modify_r82xx, ok, ◌>>=◌,
  ◌>>◌,
}
use rtl_sdr_blog.Usb.{
  i2c_read, i2c_write, in_transfer, out_transfer, read_array, status, transfer, write_array,
}
use rtl_sdr_blog.Usb.Laws.{
  Ensures, Ensures-bind, Keeps, Keeps-bind, Keeps-fail, Keeps-if, Keeps-pure, logged,
}
use rtl_sdr_blog.R82xx.Regs.{
  RegWrite, expect, masked, plain, read, read_cache_reg, reversed, write_all, write_reg,
  write_reg_mask,
}
use rtl_sdr_blog.R82xx.Chip.{chip, chip_step, i2c_out}
use rtl_sdr_blog.R82xx.Chip.Coherent.{IsReady, write-IsReady}

abbrev pub InShadow : RegWrite → Type 0
InShadow (plain reg val) = (5 ≤ reg) × (reg < 35)
InShadow (masked reg val bit_mask) = (5 ≤ reg) × (reg < 35)

abbrev pub AllInShadow : List RegWrite → Type 0
AllInShadow [] = Unit {0}
AllInShadow (w ∷ ws) = InShadow w × AllInShadow ws

-- A change of the tuner's record that leaves the registers and the configuration alone.
abbrev pub SameCore : (R82xx → R82xx) → Type 0
SameCore f =
    (q : R82xx)
    → ((f q).regs ≡ q.regs)
      × ((f q).i2c_addr ≡ q.i2c_addr)
      × ((f q).max_i2c_msg_len ≡ q.max_i2c_msg_len)
      × ((f q).xtal ≡ q.xtal)

module _ (base : ℕ → ℕ) where
  pub modify-IsReady : (f : R82xx → R82xx) → SameCore f → Keeps (IsReady base) (modify_r82xx f)
  unfolding modify_r82xx
  modify-IsReady f same = record {
    run = λ d v. record {
      room = rw (same d.r82xx).2 v.room;
      limit = rw (same d.r82xx).2 v.limit;
      clocked = rw (same d.r82xx).3 v.clocked;
      slow = rw (same d.r82xx).3 v.slow;
      sized = rw (same d.r82xx).0 v.sized;
      coherent = λ i h. rw ((same d.r82xx).0, (same d.r82xx).1) (v.coherent i h);
    };
  }

  -- A transfer that writes no register of the chip.
  pub quiet-IsReady :
      (t : Transfer) (r : Reply) (d : Dev)
      → ((regs : ℕ → ℕ) (i : ℕ)
          → chip_step d.r82xx.i2c_addr (record { transfer = t; reply = r }) regs i ≡ regs i)
      → IsReady base d
      → IsReady base (logged t r d)
  unfolding chip
  quiet-IsReady t r d same v = record {
    room = v.room;
    limit = v.limit;
    clocked = v.clocked;
    slow = v.slow;
    sized = v.sized;
    coherent = λ i h. rw same (v.coherent i h);
  }

  module _ (host : Host) where
    pub write_reg-IsReady :
        (reg val : ℕ) → 5 ≤ reg → reg < 35 → Keeps (IsReady base) (write_reg host reg val)
    unfolding write_reg
    write_reg-IsReady reg val low high = write-IsReady base host reg (val ∷ []) low (omega arith)

    read_cache_reg-IsReady : (reg : ℕ) → Keeps (IsReady base) (read_cache_reg host reg)
    unfolding read_cache_reg
    read_cache_reg-IsReady reg = record {
      run = λ d v.
          (elim (leb 5 reg && ltb reg 35)
            as (λ b. Ensures (λ (a : ℕ) e. IsReady base e) (choose d b)) [ true ↦ v | false ↦ tt ]);
    }
      where
        choose : Dev → Bool → Res ℕ
        choose d b = elim b [ true ↦ ok (get_or d.r82xx.regs (reg - 5) 0) d | false ↦ err 0 d ]

    pub write_reg_mask-IsReady :
        (reg val bit_mask : ℕ)
        → 5 ≤ reg
        → reg < 35
        → Keeps (IsReady base) (write_reg_mask host reg val bit_mask)
    unfolding write_reg_mask
    write_reg_mask-IsReady reg val bit_mask low high =
        Keeps-bind (read_cache_reg-IsReady reg)
          (λ rc. write-IsReady base host reg (_ ∷ []) low (omega arith))

    pub write_all-IsReady :
        (ws : List RegWrite) → AllInShadow ws → Keeps (IsReady base) (write_all host ws)
    unfolding write_all
    write_all-IsReady [] h = Keeps-pure tt
    write_all-IsReady (plain reg val ∷ ws) h =
        Keeps-bind (write_reg-IsReady reg val h.0.0 h.0.1) (λ a. write_all-IsReady ws h.1)
    write_all-IsReady (masked reg val bit_mask ∷ ws) h =
        Keeps-bind (write_reg_mask-IsReady reg val bit_mask h.0.0 h.0.1)
          (λ a. write_all-IsReady ws h.1)

    expect-IsReady : (size n : ℕ) → Keeps (IsReady base) (expect size n)
    expect-IsReady size n = Keeps-if (n == size) (Keeps-pure tt) (Keeps-fail 0)

    -- The piece of a read that sets the address, and the one that fetches the bytes.
    i2c_address-IsReady :
        (addr reg : ℕ) (d : Dev)
        → addr ≡ d.r82xx.i2c_addr
        → IsReady base d
        → Ensures (λ n e. IsReady base e × (e.r82xx ≡ d.r82xx)) (i2c_write host addr (reg ∷ []) d)
    unfolding i2c_write write_array transfer
    i2c_address-IsReady addr reg d same v = by_reply (host.answer d.log t)
      where
        t : Transfer
        t = out_transfer addr i2c_out (reg ∷ [])

        by_reply :
            (r : Reply)
            → Ensures (λ n e. IsReady base e × (e.r82xx ≡ d.r82xx)) (status r (logged t r d))
        by_reply (done n f) = (quiet-IsReady t (done n f) d (λ regs i. ground arith) v, refl)
        by_reply (failed n) = tt

    i2c_read-IsReady : (addr len : ℕ) → Keeps (IsReady base) (i2c_read host addr len)
    unfolding i2c_read read_array transfer
    i2c_read-IsReady addr len = record {
      run = λ d v. quiet-IsReady t (host.answer d.log t) d (quiet d (host.answer d.log t)) v;
    }
      where
        t : Transfer
        t = in_transfer addr 0x600 (u8 len)

        quiet :
            (d : Dev) (r : Reply) (regs : ℕ → ℕ) (i : ℕ)
            → chip_step d.r82xx.i2c_addr (record { transfer = t; reply = r }) regs i ≡ regs i
        quiet d (done n f) regs i = refl
        quiet d (failed n) regs i = refl

    reversed-IsReady : (len : ℕ) (r : Reply) → Keeps (IsReady base) (reversed len r)
    reversed-IsReady len (done n f) = Keeps-if (n == len) (Keeps-pure _) (Keeps-fail 0)
    reversed-IsReady len (failed n) = Keeps-fail n

    pub read-IsReady : (reg len : ℕ) → Keeps (IsReady base) (read host reg len)
    unfolding get_r82xx read
    read-IsReady reg len = record {
      run = λ d v.
          Ensures-bind (λ n e. IsReady base e × (e.r82xx ≡ d.r82xx)) (λ a e. IsReady base e)
            (i2c_write host d.r82xx.i2c_addr (reg ∷ [])) _ d
            (i2c_address-IsReady d.r82xx.i2c_addr reg d refl v)
            λ n e r. (fetch d.r82xx.i2c_addr n).run e r.0;
    }
      where
        fetch :
            (addr n : ℕ)
            → Keeps (IsReady base) (expect 1 n >> (i2c_read host addr len >>= λ r. reversed len r))
        fetch addr n =
            Keeps-bind (expect-IsReady 1 n)
              λ a. Keeps-bind (i2c_read-IsReady addr len) (λ r. reversed-IsReady len r)
