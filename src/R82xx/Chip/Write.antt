-- ===== src/R82xx/Chip/Write.antt =====
-- The loop of `r82xx_write` brings its bytes to the chip, whatever pieces it cuts them into.
use rtl_sdr_blog.Common.{
  Bool-cases, List, [], ap, arith, drop, get_or, if◌then◌else◌, inl, inr, length, length-drop,
  length-take, max, refl, suc, take, true, zero, ℕ, ◌+◌, ◌-◌, ◌<◌, ◌==◌, ◌^◌, ◌∙◌, ◌∷◌, ◌≡◌, ◌≤◌,
}
use rtl_sdr_blog.Common.Word.{u8}
use rtl_sdr_blog.State.{Dev, Host, Log, Reply, Res, done, failed, get_r82xx, pure, ◌>>=◌, ◌>>◌}
use rtl_sdr_blog.Usb.{i2c_write, out_transfer, status, transfer, write_array}
use rtl_sdr_blog.Usb.Laws.{Ensures, Ensures-weaken, logged}
use rtl_sdr_blog.R82xx.Regs.{expect, piece, write_loop}
use rtl_sdr_blog.R82xx.Chip.{burst, chip, i2c_out}

get_or-take : (n : ℕ) (xs : List ℕ) (i : ℕ) → i < n → get_or (take n xs) i 0 ≡ get_or xs i 0
get_or-take zero xs i h = absurd (omega arith)
get_or-take (suc n) [] i h = refl
get_or-take (suc n) (x ∷ xs) zero h = refl
get_or-take (suc n) (x ∷ xs) (suc i) h = get_or-take n xs i (omega arith)

get_or-drop : (n : ℕ) (xs : List ℕ) (i : ℕ) → get_or (drop n xs) i 0 ≡ get_or xs (n + i) 0
get_or-drop zero xs i = ap (λ k. get_or xs k 0) (omega arith)
get_or-drop (suc n) [] i = refl
get_or-drop (suc n) (x ∷ xs) i =
    get_or-drop n xs i
    ∙ ap (λ k. get_or (x ∷ xs) k 0) {x = suc (n + i)} {y = suc n + i} (omega arith)

-- Writing a list is writing its first part and then the rest behind it.
burst-append :
    (reg size : ℕ) (val : List ℕ) (regs : ℕ → ℕ) (r : ℕ)
    → size ≤ length val
    → burst (reg + size) (drop size val) (burst reg (take size val) regs) r ≡ burst reg val regs r
burst-append reg size val regs r h = ground (
  arith,
  length-take size val,
  length-drop size val,
  get_or-take size val (r - reg),
  get_or-drop size val (r - (reg + size)),
  ap (λ k. get_or val k 0) (regroup reg size r),
)
  where
    regroup : (reg size r : ℕ) → size + (r - (reg + size)) ≡ max size (r - reg)
    regroup reg size r = omega arith

module _ (base : ℕ → ℕ) where
  -- What a call that sends `val` to the registers from `reg` on leaves: the log alone changes,
  -- and the chip's registers by that write.
  abbrev pub Sent : ℕ → List ℕ → Dev → Unit {0} → Dev → Type 0
  Sent reg val d a e =
      (e ≡ record d { log = e.log })
      × ((r : ℕ)
          → chip d.r82xx.i2c_addr base e.log r ≡ burst reg val (chip d.r82xx.i2c_addr base d.log) r)

  -- One acknowledged piece.
  chip-logged :
      (addr reg n : ℕ) (val : List ℕ) (f : ℕ → ℕ) (log : Log) (r : ℕ)
      → n ≡ length val + 1
      → chip addr base
          (record { transfer = out_transfer addr i2c_out (reg ∷ val); reply = done n f } ∷ log)
          r
        ≡ burst reg val (chip addr base log) r
  unfolding chip
  chip-logged addr reg n val f log r h = ground arith

  module _ (host : Host) (reg size fuel : ℕ) (val : List ℕ) where
    -- What a round does with the reply.
    abbrev after_reply : Dev → Reply → Res (Unit {0})
    after_reply d r =
        (status r >>= λ n.
        expect (size + 1) n
        >> (if length val - size == 0
            then pure tt
            else write_loop host fuel (u8 (reg + size)) (drop size val)))
          (logged (out_transfer d.r82xx.i2c_addr i2c_out (reg ∷ take size val)) r d)

    after_reply-Sent :
        (d : Dev) (r : Reply)
        → size ≤ length val
        → reg + length val < 256
        → ((e : Dev)
            → size < length val
            → e.r82xx ≡ d.r82xx
            → Ensures
                (Sent (reg + size) (drop size val) e)
                (write_loop host fuel (reg + size) (drop size val) e))
        → Ensures (Sent reg val d) (after_reply d r)
    after_reply-Sent d (failed n) le small rest = tt
    after_reply-Sent d (done n f) le small rest = elim (Bool-cases (n == size + 1)) [
      | inr bad ↦ rw bad tt
      | inl good ↦ elim (Bool-cases (length val - size == 0)) [
        | inl last ↦ rw (good, last) (refl, λ r. sent_all good last r)
        | inr more ↦
            rw (good, more, in_byte)
              (Ensures-weaken (Sent (reg + size) (drop size val) next) (Sent reg val d) _
                (rest next (ground arith) refl)
                λ a e sent. (sent.0, λ r. sent.1 r ∙ (then_rest good r)))
      ]
    ]
      where
        next : Dev
        next = logged (out_transfer d.r82xx.i2c_addr i2c_out (reg ∷ take size val)) (done n f) d

        old : ℕ → ℕ
        old = chip d.r82xx.i2c_addr base d.log

        in_byte : u8 (reg + size) ≡ reg + size
        in_byte = omega arith

        first_part :
            (n == size + 1) ≡ true
            → (r : ℕ) → chip d.r82xx.i2c_addr base next.log r ≡ burst reg (take size val) old r
        first_part good r =
            chip-logged d.r82xx.i2c_addr reg n (take size val) f d.log r
              (ground (arith, length-take size val))

        then_rest :
            (n == size + 1) ≡ true
            → (r : ℕ)
            → burst (reg + size) (drop size val) (chip d.r82xx.i2c_addr base next.log) r
              ≡ burst reg val old r
        then_rest good r = ground (arith, first_part good r, burst-append reg size val old r le)

        sent_all :
            (n == size + 1) ≡ true
            → (length val - size == 0) ≡ true
            → (r : ℕ) → chip d.r82xx.i2c_addr base next.log r ≡ burst reg val old r
        sent_all good last r = ground (arith, then_rest good r, length-drop size val)

  module _ (host : Host) where
    -- With a message limit of at least 2 and below 2^32, and bytes that fit below register 256,
    -- the loop that sends a write in pieces ends on enough fuel, and where it returns no error the
    -- acknowledged pieces together have put exactly those bytes into the chip's registers from
    -- `reg` on, and nothing but the log has changed.
    pub write_loop-Sent :
        (fuel reg : ℕ) (val : List ℕ) (d : Dev)
        → 2 ≤ d.r82xx.max_i2c_msg_len
        → d.r82xx.max_i2c_msg_len < 2 ^ 32
        → length val < fuel
        → reg + length val < 256
        → Ensures (Sent reg val d) (write_loop host fuel reg val d)
    unfolding get_r82xx write_loop i2c_write write_array transfer
    write_loop-Sent zero reg val d low high enough small = absurd (omega arith)
    write_loop-Sent (suc fuel) reg val d low high enough small =
        after_reply-Sent host reg size fuel val d _ fits small λ e left same.
          write_loop-Sent fuel (reg + size) (drop size val) e (rw same low) (rw same high)
            (shorter left) in_bytes
      where
        size : ℕ
        size = piece d.r82xx.max_i2c_msg_len (length val)

        fits : size ≤ length val
        fits = ground arith

        shorter : size < length val → length (drop size val) < fuel
        shorter left = rw length-drop (ground arith)

        in_bytes : reg + size + length (drop size val) < 256
        in_bytes = rw length-drop (omega (arith, fits))
