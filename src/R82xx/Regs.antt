-- ===== src/R82xx/Regs.antt =====
-- src/tuner_r82xx.c: writing and reading the tuner's registers over I2C. The driver keeps a shadow
-- of the registers 5 to 34, which masked writes read.
pub mod Laws
use rtl_sdr_blog.Common.{
  List, Option, [], bit_and, bit_or, drop, false, get_or, if◌then◌else◌, leb, length, ltb, map,
  none, set, some, suc, take, true, zero, ℕ, ◌&&◌, ◌*◌, ◌+◌, ◌-◌, ◌/◌, ◌==◌, ◌^◌, ◌∷◌,
}
use rtl_sdr_blog.Common.Word.{inv8, u32, u8}
use rtl_sdr_blog.State.{
  Host, M, Reply, done, err, fail, failed, fault, get_r82xx, no_result, ok, pure, ◌>>=◌, ◌>>◌,
}
use rtl_sdr_blog.Usb.{i2c_read, i2c_write, received}
use rtl_sdr_blog.R82xx.Tables.{bitrev_lut, num_regs, reg_shadow_start}

-- `memcpy(&regs[r], val, n)` where `vs` are the bytes copied.
unfoldable pub store : List ℕ → ℕ → List ℕ → List ℕ
store regs r [] = regs
store regs r (v ∷ vs) = store (set regs r v) (r + 1) vs

-- The registers from `r` on; `none` where the length of the copy would be negative.
abbrev pub store_from : List ℕ → ℕ → List ℕ → ℕ → Option (List ℕ)
store_from regs r val len =
    if len == 0
    then some regs
    else if ltb num_regs r
    then none
    else some (store regs r (take (if ltb (num_regs - r) len then num_regs - r else len) val))

-- A write that begins below the shadow is shortened, and copied from its first byte on.
unfoldable pub shadow_store : List ℕ → ℕ → List ℕ → Option (List ℕ)
unfolding store
shadow_store regs reg val =
    if ltb reg reg_shadow_start
    then store_from regs 0 val (length val - (reg_shadow_start - reg))
    else store_from regs (reg - reg_shadow_start) val (length val)

-- `rc != size` and what is returned then: an error as it is, and -1 for a short transfer.
abbrev pub expect : ℕ → ℕ → M (Unit {0})
expect size n = if n == size then pure tt else fail 0

-- The copy into the shadow registers.
abbrev pub put_shadow : Option (List ℕ) → M (Unit {0})
put_shadow none d = fault
put_shadow (some regs) d = ok tt (record d { r82xx = record (d.r82xx) { regs = regs } })

-- `(rc & ~bit_mask) | (val & bit_mask)`
unfoldable pub merge : ℕ → ℕ → ℕ → ℕ
merge rc val bit_mask = bit_or (bit_and rc (inv8 bit_mask)) (bit_and val bit_mask)

unfoldable pub bitrev : ℕ → ℕ
bitrev byte =
    u8
      (bit_or (get_or bitrev_lut (bit_and byte 0xf) 0 * 2 ^ 4) (get_or bitrev_lut (byte / 2 ^ 4) 0))

abbrev pub reversed : ℕ → Reply → M (List ℕ)
reversed len (done n f) = if n == len then pure (map bitrev (received len 0 f)) else fail 0
reversed len (failed e) = fail e

-- `r82xx_write_reg(reg, val)` and `r82xx_write_reg_mask(reg, val, mask)` as data.
pub data RegWrite : Type 0 where
  plain : ℕ → ℕ → RegWrite
  masked : ℕ → ℕ → ℕ → RegWrite

-- The size of the next piece, `max_i2c_msg_len - 1` at most.
abbrev pub piece : ℕ → ℕ → ℕ
piece max_i2c_msg_len len =
    let limit = u32 (max_i2c_msg_len + 2 ^ 32 - 1) in if ltb limit len then limit else len

module _ (host : Host) where
  -- The `do` loop that sends the bytes in pieces; each round sends some unless the limit is 1.
  unfoldable pub write_loop : ℕ → ℕ → List ℕ → M (Unit {0})
  write_loop zero reg val = no_result
  write_loop (suc fuel) reg val = do
    p ← get_r82xx
    let size = piece p.max_i2c_msg_len (length val)
    let rest = write_loop fuel (u8 (reg + size)) (drop size val)
    n ← i2c_write host p.i2c_addr (reg ∷ take size val)
    expect (size + 1) n
    if length val - size == 0 then pure tt else rest

  unfoldable pub write : ℕ → List ℕ → M (Unit {0})
  write reg val = do
    p ← get_r82xx
    put_shadow (shadow_store p.regs reg val)
    write_loop (length val + 1) reg val

  unfoldable pub write_reg : ℕ → ℕ → M (Unit {0})
  write_reg reg val = write reg (val ∷ [])

  unfoldable pub read_cache_reg : ℕ → M ℕ
  read_cache_reg reg d = elim (leb reg_shadow_start reg && ltb reg (reg_shadow_start + num_regs)) [
    | true ↦ ok (get_or d.r82xx.regs (reg - reg_shadow_start) 0) d
    | false ↦ err 0 d
  ]

  unfoldable pub write_reg_mask : ℕ → ℕ → ℕ → M (Unit {0})
  write_reg_mask reg val bit_mask = do
    rc ← read_cache_reg reg
    write reg (merge rc val bit_mask ∷ [])

  unfoldable pub read : ℕ → ℕ → M (List ℕ)
  read reg len = do
    p ← get_r82xx
    n ← i2c_write host p.i2c_addr (reg ∷ [])
    expect 1 n
    r ← i2c_read host p.i2c_addr len
    reversed len r

  -- A run of writes, each followed by `if (rc < 0) return rc;`.
  unfoldable pub write_all : List RegWrite → M (Unit {0})
  write_all [] = pure tt
  write_all (plain reg val ∷ ws) = do write_reg reg val; write_all ws
  write_all (masked reg val bit_mask ∷ ws) = do write_reg_mask reg val bit_mask; write_all ws
