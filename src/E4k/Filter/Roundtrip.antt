-- ===== src/E4k/Filter/Roundtrip.antt =====
-- A bandwidth that was set is read back as the nearest one of the filter's table.
use rtl_sdr_blog.Common.{
  ap, arith, get_elem?, length, some, ℕ, ◌*◌, ◌-◌, ◌<◌, ◌^◌, ◌∙◌, ◌≡◌, ◌≢◌, ◌≤◌,
}
use rtl_sdr_blog.Common.Word.{u8}
use rtl_sdr_blog.State.{Dev, Host, Res, err, fault, ok, or_stuck, pure, ◌>>=◌, ◌>>◌}
use rtl_sdr_blog.E4k.{RegField, field_mask, field_read, field_write, masked, reg_set_mask}
use rtl_sdr_blog.E4k.Bits.{field_of, field_of-masked}
use rtl_sdr_blog.E4k.Field.{
  HasE4k, Sets, after_read, held, held-after_read, reg_read_lem, reg_set_mask-Sets,
}
use rtl_sdr_blog.E4k.Filter.{
  IfFilter, chan, find_if_bw, if_filter_bw, if_filter_bw_get, if_filter_bw_set, if_filter_field,
  mix, rc, unsigned_delta,
}
use rtl_sdr_blog.E4k.Filter.Laws.{
  IsClosest, IsTable-get_elem?, closest_arr_idx-IsClosest, if_filter_bw-IsTable,
}

-- The call returns a value, and no error, for which `Q` holds.
abbrev pub Gives : {A : Type 0} → (A → Dev → Type 0) → Res A → Type 0
Gives Q (ok a e) = Q a e
Gives Q (err n e) = ⊥
Gives Q fault = ⊥

find_if_bw-IsClosest :
    (filter : IfFilter) (bw : ℕ)
    → bw < 2 ^ 32
    → (c : ℕ) × (get_elem? (if_filter_bw filter) (find_if_bw filter bw) ≡ some c)
      × IsClosest (if_filter_bw filter) bw c
unfolding find_if_bw
find_if_bw-IsClosest filter bw h =
    closest_arr_idx-IsClosest (if_filter_bw filter) bw (some_entry filter) apart
  where
    some_entry : (filter : IfFilter) → 0 < length (if_filter_bw filter)
    some_entry mix = omega arith
    some_entry chan = omega arith
    some_entry rc = omega arith

    apart :
        (k a : ℕ) → get_elem? (if_filter_bw filter) k ≡ some a → unsigned_delta bw a < 2 ^ 32 - 1
    apart k a e =
        ground (arith, IsTable-get_elem? (if_filter_bw filter) k a (if_filter_bw-IsTable filter) e)

-- The index fits the field.
index_fits :
    (filter : IfFilter) (bw : ℕ) → bw < 2 ^ 32 → find_if_bw filter bw < length (if_filter_bw filter)
index_fits filter bw h =
    (IsTable-get_elem? (if_filter_bw filter) (find_if_bw filter bw)
      (find_if_bw-IsClosest filter bw h).0 (if_filter_bw-IsTable filter)
      (find_if_bw-IsClosest filter bw h).1).0

mask_fits : (filter : IfFilter) → field_mask (if_filter_field filter) < 256
mask_fits mix = omega arith
mask_fits chan = omega arith
mask_fits rc = omega arith

length_fits : (filter : IfFilter) → length (if_filter_bw filter) ≤ 32
length_fits mix = omega arith
length_fits chan = omega arith
length_fits rc = omega arith

module _ (addr : ℕ) (base : ℕ → ℕ) (host : Host) (e4k : HasE4k addr base host) where
  -- What the register of a filter holds once a value was put into its field.
  abbrev with_field : RegField → ℕ → Dev → ℕ
  with_field f val d =
      masked (held addr base host e4k d f.reg) (field_mask f) (u8 (val * 2 ^ f.shift))

  field_write-Sets :
      (f : RegField) (val : ℕ) (d : Dev)
      → d.e4k.i2c_addr ≡ addr
      → field_mask f < 256
      → Sets addr base host e4k f.reg (with_field f val d) d (field_write host f val)
  unfolding field_write
  field_write-Sets f val d h fits = record {
    end = after.end;
    returns =
        ap
          (λ (r : Res ℕ).
            ((λ e. r) >>= λ rc. reg_set_mask host f.reg (field_mask f) (u8 (val * 2 ^ f.shift))) d)
          (reg_read_lem addr base host e4k f.reg d h)
        ∙ after.returns;
    record_kept = after.record_kept;
    set_to =
        after.set_to
        ∙ ap (λ b. masked b (field_mask f) (u8 (val * 2 ^ f.shift)))
            (held-after_read addr base host e4k f.reg f.reg d);
    others = λ r apart. after.others r apart ∙ held-after_read addr base host e4k f.reg r d;
  }
    where
      after :
          Sets addr base host e4k f.reg
            (masked
              (held addr base host e4k (after_read addr base host e4k f.reg d) f.reg)
              (field_mask f)
              (u8 (val * 2 ^ f.shift)))
            (after_read addr base host e4k f.reg d)
            (reg_set_mask host f.reg (field_mask f) (u8 (val * 2 ^ f.shift)))
      after =
          reg_set_mask-Sets addr base host e4k f.reg (field_mask f) (u8 (val * 2 ^ f.shift))
            (after_read addr base host e4k f.reg d) h fits (omega arith)

  -- On an E4000 that satisfies `HasE4k` (it takes each write, and the read after the number of a
  -- register gives the byte that the writes left there), setting any 32-bit bandwidth of any of
  -- the three filters and reading it back returns without an error an entry of the filter's table
  -- that no other is nearer than, and all registers but that of the filter hold what they held.
  pub if_filter_bw_get-if_filter_bw_set :
      (filter : IfFilter) (bandwidth : ℕ) (d : Dev)
      → d.e4k.i2c_addr ≡ addr
      → bandwidth < 2 ^ 32
      → Gives
          (λ bw e.
            IsClosest (if_filter_bw filter) bandwidth bw
            × ((r : ℕ)
                → r ≢ (if_filter_field filter).reg
                → held addr base host e4k e r ≡ held addr base host e4k d r))
          ((if_filter_bw_set host filter bandwidth >> if_filter_bw_get host filter) d)
  unfolding if_filter_bw_set if_filter_bw_get field_read
  if_filter_bw_get-if_filter_bw_set filter bandwidth d h small = rw outcome (
    closest.2,
    λ r apart. held-after_read addr base host e4k field.reg r set.end ∙ set.others r apart,
  )
    where
      field : RegField
      field = if_filter_field filter

      index : ℕ
      index = find_if_bw filter bandwidth

      closest :
          (c : ℕ) × (get_elem? (if_filter_bw filter) index ≡ some c)
          × IsClosest (if_filter_bw filter) bandwidth c
      closest = find_if_bw-IsClosest filter bandwidth small

      set :
          Sets addr base host e4k field.reg
            (with_field field (u8 index) d)
            d
            (field_write host field (u8 index))
      set = field_write-Sets field (u8 index) d h (mask_fits filter)

      byte : u8 index ≡ index
      byte = omega (arith, index_fits filter bandwidth small, length_fits filter)

      reads_index : field_of field (held addr base host e4k set.end field.reg) ≡ index
      reads_index =
          ap (field_of field) (set.set_to ∙ ap (λ i. with_field field i d) byte)
          ∙ field_of-masked filter index (held addr base host e4k d field.reg)
              (index_fits filter bandwidth small) (omega arith)

      outcome :
          (if_filter_bw_set host filter bandwidth >> if_filter_bw_get host filter) d
          ≡ ok closest.0 (after_read addr base host e4k field.reg set.end)
      outcome =
          ap (λ (r : Res (Unit {0})). ((λ e. r) >> if_filter_bw_get host filter) d) set.returns
          ∙ (ap
                (λ (r : Res ℕ).
                  (((λ e. r) >>= λ rc. pure (field_of field rc)) >>= λ i.
                  or_stuck (get_elem? (if_filter_bw filter) i))
                    set.end)
                (reg_read_lem addr base host e4k field.reg set.end
                  (ap (λ k. k.i2c_addr) set.record_kept ∙ h))
              ∙ ap (λ o. or_stuck o (after_read addr base host e4k field.reg set.end))
                  (ap (get_elem? (if_filter_bw filter)) reads_index ∙ closest.1))
