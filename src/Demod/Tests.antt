-- ===== src/Demod/Tests.antt =====
-- The theorems on the FIR filter and the EEPROM at concrete inputs.
use rtl_sdr_blog.Common.{[], arith, get_or, refl, ℕ, ◌∷◌}
use rtl_sdr_blog.State.{Host, Log, ctrl_in, ctrl_out, done}
use rtl_sdr_blog.Demod.Fir.{fir_bytes, fir_default}
use rtl_sdr_blog.Demod.Fir.Laws.{Packed, fir_bytes-Packed}
use rtl_sdr_blog.R82xx.Tests.{dongle}
use rtl_sdr_blog.Usb.Laws.{Ensures}
use rtl_sdr_blog.R82xx.Chip.{chip}
use rtl_sdr_blog.Demod.Eeprom.{eeprom_addr, write_eeprom}
use rtl_sdr_blog.Demod.Eeprom.Laws.{HasEeprom, Holds, address_out}
use rtl_sdr_blog.Demod.Eeprom.Stores.{write_eeprom-Holds}

fir_bytes-Packed_example : Packed fir_default (fir_bytes fir_default)
fir_bytes-Packed_example = fir_bytes-Packed fir_default refl

-- A dongle with an EEPROM that was erased, and takes every write.
abbrev erased : ℕ → ℕ
erased r = 255

abbrev newest_address : Log → ℕ
newest_address [] = 0
newest_address (e ∷ log) = get_or e.transfer.bytes 0 0

abbrev eeprom_host : Host
unfolding chip
eeprom_host = record {
  answer = λ log t. elim t.direction [
    | ctrl_out ↦ done t.len (λ i. 0)
    | ctrl_in ↦ done t.len (λ i. chip eeprom_addr erased log (newest_address log))
  ];
  junk = λ log i. 0;
}

eeprom_host-HasEeprom : HasEeprom erased eeprom_host
unfolding chip
eeprom_host-HasEeprom = record {
  takes_address = λ log a. ((λ i. 0), refl);
  reads_back = λ log a f. (
    (λ i. chip eeprom_addr erased (record { transfer = address_out a; reply = done 1 f } ∷ log) a),
    refl,
    ground arith,
  );
}

write_eeprom-Holds_example :
    Ensures
      (Holds erased eeprom_host eeprom_host-HasEeprom 9 (82 ∷ 0 ∷ 255 ∷ []) dongle)
      (write_eeprom eeprom_host (82 ∷ 0 ∷ 255 ∷ []) 9 dongle)
write_eeprom-Holds_example =
    write_eeprom-Holds erased eeprom_host eeprom_host-HasEeprom (82 ∷ 0 ∷ 255 ∷ []) 9 dongle
