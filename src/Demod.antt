-- ===== src/Demod.antt =====
-- src/librtlsdr.c: the set-up of the RTL2832's demodulator.
pub mod Fir
mod Tests
pub mod Eeprom
