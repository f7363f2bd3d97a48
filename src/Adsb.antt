-- ===== src/Adsb.antt =====
-- src/rtl_adsb.c: the ADS-B decoder. It computes magnitudes, marks the bits that follow a preamble,
-- and packs runs of bits into frames.
pub mod Magnitude
pub mod Manchester
pub mod Messages
mod Tests
