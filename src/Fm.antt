-- ===== src/Fm.antt =====
-- src/rtl_fm.c: the signal path of the FM demodulator. A buffer of interleaved I and Q values is a
-- list of pairs.
pub mod Filter
pub mod Phase
pub mod Fir
pub mod Demod
pub mod Thread
pub mod Controller
mod Tests
