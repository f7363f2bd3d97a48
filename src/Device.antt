-- ===== src/Device.antt =====
-- src/librtlsdr.c: the control of the device above its registers. The demodulator's set-up, the
-- clocks, tuning and direct sampling, the sample rate and the gains.
pub mod Codes
pub mod Doubles
pub mod Baseband
pub mod Clock
pub mod Center
pub mod Tuner
pub mod Rate
pub mod Gains
pub mod Control
pub mod Open
pub mod Tests
