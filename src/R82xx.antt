-- ===== src/R82xx.antt =====
-- src/tuner_r82xx.c: the driver of the Rafael Micro R820T and R828D tuners.
pub mod Tables
pub mod Regs
pub mod Mux
pub mod Pll
pub mod Sysfreq
pub mod Standard
pub mod Gain
pub mod Bandwidth
pub mod Tune
pub mod Init
pub mod Chip
pub mod Coherence
pub mod Frame
pub mod Tests
