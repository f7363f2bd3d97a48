-- ===== src/Tcp.antt =====
-- src/rtl_tcp.c: the server that sends the samples to a client and takes its commands.
pub mod Queue
pub mod Commands
mod Tests
