-- ===== src/Lib.antt =====
-- rtl-sdr-blog: librtlsdr, the driver of dongles with the RTL2832 and a tuner, and tools over it.
--
-- The program. `src/librtlsdr.c` sends control transfers through libusb: to registers of the RTL2832
-- itself (its USB block, its system block with the GPIOs, its demodulator) and, through its I2C
-- block, to the tuner. `src/tuner_r82xx.c` drives the R820T and R828D tuners over that I2C link and
-- keeps a shadow copy of the tuner's registers, from which masked writes are made. The tools, such
-- as `src/rtl_adsb.c`, read samples and process them.
--
-- The files.
--   State      the device record (`struct rtlsdr_dev`, `struct r82xx_priv`), the log of transfers,
--              and the monad of calls: a value, an error code -(n + 1), or undefined behaviour
--   Usb        the register, I2C and GPIO functions of src/librtlsdr.c
--   R82xx      src/tuner_r82xx.c: Tables (constants), Regs (r82xx_write, r82xx_read and the shadow),
--              Mux, Pll, Sysfreq, Standard, Gain, Bandwidth, Tune (r82xx_set_freq), Init
--   R82xx.Chip the registers that the chip holds, computed from the log of transfers: a view that
--              is independent of the driver's shadow copy
--   R82xx.Coherence  what the driver's operations keep
--   Demod      parts of src/librtlsdr.c: Fir (rtlsdr_set_fir), Eeprom (rtlsdr_write_eeprom,
--              rtlsdr_read_eeprom)
--   Device     the rest of the control in src/librtlsdr.c: Baseband (rtlsdr_init_baseband), Clock
--              (the corrected clocks, rtlsdr_set_if_freq), Center (rtlsdr_set_center_freq,
--              rtlsdr_set_direct_sampling), Tuner (the function table of a tuner and that of the
--              R820T), Rate (the resampler's ratio), Control (rtlsdr_set_sample_rate and the other
--              setters), Gains (rtlsdr_get_tuner_gains), Open (rtlsdr_open from the probing on),
--              Codes (return values that are combined by `|=`), Doubles (the arithmetic in `double`)
--   Discovery  the devices on the bus in src/librtlsdr.c: the known ones, their count, names and
--              serial numbers, and which one an index stands for in each loop over them
--   Adsb       src/rtl_adsb.c: Magnitude (magnitute), Manchester (preamble, manchester),
--              Messages (messages, display)
--   E4k        src/tuner_e4k.c: the registers and fields, Filter, Pll, Gain, Dc (offset
--              calibration), Init; Iface, its entry in the function table of src/librtlsdr.c
--   Fc2580     src/tuner_fc2580.c
--   Fc0012     src/tuner_fc0012.c, with its entry in the function table of src/librtlsdr.c
--   Fc0013     src/tuner_fc0013.c, likewise; its PLL is that of the FC0012
--   Async      rtlsdr_read_async, rtlsdr_cancel_async and _libusb_callback of src/librtlsdr.c
--   Fm         src/rtl_fm.c: Filter (rotate_90, low_pass, low_pass_real), Fir (fifth_order,
--              generic_fir), Phase (multiply, fast_atan2 and the discriminants in integers), Demod
--              (fm_demod and the other demodulators, deemph_filter, dc_block_filter), Thread
--              (rtlsdr_callback, full_demod, demod_thread_fn), Controller (optimal_settings and
--              the hops of controller_thread_fn)
--   Tcp        src/rtl_tcp.c: Queue (the list of buffers between rtlsdr_callback and tcp_worker, as
--              a step relation), Commands (command_worker and the calls that it makes)
--   Underrun   underrun_test of src/rtl_test.c, over the buffers of a stream
--   Convenience  nearest_gain of src/convenience/convenience.c, with its loop in Search
--   Config     src/rtl_eeprom.c: the string descriptors, and Image, the whole configuration
--   Common     numbers, lists, tests, casts to the widths of C, signed integers, bits
--
-- libusb and the dongle. A `Host` is an unknown function from the transfers made so far, and the
-- next one, to its outcome; the theorems hold for every such function, failures included, but for
-- those on a chip that answers: the EEPROM (`HasEeprom`), the registers of an E4000 (`HasE4k`) and
-- the check register of a tuner (`HasTuner`). What an uninitialised buffer holds is unknown in the
-- same way.
--
-- Doubles. What src/librtlsdr.c computes in `double` is a parameter, `Doubles`: a quotient and a
-- frequency with a correction in ppm, both cut to an integer. `IsIeee` states what the theorems on
-- the sample rate rely on: quotients of integers below 2^52 are cut exactly. In src/rtl_fm.c the
-- arc tangent, the square roots and the logarithm are parameters likewise.
--
-- Numbers are those of C, with their wrap-around written out. A read out of a table's range and a
-- division by zero are `fault`, or `none` in a pure helper. Loops of C whose end is not plain from
-- their form run on fuel and give `fault` or `none` where it runs out: 8 rounds for the divider of
-- the PLL (it doubles from 2 to 128), 32 for the sigma-delta loop (its divisor doubles to 2^15),
-- one more than the bytes for the pieces of a write, one for each sample for the messages and
-- one more for the Manchester decoder, whose indices its loops keep inside the buffer. The calls of
-- `rtlsdr_set_center_freq` and `_rtlsdr_set_direct_sampling` among each other are three deep in the
-- model, which is shown to be enough; the event loop of `rtlsdr_read_async` has fuel for its rounds,
-- of which two are enough once the stream is being cancelled, over a libusb that cancels as
-- `IsDocumented` has it.
--
-- Left out: messages to stderr, null checks of the device handle, code under `#if 0`, threads and
-- delays, the claiming and closing of devices, and the other tools; the buffer of 31 bytes that a
-- write goes through is not a bound of the model, since the driver's writes are of 30 bytes at
-- most. A tuner that was never set to a standard and one in standby (`type` -1) have the same
-- `tv_type`, which nothing tells apart.
pub mod Common
pub mod State
pub mod Usb
pub mod R82xx
pub mod Adsb
pub mod Demod
pub mod Device
pub mod Async
pub mod Fc0012
pub mod Fc0013
pub mod Fm
pub mod Discovery
pub mod E4k
pub mod Fc2580
pub mod Convenience
pub mod Config
pub mod Tcp
pub mod Underrun
