-- ===== src/Lib.antt =====
-- libsdrgg drives RTL2832U USB receivers with an R820T or FC0012 tuner. The parts, from below:
-- sdrgg_usb.cpp talks to the kernel, sdrgg_rtl.cpp to the demodulator and, through its I2C
-- repeater, to the tuner, sdrgg_r820t.cpp and sdrgg_fc0012.cpp program the two tuners through it,
-- sdrgg_ring.cpp hands the received bytes to its subscribers, sdrgg_reset.cpp restores a device,
-- and sdrgg_core.cpp is the API.
--
-- The files:
--   Types     sdrgg.h, sdrgg_internal.h: error codes, tuner types and the device's state
--   Exec      how functions run: a host (the kernel and the device behind it) answers each request
--             from the history of events, and the device's state is passed along, so that what was
--             done before an error stays done. Children: rules for invariants (Keeps), for
--             functions that return (Returns), for what a result says (Yields), for both at once
--             (Always), and for an attempt whose failure leaves what was before (Tries)
--   Usb       sdrgg_usb.cpp: control_write, control_read, bulk_read, claim, release, bitrev8;
--             what a bulk read leaves (Received); the URB pipeline (Urb: urb_alloc, urb_submit,
--             urb_reap, process_device_urbs; urb_cancel_all and urb_free in its child Teardown);
--             the event loop of a context (Loop: event_loop_start, event_loop_stop,
--             event_loop_add_dev, event_loop_remove_dev) and its thread (Dispatch:
--             event_loop_thread, whose devices have a kernel and a pipeline each); the
--             enumeration and what opening a path records (Sysfs), with the texts that they
--             read and write, lists of character codes (Text)
--   Rtl       sdrgg_rtl.cpp: Transport (submit_*, descriptors, demod::*), Tuner (tuner::*, the
--             repeater and i2c_session), Gpio, Boot (init, configure_*, deinit), Nco (set_if_freq,
--             start_bulk, stop_bulk), Rate (set_sample_rate), Ppm (the correction in ppm); Frame
--             and Quiet say what an access cannot change
--   R820t     sdrgg_r820t.cpp and its header: Addr, Intents, Powerup, Path, Pll, Gain, Bandwidth,
--             and Codec with the operations
--   Fc0012    sdrgg_fc0012.cpp and its header: Loc, Ratio, Wire (accesses, detection, gain) and
--             Session (calibration and tuning)
--   Caps      sdrgg_tuner_caps.cpp: the capability tables of all tuners and their lookup
--   Ring      sdrgg_ring.cpp: the ring, its writer, a consumer's loop; the subscribers' slots
--             (Slots); ring_engine::start and stop with their threads (Engine); the reader's
--             thread with synchronous reads (Reader) and with URBs (Async)
--   Core      sdrgg_core.cpp: the configuration functions, from set_frequency to set_digital_agc,
--             in Attach the context's slots and open_path with its rollback, in Queries read_sync
--             and the queries, in Close stop_stream and close, in Select open by index, and in
--             Destroy destroy; Commit and its children are about what set_frequency,
--             set_sample_rate and set_gain record
--   Reset     sdrgg_reset.cpp: reset_demod, reset_tuner, reset_usb, reset_full, and reset_power
--             in Power
--   Log       sdrgg_debug_log.cpp: the log of the transfers
--   Tests     the theorems at concrete inputs
--
-- A function returns `ok` with its output, `err` with the error code, or `trap` where the process
-- would die of a division by zero or a loop would run out of fuel. A division is not tested where
-- its divisor is a constant above 0 or the oscillator, which is only ever set to 28.8 MHz (as in
-- set_if_freq), or was tested before (as the rate of set_sample_rate). Names are the code's; an
-- operation of several statements is split into helpers named for what they do. Integers are
-- natural numbers with C's wrap-around written out; int32_t values are the ℤ of Prelude.Int.
--
-- The stream's state stands in four records: Stream (the pipeline of a device, with the kernel that
-- answers from what happened to its URBs), EventLoop (of the context), Engine (the threads and the
-- life of the ring) and IqRing (its bytes). Each has the fields that its functions read or write.
--
-- Fuel: bulk_read gets one round more than there are bytes, and each round that goes on reads at
-- least one. The sigma-delta loop gets 17 rounds for a weight of 16 bits that doubles. The loop of
-- process_device_urbs, which ends only when the kernel has nothing more to give, gets one round
-- for each URB that it reaps and one for the last reap; a device for which the fuel was not enough
-- is marked in Dispatch. The reader's synchronous loop, which runs until it is cancelled, is
-- followed for a number of rounds.
--
-- The files under /sys and the kernel's link of a file descriptor are parameters. The files do not
-- change while they are read, but what a write to a port's file gives may depend on all that was
-- done to the port. The search for a port reads directories and attributes, which it closes again:
-- these reads leave no event, only what is done to the port's file does. Of the C library atoi,
-- strtoul, sscanf and snprintf are written out for the formats that the code gives them, on
-- numbers that fit their types.
--
-- Not modelled: the stream functions that are compiled out; the setter of the hot-plug
-- callback, whose result is a flag of the device; the examples; the messages on stderr. The log
-- changes nothing that is returned, so the transfers do not write it. The hot-plug callback is
-- taken not to call back into the library. In the ring, a round of a consumer and a write are
-- one step each: a writer that overtakes a consumer in the middle of its copy is not covered. A
-- reader's check that no device streams and its stop of the event loop are one step, and so is
-- a call of process_device_urbs. When a device is closed that streams with URBs, its reader is
-- taken to wait still, and not to have ended by itself after a disconnection.
pub mod Prelude
pub mod Types
pub mod Exec
pub mod Usb
pub mod Rtl
pub mod R820t
pub mod Fc0012
pub mod Ring
pub mod Core
pub mod Caps
pub mod Reset
pub mod Log
pub mod Tests
