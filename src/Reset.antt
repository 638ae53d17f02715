-- ===== src/Reset.antt =====
-- sdrgg_reset.cpp, levels 1 to 3; level 4 is in Power. The device is open: it has its file descriptor.
-- What the resets say on stderr is left out.
pub mod Refresh
pub mod Full
pub mod Power
use libsdrgg.Prelude.{Bool, true, false, bit_and, bit_or, not8}
use libsdrgg.Types.{
  TunerType, tuner_r820t, tuner_fc0012, Result, reset_device, Reply, done, failed, err_param,
  err_usb, Dev,
}
use libsdrgg.Exec.{
  Status, pure, fail, gets, ◌>>=◌, ◌>>◌, attempt, ignore, return_code, ioctl, usleep,
}
use libsdrgg.Rtl.Transport.{demod_read, demod_write}
use libsdrgg.Rtl.Tuner.{enable_i2c_repeater, r820t_num_regs}
use libsdrgg.R820t.Codec.{flush_file}
use libsdrgg.Fc0012.Wire

-- Level 1: bit 2 of register 0x01 of page 1 is set and cleared.
unfoldable pub reset_demod : Status
reset_demod = do
  val ← demod_read 0 0x0101
  demod_write 0 0x0101 (bit_or val 0x04)
  usleep 1000
  demod_write 0 0x0101 (bit_and val (not8 0x04))
  usleep 1000

-- Level 2 of an R820T: its registers are written from the shadow.
unfoldable pub refresh_tuner : Status
refresh_tuner = do
  enable_i2c_repeater true
  rc ← attempt (flush_file r820t_num_regs 0)
  ignore (enable_i2c_repeater false)
  return_code rc

unfoldable pub reset_tuner_of : TunerType → Status
reset_tuner_of tuner_r820t = refresh_tuner
reset_tuner_of tuner_fc0012 = Wire.init
reset_tuner_of _ = fail err_param

unfoldable pub reset_tuner : Status
reset_tuner = do cls ← gets (λ d. d.tuner_class); reset_tuner_of cls

-- Level 3.
unfoldable pub reset_usb : Status
reset_usb = do
  reply ← ioctl reset_device
  elim reply [ done _ ↦ usleep 500000 | failed _ ↦ fail err_usb ]

-- Levels 1 to 3: a failure of the first two is only reported.
unfoldable pub reset_full : Status
reset_full = do ignore reset_demod; ignore reset_tuner; reset_usb
