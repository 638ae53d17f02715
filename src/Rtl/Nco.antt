-- ===== src/Rtl/Nco.antt =====
-- `rtl::set_if_freq`, `rtl::start_bulk` and `rtl::stop_bulk` of sdrgg_rtl.cpp.
use libsdrgg.Prelude.{ℕ, ◌-◌, ◌*◌, ◌/◌, ◌%◌, ◌^◌, u32, bit_and, shr, ◌==◌, if◌then◌else◌}
use libsdrgg.Types.{Dev}
use libsdrgg.Exec.{Status, modify, gets, ◌>>=◌, ◌>>◌}
use libsdrgg.Rtl.Transport.{submit_demod_write, submit_block_write, block_usb}

-- `-nco_word` as an `int32_t` bit pattern. The division is the code's 64-bit one, its cast to
-- `int32_t` keeps 32 bits, and `>>` and `&` on a negative number read the same pattern. The divisor is
-- the oscillator, which is only ever set to 28.8 MHz.
unfoldable pub nco_pattern : ℕ → ℕ → ℕ
nco_pattern xtal if_freq_hz =
    if if_freq_hz == 0 then 0 else (2 ^ 32 - u32 (if_freq_hz * 2 ^ 22 / xtal)) % 2 ^ 32

abbrev pub store_if_offset : ℕ → Dev → Dev
store_if_offset f d = record d { tuning = record (d.tuning) { if_offset_hz = f } }

unfoldable pub set_if_freq : ℕ → Status
set_if_freq if_freq_hz = do
  xtal ← gets (λ d. d.oscillator_hz)
  let word = nco_pattern xtal if_freq_hz
  submit_demod_write 1 0x19 (bit_and (shr word 16) 0x3F) 1
  submit_demod_write 1 0x1A (bit_and (shr word 8) 0xFF) 1
  submit_demod_write 1 0x1B (bit_and word 0xFF) 1
  modify (store_if_offset if_freq_hz)

abbrev pub usb_epa_ctl : ℕ
usb_epa_ctl = 0x2148

unfoldable pub start_bulk : Status
start_bulk = do
  submit_block_write block_usb usb_epa_ctl 0x1002 2
  submit_block_write block_usb usb_epa_ctl 0x0000 2

unfoldable pub stop_bulk : Status
stop_bulk = submit_block_write block_usb usb_epa_ctl 0x1002 2
