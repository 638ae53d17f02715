-- ===== src/Rtl/Boot.antt =====
-- The filter deployment, the boot phases and the shutdown of sdrgg_rtl.cpp.
use libsdrgg.Prelude.{
  ℕ, zero, suc, ◌+◌, ◌-◌, ◌^◌, List, [], ◌∷◌, ◌++◌, map, not, u8, bit_and, bit_or, shl, shr, take,
  drop,
}
use libsdrgg.Prelude.Int.{ℤ, pos, negsuc}
use libsdrgg.Types.{reset_device, claim_interface, is_r820t_family}
use libsdrgg.Exec.{Status, pure, gets, modify, ◌>>=◌, ◌>>◌, attempt, ignore, ioctl, usleep, when}
use libsdrgg.Rtl.Transport.{
  RegDescriptor, usb_fabric, system_fabric, dseq_add_fabric, dseq_add_demod, apply_descriptors,
  submit_demod_write, submit_block_write, block_sys,
}
use libsdrgg.Rtl.Tuner.{succeeded}
use libsdrgg.Rtl.Nco.{set_if_freq, stop_bulk, usb_epa_ctl}

abbrev pub filter_kernel : List ℤ
filter_kernel =
    negsuc 53
    ∷ negsuc 35
    ∷ negsuc 40
    ∷ negsuc 39
    ∷ negsuc 31
    ∷ negsuc 13
    ∷ pos 14
    ∷ pos 53
    ∷ pos 101
    ∷ pos 156
    ∷ pos 215
    ∷ pos 273
    ∷ pos 327
    ∷ pos 372
    ∷ pos 404
    ∷ pos 421
    ∷ []

-- The bits of an `int32_t`. What follows keeps at most its bits 0 to 11, so `>>` may fill as it likes.
abbrev pub pattern32 : ℤ → ℕ
pattern32 (pos n) = n
pattern32 (negsuc n) = 2 ^ 32 - suc n

abbrev pub tap_byte : ℤ → ℕ
tap_byte t = u8 (pattern32 t)

-- Two 12-bit taps in three bytes.
unfoldable pub pack_pair : ℤ → ℤ → List ℕ
pack_pair a b =
    let a' = pattern32 a in
    let b' = pattern32 b in
    u8 (shr a' 4) ∷ u8 (bit_or (shl a' 4) (bit_and (shr b' 8) 0x0F)) ∷ u8 b' ∷ []

unfoldable pub pack_pairs : List ℤ → List ℕ
unfolding pack_pair
pack_pairs (a ∷ b ∷ rest) = pack_pair a b ++ pack_pairs rest
pack_pairs _ = []

unfoldable pub pack_taps : List ℤ → List ℕ
unfolding pack_pairs
pack_taps kernel = map tap_byte (take 8 kernel) ++ pack_pairs (drop 8 kernel)

-- Consecutive registers of demodulator page 1.
unfoldable pub deploy_from : ℕ → List ℕ → Status
deploy_from reg [] = pure tt
deploy_from reg (b ∷ bs) = do submit_demod_write 1 (u8 reg) b 1; deploy_from (reg + 1) bs

unfoldable pub deploy_filter_coefficients : Status
unfolding pack_taps
deploy_filter_coefficients = deploy_from 0x1C (pack_taps filter_kernel)

abbrev pub usb_sysctl : ℕ
usb_sysctl = 0x2000

abbrev pub usb_epa_maxpkt : ℕ
usb_epa_maxpkt = 0x2158

abbrev pub sys_demod_ctl : ℕ
sys_demod_ctl = 0x3000

abbrev pub sys_demod_ctl_1 : ℕ
sys_demod_ctl_1 = 0x300B

unfoldable pub spec_usb_attach : List RegDescriptor
unfolding dseq_add_fabric
spec_usb_attach = dseq_add_fabric [] usb_fabric usb_sysctl 0x09 1

unfoldable pub spec_endpoint_setup : List RegDescriptor
unfolding dseq_add_fabric
spec_endpoint_setup =
    let d0 = dseq_add_fabric [] usb_fabric usb_epa_maxpkt 0x0002 2 in
    dseq_add_fabric d0 usb_fabric usb_epa_ctl 0x1002 2

unfoldable pub spec_demod_powerup : List RegDescriptor
unfolding dseq_add_fabric
spec_demod_powerup =
    let d0 = dseq_add_fabric [] system_fabric sys_demod_ctl_1 0x22 1 in
    dseq_add_fabric d0 system_fabric sys_demod_ctl 0xE8 1

-- `for( k = 0; k < 6; k++ )`, counting the rounds left.
unfoldable pub clear_shifts : ℕ → ℕ → List RegDescriptor → List RegDescriptor
unfolding dseq_add_demod
clear_shifts zero k ds = ds
clear_shifts (suc n) k ds = clear_shifts n (k + 1) (dseq_add_demod ds 1 (0x16 + k) 0x00 1)

unfoldable pub spec_ddc_initialize : List RegDescriptor
unfolding dseq_add_demod clear_shifts
spec_ddc_initialize =
    let d0 = dseq_add_demod [] 1 0x01 0x14 1 in
    let d1 = dseq_add_demod d0 1 0x01 0x10 1 in
    let d2 = dseq_add_demod d1 1 0x15 0x00 1 in
    let d3 = dseq_add_demod d2 1 0x16 0x0000 2 in clear_shifts 6 0 d3

unfoldable pub spec_signal_mode : List RegDescriptor
unfolding dseq_add_demod
spec_signal_mode =
    let d0 = dseq_add_demod [] 0 0x19 0x05 1 in
    let d1 = dseq_add_demod d0 1 0x93 0xF0 1 in
    let d2 = dseq_add_demod d1 1 0x94 0x0F 1 in
    let d3 = dseq_add_demod d2 1 0x11 0x00 1 in
    let d4 = dseq_add_demod d3 1 0x04 0x00 1 in
    let d5 = dseq_add_demod d4 0 0x61 0x60 1 in
    let d6 = dseq_add_demod d5 0 0x06 0x80 1 in
    let d7 = dseq_add_demod d6 1 0xB1 0x1B 1 in dseq_add_demod d7 0 0x0D 0x83 1

unfoldable pub spec_r820t_if_mode : List RegDescriptor
unfolding dseq_add_demod
spec_r820t_if_mode =
    let d0 = dseq_add_demod [] 1 0xB1 0x1A 1 in
    let d1 = dseq_add_demod d0 0 0x08 0x4D 1 in dseq_add_demod d1 1 0x15 0x01 1

unfoldable pub spec_fc0012_if_mode : List RegDescriptor
unfolding dseq_add_demod
spec_fc0012_if_mode =
    let d0 = dseq_add_demod [] 1 0xB1 0x1B 1 in
    let d1 = dseq_add_demod d0 0 0x08 0xCD 1 in dseq_add_demod d1 1 0x15 0x00 1

abbrev pub xtal_freq : ℕ
xtal_freq = 28800000

-- Phase 0, with one retry after a USB reset.
unfoldable pub attach_usb : Status
attach_usb = do
  rc ← attempt (apply_descriptors spec_usb_attach)
  when (not (succeeded rc)) (do
    ioctl reset_device
    ioctl claim_interface
    usleep 100000
    apply_descriptors spec_usb_attach)

unfoldable pub init : Status
init = do
  attach_usb
  apply_descriptors spec_endpoint_setup
  apply_descriptors spec_demod_powerup
  apply_descriptors spec_ddc_initialize
  deploy_filter_coefficients
  apply_descriptors spec_signal_mode
  modify (λ d. record d { oscillator_hz = xtal_freq })

abbrev pub r820t_if_freq : ℕ
r820t_if_freq = 3570000

unfoldable pub configure_r820t : Status
configure_r820t = do
  is_r820t ← gets (λ d. is_r820t_family d.tuner_class)
  when is_r820t (do apply_descriptors spec_r820t_if_mode; set_if_freq r820t_if_freq)

unfoldable pub configure_fc0012 : Status
configure_fc0012 = do apply_descriptors spec_fc0012_if_mode; set_if_freq 0

unfoldable pub deinit : Status
deinit = do ignore stop_bulk; ignore (submit_block_write block_sys sys_demod_ctl 0x20 1)
