-- ===== src/Rtl/Frame.antt =====
-- What control transfers, sleeps and the counting of their outcomes keep, the transport of
-- sdrgg_rtl.cpp keeps: the registers of the demodulator and of the tuner.
use libsdrgg.Prelude.{ℕ, zero, suc, ◌+◌, List, [], ◌∷◌, Bool, true, false, ◌≡◌, refl}
use libsdrgg.Types.{TunerType, Errno, Request, control_out, control_in, Reply, done, failed, Dev}
use libsdrgg.Exec.{modify, ioctl, usleep}
use libsdrgg.Exec.Keeps.{Keeps, keeps_rules, Keeps-bind}
use libsdrgg.Usb.{note_failure, note_success, finish_control, control_write, control_read}
use libsdrgg.Rtl.Transport.{
  submit_block_write, submit_block_read, submit_demod_write, submit_demod_read, RegDomain,
  usb_fabric, system_fabric, demod_internal, RegDescriptor, submit_descriptor, apply_descriptors,
  demod_write, demod_read,
}
use libsdrgg.Rtl.Tuner.{
  enable_i2c_repeater, tuner_write, read_two_phase, read_sequential, tuner_read,
}

abbrev pub is_transfer : Request → Bool
is_transfer (control_out value index bytes) = true
is_transfer (control_in value index len) = true
is_transfer _ = false

pub record IsFrame (P : Dev → Type 0) : Type 0 where
  pub on_ioctl : (req : Request) → is_transfer req ≡ true → Keeps P (ioctl req)
  pub on_sleep : (us : ℕ) → Keeps P (usleep us)
  pub on_failure : (e : Errno) → Keeps P (modify (note_failure e))
  pub on_success : Keeps P (modify note_success)

module _ {P : Dev → Type 0} (frame : IsFrame P) where
  finish_control-frame : (r : Reply) → Keeps P (finish_control r)
  unfolding finish_control
  finish_control-frame (done bytes) = search (keeps_rules, frame.on_success)
  finish_control-frame (failed e) = search (keeps_rules, frame.on_failure)

  pub control_write-frame :
      (value index : ℕ) (bytes : List ℕ) → Keeps P (control_write value index bytes)
  unfolding control_write
  control_write-frame value index bytes =
      Keeps-bind _ _ (frame.on_ioctl (control_out value index bytes) refl)
        (λ r. search (keeps_rules, finish_control-frame))

  pub control_read-frame : (value index len : ℕ) → Keeps P (control_read value index len)
  unfolding control_read
  control_read-frame value index len =
      Keeps-bind _ _ (frame.on_ioctl (control_in value index len) refl) finish_control-frame

  pub block_write-frame : (block addr val len : ℕ) → Keeps P (submit_block_write block addr val len)
  unfolding submit_block_write
  block_write-frame block addr val len = control_write-frame _ _ _

  pub block_read-frame : (block addr : ℕ) → Keeps P (submit_block_read block addr)
  unfolding submit_block_read
  block_read-frame block addr = search (keeps_rules, control_read-frame)

  pub page_write-frame : (page reg val len : ℕ) → Keeps P (submit_demod_write page reg val len)
  unfolding submit_demod_write
  page_write-frame page reg val len = search (keeps_rules, control_write-frame, control_read-frame)

  page_read-frame : (page reg : ℕ) → Keeps P (submit_demod_read page reg)
  unfolding submit_demod_read
  page_read-frame page reg = search (keeps_rules, control_read-frame)

  pub demod_write-frame : (block reg val : ℕ) → Keeps P (demod_write block reg val)
  unfolding demod_write
  demod_write-frame block reg val = search (keeps_rules, page_write-frame, block_write-frame)

  pub demod_read-frame : (block reg : ℕ) → Keeps P (demod_read block reg)
  unfolding demod_read
  demod_read-frame block reg = search (keeps_rules, page_read-frame, block_read-frame)

  descriptor-frame :
      (domain : RegDomain) (rd : RegDescriptor) → Keeps P (submit_descriptor domain rd)
  descriptor-frame usb_fabric rd = search (keeps_rules, block_write-frame)
  descriptor-frame system_fabric rd = search (keeps_rules, block_write-frame)
  descriptor-frame demod_internal rd = search (keeps_rules, page_write-frame)

  pub descriptors-frame : (ds : List RegDescriptor) → Keeps P (apply_descriptors ds)
  unfolding apply_descriptors
  descriptors-frame [] = search keeps_rules
  descriptors-frame (rd ∷ ds) =
      Keeps-bind _ _ (descriptor-frame rd.domain rd) (λ _. descriptors-frame ds)

  pub repeater-frame : (on : Bool) → Keeps P (enable_i2c_repeater on)
  unfolding enable_i2c_repeater
  repeater-frame on = search (keeps_rules, page_write-frame, frame.on_sleep) depth 9

  pub tuner_write-frame : (bytes : List ℕ) → Keeps P (tuner_write bytes)
  unfolding tuner_write
  tuner_write-frame bytes = search (keeps_rules, repeater-frame, control_write-frame) depth 12

  two_phase-frame : (addr reg n : ℕ) → Keeps P (read_two_phase addr reg n)
  unfolding read_two_phase
  two_phase-frame addr reg zero = search keeps_rules
  two_phase-frame addr reg (suc n) = Keeps-bind _ _ (control_write-frame _ _ _) λ _.
      Keeps-bind _ _ (control_read-frame _ _ _)
        λ _. Keeps-bind _ _ (two_phase-frame addr (reg + 1) n) λ _. search keeps_rules

  sequential-frame : (c : TunerType) (addr reg n : ℕ) → Keeps P (read_sequential c addr reg n)
  unfolding read_sequential
  sequential-frame c addr reg n = search (keeps_rules, control_read-frame) depth 9

  pub tuner_read-frame : (reg len : ℕ) → Keeps P (tuner_read reg len)
  unfolding tuner_read
  tuner_read-frame reg len =
      search (keeps_rules, repeater-frame, two_phase-frame, sequential-frame) depth 12
