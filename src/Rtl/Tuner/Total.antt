-- ===== src/Rtl/Tuner/Total.antt =====
-- The results of the transport and of the tuner accesses of sdrgg_rtl.cpp.
use libsdrgg.Prelude.{ℕ, zero, suc, ◌+◌, List, Bool}
use libsdrgg.Types.{TunerType, Reply, done, failed}
use libsdrgg.Exec.Returns.{Returns, Returns-bind, Returns-pure, returns_rules}
use libsdrgg.Usb.{finish_control, control_write, control_read}
use libsdrgg.Rtl.Transport.{
  submit_block_write, submit_block_read, submit_demod_write, submit_demod_read,
}
use libsdrgg.Rtl.Nco.{start_bulk, stop_bulk}
use libsdrgg.Rtl.Tuner.{
  enable_i2c_repeater, tuner_write, read_two_phase, read_sequential, tuner_read, write_reg,
  read_reg, current_value, rmw,
}

finish_control-Returns : (r : Reply) → Returns (finish_control r)
unfolding finish_control
finish_control-Returns (done bytes) = search returns_rules
finish_control-Returns (failed e) = search returns_rules

pub control_write-Returns :
    (value index : ℕ) (bytes : List ℕ) → Returns (control_write value index bytes)
unfolding control_write
control_write-Returns value index bytes = search (returns_rules, finish_control-Returns)

pub control_read-Returns : (value index len : ℕ) → Returns (control_read value index len)
unfolding control_read
control_read-Returns value index len = search (returns_rules, finish_control-Returns)

ruleset transfers = (returns_rules, control_write-Returns, control_read-Returns)

pub submit_block_write-Returns :
    (block addr val len : ℕ) → Returns (submit_block_write block addr val len)
unfolding submit_block_write
submit_block_write-Returns block addr val len = search transfers

pub start_bulk-Returns : Returns start_bulk
unfolding start_bulk
start_bulk-Returns = search (returns_rules, submit_block_write-Returns)

pub stop_bulk-Returns : Returns stop_bulk
unfolding stop_bulk
stop_bulk-Returns = submit_block_write-Returns _ _ _ _

pub submit_block_read-Returns : (block addr : ℕ) → Returns (submit_block_read block addr)
unfolding submit_block_read
submit_block_read-Returns block addr = search transfers

pub submit_demod_write-Returns :
    (page reg val len : ℕ) → Returns (submit_demod_write page reg val len)
unfolding submit_demod_write
submit_demod_write-Returns page reg val len = search transfers

pub submit_demod_read-Returns : (page reg : ℕ) → Returns (submit_demod_read page reg)
unfolding submit_demod_read
submit_demod_read-Returns page reg = search (returns_rules, control_read-Returns)

pub enable_i2c_repeater-Returns : (on : Bool) → Returns (enable_i2c_repeater on)
unfolding enable_i2c_repeater
enable_i2c_repeater-Returns on = search (returns_rules, submit_demod_write-Returns) depth 9

pub tuner_write-Returns : (bytes : List ℕ) → Returns (tuner_write bytes)
unfolding tuner_write
tuner_write-Returns bytes = search (transfers, enable_i2c_repeater-Returns) depth 12

read_two_phase-Returns : (addr reg n : ℕ) → Returns (read_two_phase addr reg n)
unfolding read_two_phase
read_two_phase-Returns addr reg zero = search returns_rules
read_two_phase-Returns addr reg (suc n) = Returns-bind _ _ (control_write-Returns _ _ _) λ _.
    Returns-bind _ _ (control_read-Returns _ _ _)
      λ _. Returns-bind _ _ (read_two_phase-Returns addr (reg + 1) n) λ _. Returns-pure _

read_sequential-Returns :
    (cls : TunerType) (addr reg n : ℕ) → Returns (read_sequential cls addr reg n)
unfolding read_sequential
read_sequential-Returns cls addr reg n = search transfers depth 9

pub tuner_read-Returns : (reg len : ℕ) → Returns (tuner_read reg len)
unfolding tuner_read
tuner_read-Returns reg len =
    search
      (returns_rules, enable_i2c_repeater-Returns, read_two_phase-Returns, read_sequential-Returns)
      depth 12

pub write_reg-Returns : (reg val : ℕ) → Returns (write_reg reg val)
unfolding write_reg
write_reg-Returns reg val = search (returns_rules, tuner_write-Returns)

pub rmw-Returns : (reg val mask : ℕ) → Returns (rmw reg val mask)
unfolding rmw current_value read_reg
rmw-Returns reg val mask = search (returns_rules, tuner_read-Returns, write_reg-Returns) depth 9
