-- ===== src/Tests/Devices.antt =====
-- The transfers and the R820T at concrete inputs.
use libsdrgg.Prelude.{
  ℕ, zero, suc, ◌+◌, List, [], ◌∷◌, Bool, true, false, Option, none, some, ◌≡◌, refl, ap, arith,
  replicate, bit_and, not8, all_below-holds, ◌==◌, ◌||◌, not, length-replicate,
}
use libsdrgg.Prelude.Int.{pos}
use libsdrgg.Types.{
  tuner_r820t, ok, health_ok, Request, control_out, control_in, bulk_in, reset_device,
  claim_interface, release_interface, get_capabilities, get_driver, disconnect_driver,
  get_descriptor, close_fd, Reply, done, failed, enodev, Event, io, Host, Dev,
}
use libsdrgg.Usb.{control_write, control_read, bulk_read, finish_control, note_success}
use libsdrgg.Usb.Bulk.{IsBounded, AnswerFits, Within, bulk_read-Within}
use libsdrgg.Usb.Hotplug.{IsNotifiedOnce, transfers-IsNotifiedOnce}
use libsdrgg.Rtl.Tuner.{
  in_shadow, shadow_of, write_reg, rmw, tuner_write, enable_i2c_repeater, store_shadow,
  current_value,
}
use libsdrgg.Rtl.Tuner.Chip.{chip_value}
use libsdrgg.Rtl.Tuner.Mirrored.{IsMirrored}
use libsdrgg.Rtl.Tuner.Merge.{rmw-merges}
use libsdrgg.Exec.{ioctl, ◌>>=◌, pure, modify, gets, attempt, ignore, return_code, usleep}
use libsdrgg.Rtl.Transport.{submit_demod_write, submit_demod_read}
use libsdrgg.R820t.Powerup.{compose_powerup_image, merge_contributor}
use libsdrgg.R820t.Codec.{flush_file, init, set_freq, standby}
use libsdrgg.R820t.Bandwidth.{set_bandwidth}
use libsdrgg.R820t.Gain.{
  set_lna_gain, set_mixer_gain, set_vga_gain, apply_assignment, compose_assignment,
}
use libsdrgg.R820t.Mirror.{operations-IsMirrored}
use libsdrgg.R820t.ColdStart.{init-IsMirrored}

-- A kernel that grants every request, with zeros for the data.
abbrev grant : Request → Reply
grant (control_in value index len) = done (replicate len 0)
grant (bulk_in len timeout) = done (replicate len 0)
grant _ = done []

abbrev pub quiet_host : Host
quiet_host = record { ioctl = λ trace req. grant req; stale = λ trace. 0 }

-- A kernel that has lost the device.
abbrev gone_host : Host
gone_host = record { ioctl = λ trace req. failed enodev; stale = λ trace. 0 }

abbrev pub device : List Event → Dev
device trace = record {
  info = record {
    path = [];
    vid = 0;
    pid = 0;
    serial = [];
    bus = 0;
    devaddr = 0;
    tuner = tuner_r820t;
  };
  tuner_class = tuner_r820t;
  tuner_bus_addr = 0x34;
  oscillator_hz = 28800000;
  freq_offset_ppm = pos 0;
  r820t_file = replicate 27 0;
  tuning = record {
    center_freq_hz = 0;
    sampling_rate_hz = 0;
    if_offset_hz = 0;
    gain_policy = pos 0;
    requested_freq_hz = 0;
    requested_rate_hz = 0;
    last_freq_result = ok tt;
    last_rate_result = ok tt;
  };
  stream_active = false;
  usb_error_count = 0;
  health = health_ok;
  has_hotplug_cb = true;
  trace = trace;
}

-- Zero was written to each of the registers 5, …, 4 + n.
abbrev zeros : ℕ → List Event
zeros zero = []
zeros (suc n) = io (control_out 0x34 0x0610 ((5 + n) ∷ 0 ∷ [])) (done []) ∷ zeros n

abbrev zeroed : Dev
zeroed = device (zeros 27)

-- Both sides of a register agree.
abbrev agrees : Option ℕ → ℕ → Bool
agrees none v = false
agrees (some c) v = c == v

agrees-some : (o : Option ℕ) (v : ℕ) → agrees o v ≡ true → o ≡ some v
agrees-some none v h = absurd (ground arith)
agrees-some (some c) v h = ap some (ground arith)

abbrev mirrors_at : ℕ → Bool
mirrors_at reg =
    not (in_shadow reg) || agrees (chip_value 0x34 reg (zeros 27)) (shadow_of zeroed reg)

second : (a b : Bool) → (not a || b) ≡ true → a ≡ true → b ≡ true
second true b h k = h
second false b h k = absurd (ground arith)

zeroed-IsMirrored : IsMirrored zeroed
zeroed-IsMirrored = record {
  family = refl;
  whole = refl;
  mirrors = λ reg shadowed below.
      agrees-some (chip_value 0x34 reg (zeros 27)) (shadow_of zeroed reg)
        (second (in_shadow reg) _ (all_below-holds 32 mirrors_at refl reg below) shadowed);
}

operations-IsMirrored_example :
    IsMirrored (set_freq 100000000 3570000 quiet_host zeroed).1
    × IsMirrored (standby quiet_host zeroed).1
    × IsMirrored (set_bandwidth 2000 quiet_host zeroed).1
    × IsMirrored (set_lna_gain (pos 5) quiet_host zeroed).1
    × IsMirrored (set_mixer_gain (pos 5) quiet_host zeroed).1
    × IsMirrored (set_vga_gain (pos 5) quiet_host zeroed).1
operations-IsMirrored_example =
    operations-IsMirrored 100000000 3570000 2000 (pos 5) quiet_host zeroed zeroed-IsMirrored

rmw-merges_example :
    (v : ℕ) × (rmw 0x10 0x60 0xE0 quiet_host zeroed ≡ write_reg 0x10 v quiet_host zeroed)
    × (bit_and v 0xE0 ≡ bit_and 0x60 0xE0)
    × (bit_and v (not8 0xE0) ≡ bit_and (shadow_of zeroed 0x10) (not8 0xE0))
rmw-merges_example = rmw-merges 0x10 0x60 0xE0 quiet_host zeroed refl (omega arith)

pub quiet_host-IsBounded : IsBounded quiet_host
quiet_host-IsBounded = record { fits = λ trace req. grant-AnswerFits req }
  where
    grant-AnswerFits : (req : Request) → AnswerFits req (grant req)
    grant-AnswerFits (control_out value index bytes) = tt
    grant-AnswerFits (control_in value index len) = tt
    grant-AnswerFits (bulk_in len timeout) = omega (arith, length-replicate {A = ℕ} len 0)
    grant-AnswerFits reset_device = tt
    grant-AnswerFits claim_interface = tt
    grant-AnswerFits release_interface = tt
    grant-AnswerFits get_capabilities = tt
    grant-AnswerFits get_driver = tt
    grant-AnswerFits disconnect_driver = tt
    grant-AnswerFits get_descriptor = tt
    grant-AnswerFits close_fd = tt

bulk_read-Within_example : Within 100 (bulk_read 100 1000 quiet_host zeroed).0
bulk_read-Within_example =
    bulk_read-Within 100 1000 quiet_host zeroed quiet_host-IsBounded (omega arith)

zeroed-IsNotifiedOnce : IsNotifiedOnce zeroed
zeroed-IsNotifiedOnce = record { bound = omega arith }

transfers-IsNotifiedOnce_example :
    IsNotifiedOnce (control_write 0 0x0610 (1 ∷ []) gone_host zeroed).1
    × IsNotifiedOnce (control_read 0 0x0610 1 gone_host zeroed).1
    × IsNotifiedOnce (bulk_read 1 1000 gone_host zeroed).1
transfers-IsNotifiedOnce_example =
    transfers-IsNotifiedOnce 0 0x0610 1 1000 (1 ∷ []) gone_host zeroed zeroed-IsNotifiedOnce

-- The cold start of a fresh device succeeds on the quiet host.
starts : (init quiet_host (device [])).0 ≡ ok tt
unfolding init flush_file write_reg tuner_write enable_i2c_repeater submit_demod_write control_write
    control_read finish_control submit_demod_read ioctl ◌>>=◌ pure modify gets attempt ignore
    return_code note_success store_shadow usleep set_lna_gain set_mixer_gain set_vga_gain
    apply_assignment compose_assignment rmw current_value compose_powerup_image merge_contributor
starts = refl

init-IsMirrored_example : IsMirrored (init quiet_host (device [])).1
init-IsMirrored_example = init-IsMirrored quiet_host (device []) refl starts
