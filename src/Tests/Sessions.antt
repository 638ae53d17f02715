-- ===== src/Tests/Sessions.antt =====
-- Opening, closing, resetting and the capabilities at concrete inputs.
use libsdrgg.Prelude.{
  ℕ, zero, suc, [], ◌∷◌, ◌≤◌, length, true, Option, none, some, ◌≡◌, refl, arith, sym, ◌∙◌, ◌≢◌,
  get_or, replicate,
}
use libsdrgg.Types.{ok, tuner_e4000}
use libsdrgg.Exec.{ioctl, ◌>>=◌, pure, modify, gets, attempt, ignore, return_code, usleep}
use libsdrgg.Usb.{control_write, control_read, finish_control, note_success}
use libsdrgg.Rtl.Transport.{submit_demod_write}
use libsdrgg.Rtl.Tuner.{write_reg, tuner_write, enable_i2c_repeater, store_shadow}
use libsdrgg.Rtl.Tuner.Mirrored.{IsMirrored}
use libsdrgg.R820t.Codec.{flush_file}
use libsdrgg.Prelude.Int.{pos}
use libsdrgg.Core.{set_frequency, set_sample_rate, set_gain}
use libsdrgg.Core.Commit.Rate.{RateSettled, set_sample_rate-RateSettled}
use libsdrgg.Core.Commit.Gain.{GainSettled, set_gain-GainSettled}
use libsdrgg.R820t.Pll.{reference_khz}
use libsdrgg.Core.Commit.{Tunable, Settled, set_frequency-Settled}
use libsdrgg.Core.Destroy.{Attached, destroy}
use libsdrgg.Core.Destroy.Collected.{registered}
use libsdrgg.Core.Destroy.Ended.{IsDestroyed, destroy-IsDestroyed}
use libsdrgg.Ring.Engine.{calls_start}
use libsdrgg.Ring.Engine.Safety.{IsSafe, run_calls-IsSafe}
use libsdrgg.Core.Attach.{max_devices, create, free_slot, register_at, unregister}
use libsdrgg.Core.Attach.Slots.{IsWellFormed, IsAbsent, registration-IsWellFormed}
use libsdrgg.Reset.{reset_tuner, reset_tuner_of, refresh_tuner}
use libsdrgg.Reset.Refresh.{reset_tuner-IsMirrored}
use libsdrgg.Caps.{get_caps_by_type}
use libsdrgg.Caps.Consistent.{Describes, get_caps_by_type-Describes}
use libsdrgg.Tests.Devices.{quiet_host, device}
use libsdrgg.Tests.Streams.{test_kernel, two_urbs, streaming_session}

no_device : (n i : ℕ) → get_or (replicate {A = Option ℕ} n none) i none ≡ none
no_device zero i = refl
no_device (suc n) zero = refl
no_device (suc n) (suc i) = no_device n i

create-IsWellFormed : IsWellFormed create
unfolding create
create-IsWellFormed = record { whole = refl; fits = omega arith; counted = λ i past. no_device 8 i }

first_slot : free_slot 0 create.devices ≡ some 0
unfolding free_slot create
first_slot = refl

seven-IsAbsent : IsAbsent 7 create.devices
unfolding create
seven-IsAbsent i e = none-ne-some 7 (sym (no_device 8 i) ∙ e)
  where
    none-ne-some : (x : ℕ) → ◌≢◌ {A = Option ℕ} none (some x)
    none-ne-some x p = cc

registration-IsWellFormed_example :
    IsWellFormed (register_at 0 7 create)
    × IsWellFormed (unregister 7 (register_at 0 7 create))
    × ((unregister 7 (register_at 0 7 create)).devices ≡ create.devices)
registration-IsWellFormed_example =
    registration-IsWellFormed 7 0 create create-IsWellFormed first_slot seven-IsAbsent

-- Every device streams, with two URBs.
abbrev streaming : ℕ → Attached
streaming dev = record {
  kernel = test_kernel;
  host = quiet_host;
  state = device [];
  engine = streaming_session.engine;
  pipeline = two_urbs;
}

streaming-IsSafe : (dev : ℕ) → IsSafe (streaming dev).engine
streaming-IsSafe dev = run_calls-IsSafe (calls_start true true true true ∷ [])

destroy-IsDestroyed_example :
    let ctx = register_at 0 7 create in
    IsDestroyed streaming
      (registered ctx.devices)
      (destroy streaming ctx streaming_session.event_loop)
    × (length (registered ctx.devices) ≤ max_devices)
destroy-IsDestroyed_example =
    destroy-IsDestroyed streaming (register_at 0 7 create) streaming_session.event_loop
      streaming-IsSafe
      (registration-IsWellFormed 7 0 create create-IsWellFormed first_slot seven-IsAbsent).0

set_gain-GainSettled_example :
    let (r, d) = set_gain (pos 300) quiet_host (device []) in
    GainSettled (pos 300) (device []).tuning r d
set_gain-GainSettled_example = set_gain-GainSettled (pos 300) quiet_host (device [])

set_sample_rate-RateSettled_example :
    let (r, d) = set_sample_rate 2048000 quiet_host (device []) in
    RateSettled 2048000 (device []).tuning r d
set_sample_rate-RateSettled_example =
    set_sample_rate-RateSettled 2048000 quiet_host (device []) (omega arith) (omega arith) refl refl

-- 28800 kHz.
device-Tunable : Tunable (device []).oscillator_hz (device []).freq_offset_ppm
unfolding reference_khz
device-Tunable = (omega arith, omega arith, omega arith)

set_frequency-Settled_example :
    let (r, d) = set_frequency 100000000 quiet_host (device []) in
    Settled 100000000 (device []).tuning r d
set_frequency-Settled_example =
    set_frequency-Settled 100000000 quiet_host (device []) device-Tunable

refreshes : (reset_tuner quiet_host (device [])).0 ≡ ok tt
unfolding reset_tuner reset_tuner_of refresh_tuner flush_file write_reg tuner_write
    enable_i2c_repeater submit_demod_write control_write control_read finish_control ioctl ◌>>=◌
    pure modify gets attempt ignore return_code note_success store_shadow usleep
refreshes = refl

reset_tuner-IsMirrored_example :
    IsMirrored (reset_tuner quiet_host (device [])).1
    × ((reset_tuner quiet_host (device [])).1.r820t_file ≡ (device []).r820t_file)
reset_tuner-IsMirrored_example = reset_tuner-IsMirrored quiet_host (device []) refl refl refreshes

get_caps_by_type-Describes_example : Describes tuner_e4000 (get_caps_by_type tuner_e4000)
get_caps_by_type-Describes_example = get_caps_by_type-Describes tuner_e4000
