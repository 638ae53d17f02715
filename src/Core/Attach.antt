-- ===== src/Core/Attach.antt =====
-- sdrgg_core.cpp, the attach session with its rollback and the context's table of devices. A device is named by a number, its address.
pub mod Inert
pub mod Quiet
pub mod Parts
pub mod Total
pub mod Released
pub mod Opened
pub mod Named
pub mod Closed
pub mod Slots
use libsdrgg.Prelude.{
  ℕ, zero, suc, ◌+◌, List, [], ◌∷◌, Bool, true, false, Option, none, some, if◌then◌else◌, length,
  set, get_or, take, drop, ◌++◌, replicate, leb, ◌==◌, ltb,
}
use libsdrgg.Prelude.Int.{pos}
use libsdrgg.Types.{
  TunerType, tuner_unknown, tuner_r820t, tuner_r820t2, tuner_fc0012, tuner_fc0013, Result, ok, err,
  trap, err_busy, err_nodev, Health, health_ok, health_disconnected, get_descriptor, close_fd,
  DevInfo, Dev, is_fc001x_family, is_r820t_family,
}
use libsdrgg.Exec.{
  M, Status, pure, fail, gets, modify, ◌>>=◌, ◌>>◌, attempt, ignore, return_code, ioctl, usleep,
  when,
}
use libsdrgg.Usb.Text.{Text}
use libsdrgg.Usb.Sysfs.{identify}
use libsdrgg.Usb.{claim, release, bulk_read}
use libsdrgg.Rtl.Tuner.{enable_i2c_repeater, succeeded}
use libsdrgg.Rtl.Boot
use libsdrgg.Rtl.Nco.{start_bulk, stop_bulk}
use libsdrgg.R820t.Codec
use libsdrgg.Fc0012.Wire

-- `tuner_family_contract`, without its priority, which is not read, and its gain functions, which are
-- `apply_gain_policy`.
pub record Contract : Type 0 where
  pub family : TunerType
  pub bus_addr : ℕ
  pub probe : Status
  pub prepare_baseband : Status
  pub startup : Status

abbrev pub family_contracts : List Contract
family_contracts =
    record {
      family = tuner_r820t;
      bus_addr = 0x34;
      probe = Codec.detect;
      prepare_baseband = Boot.configure_r820t;
      startup = Codec.init;
    }
    ∷ record {
      family = tuner_fc0012;
      bus_addr = 0xC6;
      probe = Wire.detect;
      prepare_baseband = Boot.configure_fc0012;
      startup = Wire.init;
    }
    ∷ []

-- What a contract does once its tuner is there; whether it ends as detected.
unfoldable pub bring_up : Contract → M Bool
bring_up c = do
  modify (λ d. record d { tuner_class = c.family; info = record (d.info) { tuner = c.family } })
  prepared ← attempt c.prepare_baseband
  if succeeded prepared
      then (do
        started ← attempt c.startup
        if succeeded started
            then (do
              when (is_fc001x_family c.family) (ignore (enable_i2c_repeater true))
              pure true)
            else pure false)
      else pure false

-- Phase C.
unfoldable pub discover : List Contract → M Bool
discover [] = pure false
discover (c ∷ cs) = do
  modify (λ d. record d { tuner_bus_addr = c.bus_addr })
  rc ← attempt c.probe
  if succeeded rc then bring_up c else discover cs

abbrev pub calm : TunerType → Status
calm tuner_r820t = ignore Codec.standby
calm _ = pure tt

-- `rollback_session`; phase A is done whenever it is called.
unfoldable pub rollback : Bool → Bool → Status
rollback phase_b_done phase_c_done = do
  cls ← gets (λ d. d.tuner_class)
  when phase_c_done (calm cls)
  when phase_b_done (do ignore Boot.deinit; ignore release)
  ioctl close_fd
  pure tt

unfoldable pub give_up : Bool → M Bool
give_up phase_b_done = do rollback phase_b_done false; pure false

-- The rest of phase B, from `rtl::init` on, and phase C.
unfoldable pub boot : M Bool
boot = do
  rc ← attempt Boot.init
  if succeeded rc
      then (do detected ← discover family_contracts; if detected then pure true else give_up true)
      else (do ignore release; give_up false)

-- Phases A to C, from the open file descriptor on: whether all were done. If not, they are undone.
unfoldable pub attach : Text → M Bool
attach path = do
  reply ← ioctl get_descriptor
  modify (λ d. record d { info = identify path reply })
  rc ← attempt claim
  if succeeded rc then boot else give_up false

-- `sdrgg_ctx`: the devices in its slots and their count.
pub record Context : Type 0 where
  pub devices : List (Option ℕ)
  pub dev_count : ℕ

abbrev pub max_devices : ℕ
max_devices = 8

-- `create`
unfoldable pub create : Context
create = record { devices = replicate max_devices none; dev_count = 0 }

-- The first empty slot, counted from `i`.
unfoldable pub free_slot : ℕ → List (Option ℕ) → Option ℕ
free_slot i [] = none
free_slot i (some dev ∷ slots) = free_slot (i + 1) slots
free_slot i (none ∷ slots) = some i

unfoldable pub register_at : ℕ → ℕ → Context → Context
register_at slot dev ctx = record {
  devices = set ctx.devices slot (some dev);
  dev_count = if leb ctx.dev_count slot then slot + 1 else ctx.dev_count;
}

-- Phase D: the slot, if there was one.
unfoldable pub register : ℕ → Context → Option ℕ → M (Option ℕ × Context)
register dev ctx (some slot) = pure (some slot, register_at slot dev ctx)
register dev ctx none = do rollback true true; pure (none, ctx)

unfoldable pub finish_open : ℕ → Context → Bool → M (Option ℕ × Context)
finish_open dev ctx true = register dev ctx (free_slot 0 ctx.devices)
finish_open dev ctx false = pure (none, ctx)

-- The fields that `calloc` and the assignments of phase A set.
abbrev pub fresh : Dev → Dev
fresh d = record d {
  info = record {
    path = [];
    vid = 0;
    pid = 0;
    serial = [];
    bus = 0;
    devaddr = 0;
    tuner = tuner_unknown;
  };
  tuner_class = tuner_unknown;
  tuner_bus_addr = 0;
  oscillator_hz = Boot.xtal_freq;
  freq_offset_ppm = pos 0;
  r820t_file = replicate 27 0;
  tuning = record {
    center_freq_hz = 0;
    sampling_rate_hz = 0;
    if_offset_hz = 0;
    gain_policy = pos 0;
    requested_freq_hz = 0;
    requested_rate_hz = 0;
    last_freq_result = ok tt;
    last_rate_result = ok tt;
  };
  stream_active = false;
  usb_error_count = 0;
  health = health_ok;
}

-- `open_path`, when `open` gave a file descriptor; `memory` says whether `calloc` succeeds, and then
-- the device is at `dev`. The result is the slot, or none for NULL, and the context.
unfoldable pub open_path : Bool → Text → ℕ → Context → M (Option ℕ × Context)
open_path false path dev ctx = do ioctl close_fd; pure (none, ctx)
open_path true path dev ctx = do modify fresh; attached ← attach path; finish_open dev ctx attached

-- The loop of `close` over the first `n` slots: the first that holds the device is emptied.
unfoldable pub unregister_from : ℕ → ℕ → List (Option ℕ) → List (Option ℕ)
unregister_from zero dev slots = slots
unregister_from (suc n) dev [] = []
unregister_from (suc n) dev (none ∷ slots) = none ∷ unregister_from n dev slots
unregister_from (suc n) dev (some other ∷ slots) =
    let rest = unregister_from n dev slots in
    if other == dev then none ∷ slots else some other ∷ rest

unfoldable pub unregister : ℕ → Context → Context
unregister dev ctx = record ctx { devices = unregister_from ctx.dev_count dev ctx.devices }

abbrev pub is_disconnected : Health → Bool
is_disconnected health_disconnected = true
is_disconnected _ = false

abbrev pub put_to_sleep : TunerType → Status
put_to_sleep tuner_r820t = ignore Codec.standby
put_to_sleep tuner_r820t2 = ignore Codec.standby
put_to_sleep tuner_fc0012 = ignore Wire.set_auto_gain
put_to_sleep tuner_fc0013 = ignore Wire.set_auto_gain
put_to_sleep _ = pure tt

unfoldable pub shut_down : Status
shut_down = do usleep 5000; cls ← gets (λ d. d.tuner_class); put_to_sleep cls; ignore Boot.deinit

-- `close` of a device that does not stream, after it left the context.
unfoldable pub detach : Status
detach = do
  gone ← gets (λ d. is_disconnected d.health)
  if gone then pure tt else shut_down
  ignore release
  ioctl close_fd
  pure tt
