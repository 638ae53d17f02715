-- ===== src/Reset/Full.antt =====
-- The full reset of sdrgg_reset.cpp, and that its levels return.
use libsdrgg.Prelude.{ℕ, List, ◌∷◌, ◌≡◌}
use libsdrgg.Types.{
  Result, ok, err, trap, err_usb, Errno, Event, io, slept, reset_device, done, failed, Host, Dev,
}
use libsdrgg.Exec.Returns.{Returns}
use libsdrgg.Reset.{reset_demod, reset_tuner}

-- How a reset of the USB device ended, after the events `t`.
abbrev pub IsReset : List Event → Result (Unit {0}) → Dev → Type 0
IsReset t (ok _) d = (bytes : List ℕ) × (d.trace ≡ slept 500000 ∷ io reset_device (done bytes) ∷ t)
IsReset t (err e) d =
    (errno : Errno) × (e ≡ err_usb) × (d.trace ≡ io reset_device (failed errno) ∷ t)
IsReset t trap d = ⊥

-- The devices that levels 1 and 2 leave.
abbrev pub after_demod : Host → Dev → Dev
after_demod host d = (reset_demod host d).1

abbrev pub after_tuner : Host → Dev → Dev
after_tuner host d = (reset_tuner host (after_demod host d)).1
