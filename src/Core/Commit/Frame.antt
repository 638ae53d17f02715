-- ===== src/Core/Commit/Frame.antt =====
-- What the retuning of a device does not touch: its oscillator, its correction and its tuning state.
use libsdrgg.Prelude.{ℕ, ◌≡◌, by_branch}
use libsdrgg.Prelude.Int.{ℤ}
use libsdrgg.Types.{
  Tuning, Dev, Errno, Health, health_ok, health_usb_errors, health_disconnected, health_dead,
}
use libsdrgg.Exec.{modify, ioctl, usleep}
use libsdrgg.Exec.Keeps.{Keeps, Keeps-modify}
use libsdrgg.Usb.{is_removal, mark_disconnected, note_failure, note_success}
use libsdrgg.Rtl.Frame.{IsFrame}
use libsdrgg.Rtl.Tuner.{store_shadow, is_shadowed}

abbrev pub Steady : ℕ → ℤ → Tuning → Dev → Type 0
Steady o ppm t d = (d.oscillator_hz ≡ o) × (d.freq_offset_ppm ≡ ppm) × (d.tuning ≡ t)

module _ (o : ℕ) (ppm : ℤ) (t : Tuning) where
  mark-Steady : (h : Health) (d : Dev) → Steady o ppm t d → Steady o ppm t (mark_disconnected h d)
  mark-Steady health_ok d c = c
  mark-Steady health_usb_errors d c = c
  mark-Steady health_disconnected d c = c
  mark-Steady health_dead d c = c

  failure-Steady : (e : Errno) → Keeps (Steady o ppm t) (modify (note_failure e))
  unfolding note_failure
  failure-Steady e =
      Keeps-modify (note_failure e) λ d c.
        by_branch (Steady o ppm t) (is_removal e) _ _ (λ _. mark-Steady d.health _ c) (λ _. c)

  pub steady : IsFrame (Steady o ppm t)
  unfolding ioctl usleep note_success
  steady = record {
    on_ioctl = λ req transfer. record { at = λ host d c. c };
    on_sleep = λ us. record { at = λ host d c. c };
    on_failure = failure-Steady;
    on_success = Keeps-modify _ (λ d c. c);
  }

  pub stored-Steady : (reg val : ℕ) → Keeps (Steady o ppm t) (modify (store_shadow reg val))
  unfolding store_shadow
  stored-Steady reg val =
      Keeps-modify _ λ d c. by_branch (Steady o ppm t) (is_shadowed d reg) _ _ (λ e. c) (λ e. c)
