-- ===== src/Core/Commit/Calibration.antt =====
-- The retuning of an FC0012 returns: an error leaves the tuning state as it was, and SDRGG_OK changes
-- the center frequency.
use libsdrgg.Prelude.{
  ℕ, ◌≡◌, ◌≤◌, ◌/◌, ◌==◌, Bool, true, false, Option, none, some, ap, arith, if◌then◌else◌,
}
use libsdrgg.Prelude.Int.{ℤ}
use libsdrgg.Types.{Tuning, Dev, err_param}
use libsdrgg.Exec.{Status, fail, stuck, ignore, ◌>>◌}
use libsdrgg.Exec.Keeps.{Keeps, keeps_rules, Keeps-bind, Keeps-pure, Keeps-attempt, Keeps-ignore}
use libsdrgg.Exec.Returns.{
  Returns, returns_rules, Returns-bind-attempt, Returns-pure, Returns-ignore,
}
use libsdrgg.Exec.Tries.{
  Tries, tries-keep, tries-bind, tries-modify, tries-fail, tries-gets, tries-given,
}
use libsdrgg.Rtl.Frame.{demod_write-frame}
use libsdrgg.Rtl.Transport.{demod_write}
use libsdrgg.Rtl.Tuner.Total.{submit_demod_write-Returns, submit_block_write-Returns}
use libsdrgg.Fc0012.Ratio.{MultiplierSelection, derive_multiplier}
use libsdrgg.Fc0012.Session
use libsdrgg.Fc0012.Frame.{
  Keeps-result, wire_write-frame, wire_read-frame, commands-frame, gpio_bit-frame,
}
use libsdrgg.Core.Attach.Total.{
  Returns-result, commands-Returns, wire_write-Returns, wire_read-Returns, gpio_bit-Returns,
}
use libsdrgg.Core.Commit.Frame.{Steady, steady}

-- The tuning state with another center frequency.
abbrev pub centered : ℕ → Tuning → Tuning
centered f t = record t { center_freq_hz = f }

demod_write-Returns : (block reg val : ℕ) → Returns (demod_write block reg val)
unfolding demod_write
demod_write-Returns block reg val =
    search (returns_rules, submit_demod_write-Returns, submit_block_write-Returns)

read_calibration-Returns : Returns Session.read_calibration
unfolding Session.read_calibration
read_calibration-Returns =
    Returns-bind-attempt _ _ (wire_read-Returns _)
      (λ r ne. Returns-result r _ _ ne (λ a. Returns-pure _) (λ e. Returns-pure 0))

trigger-Returns : Returns Session.trigger_calibration
unfolding Session.trigger_calibration
trigger-Returns = search (returns_rules, wire_write-Returns) depth 9

correction-Returns : (o : Option ℕ) → Returns (Session.apply_correction o)
unfolding Session.apply_correction
correction-Returns none = search returns_rules
correction-Returns (some bw_reg) =
    search (returns_rules, wire_write-Returns, trigger-Returns) depth 9

above_zero : (half : ℕ) → 1000 ≤ half → (half / 1000 == 0) ≡ false
above_zero half enough = ground arith

planned-Returns :
    (plan : MultiplierSelection) (half : ℕ) → 1000 ≤ half → Returns (Session.run_planned plan half)
unfolding Session.run_planned Session.run_session Session.run_calibration_policy
planned-Returns plan half enough = live_branch (half / 1000 == 0) _ (above_zero half enough) (
    search
      (
        returns_rules, commands-Returns, trigger-Returns, read_calibration-Returns,
        correction-Returns,
      )
      depth 12)
  where
    live_branch : (b : Bool) (m : Status) → b ≡ false → Returns m → Returns (if b then stuck else m)
    live_branch true m e k = absurd (cc)
    live_branch false m e k = k

module _ (o : ℕ) (ppm : ℤ) (t : Tuning) where
  abbrev S : Dev → Type 0
  S = Steady o ppm t

  read_calibration-Steady : Keeps S Session.read_calibration
  unfolding Session.read_calibration
  read_calibration-Steady =
      Keeps-bind _ _ (Keeps-attempt _ (wire_read-frame (steady o ppm t) _))
        (λ r. Keeps-result r _ _ (λ a. Keeps-pure _) (λ e. Keeps-pure 0))

  trigger-Steady : Keeps S Session.trigger_calibration
  unfolding Session.trigger_calibration
  trigger-Steady =
      search (keeps_rules, wire_write-frame (steady o ppm t), (steady o ppm t).on_sleep) depth 9

  correction-Steady : (c : Option ℕ) → Keeps S (Session.apply_correction c)
  unfolding Session.apply_correction
  correction-Steady none = search keeps_rules
  correction-Steady (some bw_reg) =
      search (keeps_rules, wire_write-frame (steady o ppm t), trigger-Steady) depth 9

  planned-Steady : (plan : MultiplierSelection) (half : ℕ) → Keeps S (Session.run_planned plan half)
  unfolding Session.run_planned Session.run_session Session.run_calibration_policy
  planned-Steady plan half =
      search
        (
          keeps_rules,
          commands-frame (steady o ppm t),
          trigger-Steady,
          read_calibration-Steady,
          correction-Steady,
        )
        depth 12

  valid-Tries :
      (b : Bool) (plan : MultiplierSelection) (half : ℕ)
      → 1000 ≤ half
      → Tries S (if b then Session.run_planned plan half else fail err_param) (λ _. S) S
  valid-Tries true plan half enough =
      tries-keep _ (planned-Returns plan half enough) (planned-Steady plan half)
  valid-Tries false plan half enough = tries-fail (λ _. S) S err_param (λ d h. h)

  session-Tries : (f : ℕ) → 2000 ≤ o → Tries S (Session.execute_tuning_session f) (λ _. S) S
  unfolding Session.execute_tuning_session
  session-Tries f enough =
      tries-bind (λ half d. (half ≡ o / 2) × S d) (λ _. S) S _ _
        (tries-gets _ S (λ d. d.oscillator_hz / 2) (λ d h. (ap (λ x. x / 2) h.0, h)))
        (λ half.
          tries-given (half ≡ o / 2) (λ _. S) S _
            (λ e. valid-Tries _ (derive_multiplier f) half (omega (arith, e))))

  then-Centered :
      (f : ℕ) (m : Status) (n : Status)
      → Tries S m (λ _. S) S
      → Tries S n (λ _. Steady o ppm (centered f t)) S
      → Tries S (m >> n) (λ _. Steady o ppm (centered f t)) S
  then-Centered f m n k h = tries-bind (λ _. S) _ S m _ k (λ _. h)

  pub fc0012-Tries :
      (f : ℕ) → 2000 ≤ o → Tries S (Session.set_freq f) (λ _. Steady o ppm (centered f t)) S
  unfolding Session.set_freq
  fc0012-Tries f enough =
      let wrote : (block reg val : ℕ) → Tries S (ignore (demod_write block reg val)) (λ _. S) S =
        λ block reg val.
          tries-keep _ (Returns-ignore _ (demod_write-Returns block reg val))
            (Keeps-ignore _ (demod_write-frame (steady o ppm t) block reg val)) in
      then-Centered f _ _ (wrote _ _ _) (
        then-Centered f _ _ (wrote _ _ _) (
          then-Centered f _ _ (wrote _ _ _) (
            then-Centered f _ _
              (tries-keep _ (gpio_bit-Returns _ _) (gpio_bit-frame (steady o ppm t) _ _))
              (then-Centered f _ _ (session-Tries f enough)
                (tries-modify _ S _ (λ d (eo, ep, et). (eo, ep, ap (centered f) et)))))))
