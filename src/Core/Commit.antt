-- ===== src/Core/Commit.antt =====
-- What `set_frequency` records.
pub mod Frame
pub mod Retune
pub mod Calibration
pub mod Rate
pub mod Pause
pub mod Gain
use libsdrgg.Prelude.{ℕ, Bool, true, false, ◌≡◌, refl, ap, ◌≤◌, ◌<◌, ◌^◌}
use libsdrgg.Prelude.Int.{ℤ}
use libsdrgg.Types.{
  Result, ok, err, trap, Error, Host, Dev, Tuning, TunerType, tuner_unknown, tuner_r820t,
  tuner_r820t2, tuner_fc0012, tuner_fc0013, tuner_fc2580, tuner_e4000,
}
use libsdrgg.Exec.{M, Status, gets, modify, ◌>>=◌, attempt, ignore, return_code, usleep, when}
use libsdrgg.Exec.Keeps.{Keeps, keeps_rules}
use libsdrgg.Exec.Returns.{returns_rules}
use libsdrgg.Exec.Yields.{Yields}
use libsdrgg.Exec.Always.{
  Always, EitherWay, always-gets, always-ignore, always-modify, always-bind, always-when,
  always-then,
}
use libsdrgg.Exec.Tries.{Tries, always-tries, tries-weaken}
use libsdrgg.Rtl.Frame.{block_write-frame}
use libsdrgg.Rtl.Nco.{start_bulk, stop_bulk}
use libsdrgg.Rtl.Tuner.Total.{start_bulk-Returns, stop_bulk-Returns}
use libsdrgg.Core.{
  needs_bulk_pause, pause_bulk, resume_bulk, retune, request_freq, commit_freq, set_frequency,
}
use libsdrgg.R820t.Codec
use libsdrgg.Fc0012.Session
use libsdrgg.Core.Commit.Frame.{Steady, steady}
use libsdrgg.Core.Commit.Pause.{pause-Always, resume-Always}
use libsdrgg.Core.Commit.Retune.{reference_of, r820t-Tries}
use libsdrgg.Core.Commit.Calibration.{centered, fc0012-Tries}

-- The tuning state when the function ends: the request and the result are recorded, and the frequency
-- if it was reached.
abbrev pub requested : ℕ → Tuning → Tuning
requested f t = record t { requested_freq_hz = f }

abbrev resulting : Result (Unit {0}) → Tuning → Tuning
resulting rc t = record t { last_freq_result = rc }

abbrev pub Settled : ℕ → Tuning → Result (Unit {0}) → Dev → Type 0
Settled f t (ok _) d = d.tuning ≡ resulting (ok tt) (centered f (requested f t))
Settled f t (err e) d = d.tuning ≡ resulting (err e) (requested f t)
Settled f t trap d = ⊥

-- An oscillator and a correction that no division fails with.
abbrev pub Tunable : ℕ → ℤ → Type 0
Tunable o ppm = (2000 ≤ o) × (0 < reference_of o ppm) × (reference_of o ppm < 2 ^ 15)

-- After the tuner's part: the tuning state is as it was, but for the center frequency of a success.
abbrev Reached : ℕ → ℕ → ℤ → Tuning → Unit {0} → Dev → Type 0
Reached f o ppm t _ d =
    (d.oscillator_hz ≡ o) × (d.freq_offset_ppm ≡ ppm) × (centered f d.tuning ≡ centered f t)

module _ (f o : ℕ) (ppm : ℤ) (t : Tuning) (tunes : Tunable o ppm) where
  kept-Reached : Unit {0} → (d : Dev) → Steady o ppm t d → Reached f o ppm t tt d
  kept-Reached _ d (eo, ep, et) = (eo, ep, ap (centered f) et)

  by_r820t :
      (off : ℕ) → Tries (Steady o ppm t) (Codec.set_freq f off) (Reached f o ppm t) (Steady o ppm t)
  by_r820t off =
      tries-weaken (λ _. Steady o ppm t) (Reached f o ppm t) (Steady o ppm t) kept-Reached
        (Codec.set_freq f off) (r820t-Tries o ppm t tunes.1 tunes.2 f off)

  retune-Tries :
      (cls : TunerType) (off : ℕ)
      → Tries (Steady o ppm t) (retune cls f off) (Reached f o ppm t) (Steady o ppm t)
  unfolding retune
  retune-Tries tuner_fc0012 off =
      tries-weaken (λ _. Steady o ppm (centered f t)) (Reached f o ppm t) (Steady o ppm t)
        (λ _ d (eo, ep, et). (eo, ep, ap (centered f) et)) (Session.set_freq f)
        (fc0012-Tries o ppm t f tunes.0)
  retune-Tries tuner_unknown off = by_r820t off
  retune-Tries tuner_r820t off = by_r820t off
  retune-Tries tuner_r820t2 off = by_r820t off
  retune-Tries tuner_fc0013 off = by_r820t off
  retune-Tries tuner_fc2580 off = by_r820t off
  retune-Tries tuner_e4000 off = by_r820t off

module _ (f o : ℕ) (ppm : ℤ) (t : Tuning) where
  -- The end of `set_frequency`, from the tuner's result on.
  returned :
      (rc : Result (Unit {0})) (u : Tuning)
      → ((d : Dev) → Steady o ppm u d → Settled f t rc d)
      → Yields (Steady o ppm u) (return_code rc) (Settled f t)
  unfolding return_code
  returned rc u k = record { at = λ host d h. k d h }

  ended :
      (paused : Bool) (rc : Result (Unit {0})) (u : Tuning)
      → ((d : Dev) → Steady o ppm u d → Settled f t rc d)
      → Yields (Steady o ppm u) (when paused resume_bulk >>= λ _. return_code rc) (Settled f t)
  ended paused rc u k =
      always-then (λ _. Steady o ppm u) (Settled f t) _ _
        (always-when paused resume_bulk (resume-Always o ppm u)) (λ _. returned rc u k)

  after_retune :
      (paused : Bool) (rc : Result (Unit {0}))
      → Yields
          (EitherWay (Reached f o ppm (requested f t)) (Steady o ppm (requested f t)) rc)
          (modify (commit_freq f rc) >>= λ _. when paused resume_bulk >>= λ _. return_code rc)
          (Settled f t)
  after_retune paused (ok _) =
      let u = resulting (ok tt) (centered f (requested f t)) in
      always-then (λ _. Steady o ppm u) (Settled f t) _ _
        (always-modify (Steady o ppm u) _ (λ d (eo, ep, et). (eo, ep, ap (resulting (ok tt)) et)))
        (λ _. ended paused (ok tt) u (λ d (eo, ep, et). et))
  after_retune paused (err e) =
      let u = resulting (err e) (requested f t) in
      always-then (λ _. Steady o ppm u) (Settled f t) _ _
        (always-modify (Steady o ppm u) _ (λ d (eo, ep, et). (eo, ep, ap (resulting (err e)) et)))
        (λ _. ended paused (err e) u (λ d (eo, ep, et). et))
  after_retune paused trap = record { at = λ host d h. absurd h }

module _ (f o : ℕ) (ppm : ℤ) (t : Tuning) (tunes : Tunable o ppm) where
  from_request :
      (paused : Bool)
      → Yields
          (Steady o ppm (requested f t))
          (when paused pause_bulk >>= λ _. gets (λ d. d.tuner_class) >>= λ cls.
            gets (λ d. d.tuning.if_offset_hz) >>= λ off. attempt (retune cls f off) >>= λ rc.
            modify (commit_freq f rc) >>= λ _. when paused resume_bulk >>= λ _. return_code rc)
          (Settled f t)
  from_request paused =
      let u = requested f t in
      let S : Dev → Type 0 = Steady o ppm u in
      always-then (λ _. S) (Settled f t) _ _ (always-when paused pause_bulk (pause-Always o ppm u))
        λ _.
          always-then (λ _. S) (Settled f t) _ _ (always-gets (λ _. S) _ (λ d h. h))
            λ cls.
              always-then (λ _. S) (Settled f t) _ _ (always-gets (λ _. S) _ (λ d h. h))
                λ off.
                  always-then (EitherWay (Reached f o ppm u) S) (Settled f t) _ _
                    (always-tries (Reached f o ppm u) S _ (retune-Tries f o ppm u tunes cls off))
                    (after_retune f o ppm t paused)

-- With an oscillator of at least 2000 Hz and a correction that give a reference above 0 and below
-- 2^15 kHz, set_frequency returns, whatever the host answers, and the tuning state is the old one
-- but for this: the requested frequency and the result are recorded, and with SDRGG_OK, and only
-- then, the center frequency is the requested one.
pub set_frequency-Settled :
    (f : ℕ) (host : Host) (d : Dev)
    → Tunable d.oscillator_hz d.freq_offset_ppm
    → let (r, d') = set_frequency f host d in Settled f d.tuning r d'
unfolding set_frequency ◌>>=◌ modify gets
set_frequency-Settled f host d tunes =
    (from_request f d.oscillator_hz d.freq_offset_ppm d.tuning tunes (needs_bulk_pause d)).at host
      (request_freq f d) (refl, refl, refl)
