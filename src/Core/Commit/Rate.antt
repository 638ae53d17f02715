-- ===== src/Core/Commit/Rate.antt =====
-- What `set_sample_rate` records, with the nominal crystal and no correction.
use libsdrgg.Prelude.{
  ℕ, ◌≡◌, ◌<◌, ◌≤◌, refl, ap, ◌∙◌, sym, arith, inl, inr, true, false, ◌==◌, Bool-cases, ==_iff,
  by_branch, ◌/◌, ◌*◌, ◌^◌, u32,
}
use libsdrgg.Prelude.Int.{pos}
use libsdrgg.Types.{
  Result, ok, err, trap, Host, Tuning, Dev, Errno, Health, health_ok, health_usb_errors,
  health_disconnected, health_dead,
}
use libsdrgg.Exec.{modify, gets, ioctl, usleep, return_code, ◌>>=◌}
use libsdrgg.Exec.Keeps.{Keeps, Keeps-modify, keeps_rules}
use libsdrgg.Exec.Returns.{Returns, returns_rules}
use libsdrgg.Exec.Yields.{Yields}
use libsdrgg.Exec.Always.{EitherWay, always-then}
use libsdrgg.Exec.Tries.{
  Tries, always-tries, tries-keep, tries-bind, tries-gets, tries-given, tries-modify,
}
use libsdrgg.Usb.{is_removal, mark_disconnected, note_failure, note_success}
use libsdrgg.Rtl.Frame.{IsFrame, page_write-frame}
use libsdrgg.Rtl.Ppm.{correct_ppm}
use libsdrgg.Rtl.Tuner.{store_shadow, is_shadowed}
use libsdrgg.Rtl.Tuner.Total.{submit_demod_write-Returns}
use libsdrgg.Rtl.Nco.{set_if_freq, store_if_offset}
use libsdrgg.Rtl.Rate
use libsdrgg.Rtl.Exact.{crystal_hz, achieved_rate-exact}
use libsdrgg.R820t.Frame.{intents-frame}
use libsdrgg.R820t.Bandwidth.{set_bandwidth}
use libsdrgg.Core.Attach.Total.{if_freq-Returns, intents-Returns}
use libsdrgg.Core.{set_sample_rate, request_rate, commit_rate_result}

-- The rate is recorded as requested and as what the device samples at; the frequency and the gain are
-- those of before.
abbrev pub HasRate : ℕ → Tuning → Tuning → Type 0
HasRate r t u =
    (u.requested_rate_hz ≡ r)
    × (u.sampling_rate_hz ≡ r)
    × (u.center_freq_hz ≡ t.center_freq_hz)
    × (u.requested_freq_hz ≡ t.requested_freq_hz)
    × (u.gain_policy ≡ t.gain_policy)

abbrev pub RateSettled : ℕ → Tuning → Result ℕ → Dev → Type 0
RateSettled r t (ok actual) d =
    (actual ≡ r) × HasRate r t d.tuning × (d.tuning.last_rate_result ≡ ok tt)
RateSettled r t (err e) d = HasRate r t d.tuning × (d.tuning.last_rate_result ≡ err e)
RateSettled r t trap d = ⊥

module _ (r : ℕ) (t : Tuning) where
  abbrev Rated : Dev → Type 0
  Rated d = HasRate r t d.tuning

  mark-Rated : (h : Health) (d : Dev) → Rated d → Rated (mark_disconnected h d)
  mark-Rated health_ok d c = c
  mark-Rated health_usb_errors d c = c
  mark-Rated health_disconnected d c = c
  mark-Rated health_dead d c = c

  failure-Rated : (e : Errno) → Keeps Rated (modify (note_failure e))
  unfolding note_failure
  failure-Rated e =
      Keeps-modify (note_failure e)
        λ d c. by_branch Rated (is_removal e) _ _ (λ _. mark-Rated d.health _ c) (λ _. c)

  rated : IsFrame Rated
  unfolding ioctl usleep note_success
  rated = record {
    on_ioctl = λ req transfer. record { at = λ host d c. c };
    on_sleep = λ us. record { at = λ host d c. c };
    on_failure = failure-Rated;
    on_success = Keeps-modify _ (λ d c. c);
  }

  stored-Rated : (reg val : ℕ) → Keeps Rated (modify (store_shadow reg val))
  unfolding store_shadow
  stored-Rated reg val =
      Keeps-modify _ λ d c. by_branch Rated (is_shadowed d reg) _ _ (λ e. c) (λ e. c)

  offset-Rated : (f : ℕ) → Keeps Rated (modify (store_if_offset f))
  offset-Rated f = Keeps-modify _ (λ d c. c)

  if_freq-Rated : (f : ℕ) → Keeps Rated (set_if_freq f)
  unfolding set_if_freq
  if_freq-Rated f = search (keeps_rules, page_write-frame rated, offset-Rated) depth 9

  bandwidth-Rated : (bw : ℕ) → Keeps Rated (set_bandwidth bw)
  unfolding set_bandwidth
  bandwidth-Rated bw = search (keeps_rules, intents-frame rated stored-Rated, if_freq-Rated) depth 9

  update-Rated : Keeps Rated Rate.update_bandwidth
  unfolding Rate.update_bandwidth
  update-Rated = search (keeps_rules, bandwidth-Rated) depth 9

  emit-Rated : (ratio : ℕ) → Keeps Rated (Rate.emit_ratio ratio)
  unfolding Rate.emit_ratio
  emit-Rated ratio = search (keeps_rules, page_write-frame rated) depth 9

bandwidth-Returns : (bw : ℕ) → Returns (set_bandwidth bw)
unfolding set_bandwidth
bandwidth-Returns bw = search (returns_rules, intents-Returns, if_freq-Returns) depth 9

update-Returns : Returns Rate.update_bandwidth
unfolding Rate.update_bandwidth
update-Returns = search (returns_rules, bandwidth-Returns) depth 9

emit-Returns : (ratio : ℕ) → Returns (Rate.emit_ratio ratio)
unfolding Rate.emit_ratio
emit-Returns ratio = search (returns_rules, submit_demod_write-Returns) depth 9

module _ (r : ℕ) (t : Tuning) (low : 900000 < r) (high : r ≤ 3200000) where
  abbrev ratio : ℕ
  ratio = Rate.resampler_ratio crystal_hz r

  effective_ratio-divides : (Rate.effective_ratio ratio == 0) ≡ false
  unfolding Rate.achieved_rate
  effective_ratio-divides = elim (Bool-cases (Rate.effective_ratio ratio == 0)) [
    | inl nothing ↦
        let gone : Rate.effective_ratio ratio ≡ 0 =
          (==_iff (Rate.effective_ratio ratio) 0).0 nothing in
        let rate_zero : 0 ≡ r =
          ap (λ q. u32 (crystal_hz * 2 ^ 22 / q)) (sym gone) ∙ achieved_rate-exact r low high in
        absurd (omega arith)
    | inr something ↦ something
  ]

  -- Before the rate is committed.
  abbrev Asked : Dev → Type 0
  Asked d =
      (Rate.corrected_xtal d ≡ crystal_hz)
      × (d.tuning.requested_rate_hz ≡ r)
      × (d.tuning.center_freq_hz ≡ t.center_freq_hz)
      × (d.tuning.requested_freq_hz ≡ t.requested_freq_hz)
      × (d.tuning.gain_policy ≡ t.gain_policy)

  commit-Tries : Tries Asked (Rate.commit_rate crystal_hz ratio) (λ _. Rated r t) (Rated r t)
  unfolding Rate.commit_rate
  commit-Tries =
      rw (effective_ratio-divides, Rate.commit_rate)
        (tries-modify (Rated r t) (Rated r t) _ λ d (x, requested, center, asked, gain).
          (requested, achieved_rate-exact r low high, center, asked, gain))

  program-Tries : Tries Asked (Rate.program_rate crystal_hz ratio) (λ _. Rated r t) (Rated r t)
  unfolding Rate.program_rate
  program-Tries =
      tries-bind (λ _. Rated r t) (λ _. Rated r t) (Rated r t) _ _ commit-Tries
        λ _.
          tries-keep _
            (search (returns_rules, update-Returns, emit-Returns, if_freq-Returns) depth 9)
            (search (keeps_rules, update-Rated, emit-Rated, if_freq-Rated) depth 9)

  rate_accepted_lem : Rate.rate_accepted r ≡ true
  rate_accepted_lem = ground arith

  rate-Tries : Tries Asked (Rate.set_sample_rate r) (λ _. Rated r t) (Rated r t)
  unfolding Rate.set_sample_rate
  rate-Tries =
      tries-bind (λ xtal d. (xtal ≡ crystal_hz) × Asked d) (λ _. Rated r t) (Rated r t) _ _
        (tries-gets _ _ Rate.corrected_xtal (λ d a. (a.0, a)))
        λ xtal.
          tries-given (xtal ≡ crystal_hz) (λ _. Rated r t) (Rated r t) _
            (λ same. rw (rate_accepted_lem, same) program-Tries)

  -- From the result on.
  finished :
      (rc : Result (Unit {0}))
      → Yields
          (EitherWay (λ _. Rated r t) (Rated r t) rc)
          (modify (commit_rate_result rc) >>= λ _.
            return_code rc >>= λ _. gets (λ d. d.tuning.sampling_rate_hz))
          (RateSettled r t)
  unfolding ◌>>=◌ modify return_code gets
  finished (ok _) = record { at = λ host d h. (h.1, h, refl) }
  finished (err e) = record { at = λ host d h. (h, refl) }
  finished trap = record { at = λ host d h. h }

correct_nothing : correct_ppm crystal_hz (pos 0) ≡ crystal_hz
unfolding correct_ppm
correct_nothing = refl

-- With the nominal crystal and no correction, for a rate above 900 kHz and up to 3.2 MHz,
-- set_sample_rate returns, whatever the host answers, with the requested rate exactly or an error
-- code, which is recorded; the requested rate is recorded as requested and, after an error too, as
-- what the device samples at; the frequency and the gain policy are as before.
pub set_sample_rate-RateSettled :
    (rate : ℕ) (host : Host) (d : Dev)
    → 900000 < rate
    → rate ≤ 3200000
    → d.oscillator_hz ≡ crystal_hz
    → d.freq_offset_ppm ≡ pos 0
    → let (r, d') = set_sample_rate rate host d in RateSettled rate d.tuning r d'
unfolding set_sample_rate ◌>>=◌ modify
set_sample_rate-RateSettled rate host d low high nominal uncorrected =
    let uncorrected_xtal : Rate.corrected_xtal (request_rate rate d) ≡ crystal_hz =
      rw (nominal, uncorrected) correct_nothing in
    (always-then (EitherWay (λ _. Rated rate d.tuning) (Rated rate d.tuning))
        (RateSettled rate d.tuning) _ _ (always-tries _ _ _ (rate-Tries rate d.tuning low high))
        (finished rate d.tuning low high)).at
      host (request_rate rate d) (uncorrected_xtal, refl, refl, refl, refl)
