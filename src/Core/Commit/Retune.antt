-- ===== src/Core/Commit/Retune.antt =====
-- The retuning of an R820T returns, and the tuning state is as it was.
use libsdrgg.Prelude.{ℕ, List, ◌≡◌, ◌≢◌, refl, ◌<◌, ◌^◌, arith}
use libsdrgg.Prelude.Int.{ℤ}
use libsdrgg.Types.{Tuning, Dev, Result, ok, err, trap}
use libsdrgg.Exec.{Status, fail, stuck, ◌>>◌}
use libsdrgg.Exec.Keeps.{Keeps, keeps_rules}
use libsdrgg.Exec.Returns.{Returns, returns_rules}
use libsdrgg.Exec.Tries.{Tries, tries-keep, tries-bind, tries-fail, tries-gets, tries-given}
use libsdrgg.Rtl.Frame.{tuner_read-frame}
use libsdrgg.Rtl.Tuner.Total.{tuner_read-Returns, rmw-Returns}
use libsdrgg.R820t.Pll.{SynthRequest, PllSolution, reference_khz, compose_synth_intents}
use libsdrgg.R820t.Codec
use libsdrgg.R820t.Intents.{RegIntent, lower_intents}
use libsdrgg.R820t.Frame.{rmw-frame, intents-frame}
use libsdrgg.R820t.Synth.{choose_solution-returns}
use libsdrgg.R820t.Sdm.{pack_pll_solution-returns}
use libsdrgg.Core.Attach.Total.{intents-Returns}
use libsdrgg.Core.Commit.Frame.{Steady, steady, stored-Steady}

-- The reference of a synthesis in kHz.
abbrev pub reference_of : ℕ → ℤ → ℕ
reference_of o ppm =
    reference_khz (record { target_hz = 0; reference_hz = o; correction_ppm = ppm })

probe-Returns : Returns Codec.probe_lock_status
unfolding Codec.probe_lock_status
probe-Returns = search (returns_rules, tuner_read-Returns)

escalate-Returns : Returns Codec.escalate_lock
unfolding Codec.escalate_lock
escalate-Returns = search (returns_rules, probe-Returns, rmw-Returns) depth 9

acquire-Returns : Returns Codec.acquire_lock
unfolding Codec.acquire_lock
acquire-Returns = search (returns_rules, probe-Returns, escalate-Returns, rmw-Returns) depth 9

module _ (o : ℕ) (ppm : ℤ) (t : Tuning) where
  abbrev S : Dev → Type 0
  S = Steady o ppm t

  probe-Steady : Keeps S Codec.probe_lock_status
  unfolding Codec.probe_lock_status
  probe-Steady = search (keeps_rules, tuner_read-frame (steady o ppm t))

  escalate-Steady : Keeps S Codec.escalate_lock
  unfolding Codec.escalate_lock
  escalate-Steady =
      search
        (
          keeps_rules,
          probe-Steady,
          rmw-frame (steady o ppm t) (stored-Steady o ppm t),
          (steady o ppm t).on_sleep,
        )
        depth 9

  acquire-Steady : Keeps S Codec.acquire_lock
  unfolding Codec.acquire_lock
  acquire-Steady =
      search
        (
          keeps_rules,
          probe-Steady,
          escalate-Steady,
          rmw-frame (steady o ppm t) (stored-Steady o ppm t),
          (steady o ppm t).on_sleep,
        )
        depth 9

  intents-Tries : (s : List RegIntent) → Tries S (lower_intents s) (λ _. S) S
  intents-Tries s =
      tries-keep _ (intents-Returns s) (intents-frame (steady o ppm t) (stored-Steady o ppm t) s)

  pub then-Tries :
      (m n : Status) → Tries S m (λ _. S) S → Tries S n (λ _. S) S → Tries S (m >> n) (λ _. S) S
  then-Tries m n hm hn = tries-bind (λ _. S) (λ _. S) S m _ hm (λ _. hn)

  module _ (live : 0 < reference_of o ppm) (small : reference_of o ppm < 2 ^ 15) where
    emit-Tries :
        (req : SynthRequest) (sol : PllSolution)
        → reference_khz req ≡ reference_of o ppm
        → Tries S (Codec.emit_solution (reference_khz req) sol) (λ _. S) S
    unfolding Codec.emit_solution
    emit-Tries req sol e =
        let (enc, packed) = pack_pll_solution-returns sol (reference_khz req) (rw e small) in
        rw (packed, Codec.emit_solution)
          (then-Tries _ _ (intents-Tries (compose_synth_intents enc))
            (tries-keep _ acquire-Returns acquire-Steady))

    chosen-Tries :
        (req : SynthRequest) (r : Result PllSolution)
        → reference_khz req ≡ reference_of o ppm
        → r ≢ trap
        → Tries S {A = Unit {0}}
            (elim r [
              | ok sol ↦ Codec.emit_solution (reference_khz req) sol
              | err e ↦ fail e
              | trap ↦ stuck
            ])
            (λ _. S)
            S
    chosen-Tries req (ok sol) e ne = emit-Tries req sol e
    chosen-Tries req (err e') e ne = tries-fail (λ _. S) S e' (λ d h. h)
    chosen-Tries req trap e ne = absurd (ne refl)

    chosen-returns :
        (req : SynthRequest)
        → reference_khz req ≡ reference_of o ppm
        → Codec.choose_solution req ≢ trap
    chosen-returns req e = choose_solution-returns req (rw e (omega arith))

    same-reference :
        (f : ℕ) (d : Dev) → S d → reference_khz (Codec.request_for f d) ≡ reference_of o ppm
    unfolding reference_khz
    same-reference f d (eo, ep, et) = rw (eo, ep) refl

    set_pll-Tries : (f : ℕ) → Tries S (Codec.set_pll f) (λ _. S) S
    unfolding Codec.set_pll
    set_pll-Tries f =
        tries-bind (λ req d. (reference_khz req ≡ reference_of o ppm) × S d) (λ _. S) S _ _
          (tries-gets _ S (Codec.request_for f) (λ d h. (same-reference f d h, h)))
          (λ req.
            tries-given (reference_khz req ≡ reference_of o ppm) (λ _. S) S _
              (λ e. chosen-Tries req (Codec.choose_solution req) e (chosen-returns req e)))

    pub r820t-Tries : (f off : ℕ) → Tries S (Codec.set_freq f off) (λ _. S) S
    unfolding Codec.set_freq Codec.set_mux Codec.apply_reception_profile
    r820t-Tries f off =
        then-Tries _ _ (intents-Tries _) (then-Tries _ _ (set_pll-Tries _) (intents-Tries _))
