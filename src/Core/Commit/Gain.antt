-- ===== src/Core/Commit/Gain.antt =====
-- What `set_gain` records.
use libsdrgg.Prelude.{
  ℕ, zero, suc, ◌≡◌, ap, refl, Option, none, some, Bool, true, false, if◌then◌else◌,
}
use libsdrgg.Prelude.Int.{ℤ, pos, negsuc}
use libsdrgg.Types.{
  Result, ok, err, trap, Host, Dev, Tuning, TunerType, tuner_unknown, tuner_r820t, tuner_r820t2,
  tuner_fc0012, tuner_fc0013, tuner_fc2580, tuner_e4000, err_param,
}
use libsdrgg.Exec.{fail, gets, modify, ◌>>=◌, return_code, when}
use libsdrgg.Exec.Keeps.{Keeps, keeps_rules}
use libsdrgg.Exec.Returns.{Returns, returns_rules}
use libsdrgg.Exec.Yields.{Yields}
use libsdrgg.Exec.Always.{EitherWay, always-then, always-gets, always-modify, always-when}
use libsdrgg.Exec.Tries.{always-tries, tries-keep}
use libsdrgg.Rtl.Tuner.Total.{rmw-Returns}
use libsdrgg.Rtl.Tuner.{rmw}
use libsdrgg.R820t.Frame.{rmw-frame}
use libsdrgg.R820t.Gain.{GainProfile, set_lna_gain, set_mixer_gain, set_vga_gain}
use libsdrgg.Fc0012.Wire
use libsdrgg.Fc0012.Frame.{wire_write-frame, wire_read-frame}
use libsdrgg.Core.Attach.Total.{wire_write-Returns, wire_read-Returns, auto_gain-Returns}
use libsdrgg.Core.{
  pause_bulk, resume_bulk, apply_profile, r820t_apply_gain, r820t_apply_auto, has_contract,
  apply_gain_policy, commit_gain, run_gain_policy, set_gain,
}
use libsdrgg.Core.Commit.Frame.{Steady, steady, stored-Steady}
use libsdrgg.Core.Commit.Pause.{pause-Always, resume-Always}

abbrev pub GainSettled : ℤ → Tuning → Result (Unit {0}) → Dev → Type 0
GainSettled g t (ok _) d = d.tuning ≡ record t { gain_policy = g }
GainSettled g t (err e) d = d.tuning ≡ t
GainSettled g t trap d = ⊥

lna-Returns : (i : ℤ) → Returns (set_lna_gain i)
unfolding set_lna_gain
lna-Returns i = rmw-Returns _ _ _

mixer-Returns : (i : ℤ) → Returns (set_mixer_gain i)
unfolding set_mixer_gain
mixer-Returns (pos n) = rmw-Returns _ _ _
mixer-Returns (negsuc n) = rmw-Returns _ _ _

vga-Returns : (i : ℤ) → Returns (set_vga_gain i)
unfolding set_vga_gain
vga-Returns (pos n) = rmw-Returns _ _ _
vga-Returns (negsuc n) = rmw-Returns _ _ _

profile-Returns : (p : Option GainProfile) → Returns (apply_profile p)
unfolding apply_profile
profile-Returns none = search returns_rules
profile-Returns (some p) = search (returns_rules, lna-Returns, mixer-Returns, vga-Returns) depth 9

manual-Returns : (g : ℤ) → Returns (r820t_apply_gain g)
unfolding r820t_apply_gain
manual-Returns g = profile-Returns _

auto-Returns : Returns r820t_apply_auto
unfolding r820t_apply_auto
auto-Returns = search (returns_rules, lna-Returns, mixer-Returns, vga-Returns) depth 9

wire-Returns : (g : ℤ) → Returns (Wire.set_gain g)
unfolding Wire.set_gain
wire-Returns g = search (returns_rules, wire_read-Returns, wire_write-Returns) depth 9

policy-Returns : (cls : TunerType) (g : ℤ) → Returns (apply_gain_policy cls g)
unfolding apply_gain_policy
policy-Returns tuner_r820t (negsuc zero) = auto-Returns
policy-Returns tuner_r820t (negsuc (suc n)) = manual-Returns (negsuc (suc n))
policy-Returns tuner_r820t (pos n) = manual-Returns (pos n)
policy-Returns tuner_fc0012 (negsuc zero) = auto_gain-Returns
policy-Returns tuner_fc0012 (negsuc (suc n)) = wire-Returns (negsuc (suc n))
policy-Returns tuner_fc0012 (pos n) = wire-Returns (pos n)
policy-Returns tuner_unknown g = search returns_rules
policy-Returns tuner_r820t2 g = search returns_rules
policy-Returns tuner_fc0013 g = search returns_rules
policy-Returns tuner_fc2580 g = search returns_rules
policy-Returns tuner_e4000 g = search returns_rules

module _ (o : ℕ) (ppm : ℤ) (t : Tuning) where
  abbrev S : Dev → Type 0
  S = Steady o ppm t

  rmw-Steady : (reg val mask : ℕ) → Keeps S (rmw reg val mask)
  rmw-Steady = rmw-frame (steady o ppm t) (stored-Steady o ppm t)

  lna-Steady : (i : ℤ) → Keeps S (set_lna_gain i)
  unfolding set_lna_gain
  lna-Steady i = rmw-Steady _ _ _

  mixer-Steady : (i : ℤ) → Keeps S (set_mixer_gain i)
  unfolding set_mixer_gain
  mixer-Steady (pos n) = rmw-Steady _ _ _
  mixer-Steady (negsuc n) = rmw-Steady _ _ _

  vga-Steady : (i : ℤ) → Keeps S (set_vga_gain i)
  unfolding set_vga_gain
  vga-Steady (pos n) = rmw-Steady _ _ _
  vga-Steady (negsuc n) = rmw-Steady _ _ _

  profile-Steady : (p : Option GainProfile) → Keeps S (apply_profile p)
  unfolding apply_profile
  profile-Steady none = search keeps_rules
  profile-Steady (some p) = search (keeps_rules, lna-Steady, mixer-Steady, vga-Steady) depth 9

  manual-Steady : (g : ℤ) → Keeps S (r820t_apply_gain g)
  unfolding r820t_apply_gain
  manual-Steady g = profile-Steady _

  auto-Steady : Keeps S r820t_apply_auto
  unfolding r820t_apply_auto
  auto-Steady = search (keeps_rules, lna-Steady, mixer-Steady, vga-Steady) depth 9

  wire-Steady : (g : ℤ) → Keeps S (Wire.set_gain g)
  unfolding Wire.set_gain
  wire-Steady g =
      search (keeps_rules, wire_read-frame (steady o ppm t), wire_write-frame (steady o ppm t))
        depth 9

  wire_auto-Steady : Keeps S Wire.set_auto_gain
  unfolding Wire.set_auto_gain
  wire_auto-Steady =
      search (keeps_rules, wire_read-frame (steady o ppm t), wire_write-frame (steady o ppm t))
        depth 9

  policy-Steady : (cls : TunerType) (g : ℤ) → Keeps S (apply_gain_policy cls g)
  unfolding apply_gain_policy
  policy-Steady tuner_r820t (negsuc zero) = auto-Steady
  policy-Steady tuner_r820t (negsuc (suc n)) = manual-Steady (negsuc (suc n))
  policy-Steady tuner_r820t (pos n) = manual-Steady (pos n)
  policy-Steady tuner_fc0012 (negsuc zero) = wire_auto-Steady
  policy-Steady tuner_fc0012 (negsuc (suc n)) = wire-Steady (negsuc (suc n))
  policy-Steady tuner_fc0012 (pos n) = wire-Steady (pos n)
  policy-Steady tuner_unknown g = search keeps_rules
  policy-Steady tuner_r820t2 g = search keeps_rules
  policy-Steady tuner_fc0013 g = search keeps_rules
  policy-Steady tuner_fc2580 g = search keeps_rules
  policy-Steady tuner_e4000 g = search keeps_rules

-- The end of the function, from the policy's result on.
module _ (g : ℤ) (o : ℕ) (ppm : ℤ) (t : Tuning) where
  ended :
      (paused : Bool) (rc : Result (Unit {0})) (u : Tuning)
      → ((d : Dev) → Steady o ppm u d → GainSettled g t rc d)
      → Yields (Steady o ppm u) (when paused resume_bulk >>= λ _. return_code rc) (GainSettled g t)
  unfolding return_code
  ended paused rc u k =
      always-then (λ _. Steady o ppm u) (GainSettled g t) _ _
        (always-when paused resume_bulk (resume-Always o ppm u))
        (λ _. record { at = λ host d h. k d h })

  after_policy :
      (paused : Bool) (rc : Result (Unit {0}))
      → Yields
          (EitherWay (λ _. Steady o ppm t) (Steady o ppm t) rc)
          (modify (commit_gain g rc) >>= λ _. when paused resume_bulk >>= λ _. return_code rc)
          (GainSettled g t)
  after_policy paused (ok _) =
      let u : Tuning = record t { gain_policy = g } in
      always-then (λ _. Steady o ppm u) (GainSettled g t) _ _
        (always-modify (Steady o ppm u) _
          (λ d (eo, ep, et). (eo, ep, ap (λ (x : Tuning). record x { gain_policy = g }) et)))
        (λ _. ended paused (ok tt) u (λ d (eo, ep, et). et))
  after_policy paused (err e) =
      always-then (λ _. Steady o ppm t) (GainSettled g t) _ _
        (always-modify (Steady o ppm t) _ (λ d h. h))
        (λ _. ended paused (err e) t (λ d (eo, ep, et). et))
  after_policy paused trap = record { at = λ host d h. absurd h }

  run-Yields : Yields (Steady o ppm t) (run_gain_policy g) (GainSettled g t)
  unfolding run_gain_policy
  run-Yields =
      let S : Dev → Type 0 = Steady o ppm t in
      always-then (λ _. S) (GainSettled g t) _ _ (always-gets (λ _. S) _ (λ d h. h))
        λ paused.
          always-then (λ _. S) (GainSettled g t) _ _
            (always-when paused pause_bulk (pause-Always o ppm t))
            λ _.
              always-then (λ _. S) (GainSettled g t) _ _ (always-gets (λ _. S) _ (λ d h. h))
                λ cls.
                  always-then (EitherWay (λ _. S) S) (GainSettled g t) _ _
                    (always-tries (λ _. S) S _
                      (tries-keep _ (policy-Returns cls g) (policy-Steady o ppm t cls g)))
                    (after_policy paused)

  known-Yields :
      (known : Bool)
      → Yields
          (Steady o ppm t)
          (if known then run_gain_policy g else fail err_param)
          (GainSettled g t)
  unfolding fail
  known-Yields true = run-Yields
  known-Yields false = record { at = λ host d (eo, ep, et). et }

-- set_gain returns, whatever the host answers: after SDRGG_OK the tuning state is the old one with
-- the gain policy set to the request, and after an error it is the old one.
pub set_gain-GainSettled :
    (gain_tenth_db : ℤ) (host : Host) (d : Dev)
    → let (r, d') = set_gain gain_tenth_db host d in GainSettled gain_tenth_db d.tuning r d'
unfolding set_gain ◌>>=◌ gets
set_gain-GainSettled gain_tenth_db host d =
    (known-Yields gain_tenth_db d.oscillator_hz d.freq_offset_ppm d.tuning
        (has_contract d.tuner_class)).at
      host d (refl, refl, refl)
