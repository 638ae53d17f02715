-- ===== src/Core/Attach/Released.antt =====
-- What an attach session leaves behind: the claim of the interface and the file descriptor.
use libsdrgg.Prelude.{ℕ, suc, List, [], ◌∷◌, Bool, true, false, ◌≡◌}
use libsdrgg.Types.{
  TunerType, tuner_unknown, tuner_r820t, tuner_r820t2, tuner_fc0012, tuner_fc0013, tuner_fc2580,
  tuner_e4000, Event, io, slept, notified_disconnect, Request, control_out, control_in, bulk_in,
  claim_interface, release_interface, close_fd, reset_device, get_descriptor, get_driver,
  get_capabilities, disconnect_driver, Reply, done, failed, Dev,
}
use libsdrgg.Exec.{pure}
use libsdrgg.Exec.Keeps.{Keeps}
use libsdrgg.Exec.Returns.{Returns}
use libsdrgg.Exec.Always.{
  Always, always-pure, always-attempt, always-ignore, always-if, always-when, always-modify,
  always-bind,
}
use libsdrgg.Core.Attach.Total.{
  configure_r820t-Returns, configure_fc0012-Returns, fc0012_detect-Returns, fc0012_init-Returns,
  standby-Returns, detect-Returns, init-Returns,
}
use libsdrgg.Rtl.Tuner.Total.{enable_i2c_repeater-Returns}
use libsdrgg.Rtl.Frame.{is_transfer, repeater-frame}
use libsdrgg.Rtl.Tuner.{succeeded}
use libsdrgg.Core.Attach.{Contract, family_contracts, bring_up, discover, calm}
use libsdrgg.Rtl.Quiet.{OnTrace, IsQuiet, frame}
use libsdrgg.Core.Attach.Inert.{IsInert, inert}
use libsdrgg.Core.Attach.Quiet.{standby-quiet, detect-quiet, init-quiet}
use libsdrgg.Core.Attach.Parts.{
  configure_r820t-quiet, configure_fc0012-quiet, fc0012_detect-quiet, fc0012_init-quiet,
}

-- A claim of the interface succeeded, and no release came after it.
abbrev pub is_claimed : List Event → Bool
is_claimed [] = false
is_claimed (io claim_interface (done _) ∷ t) = true
is_claimed (io claim_interface (failed _) ∷ t) = is_claimed t
is_claimed (io release_interface _ ∷ t) = false
is_claimed (io _ _ ∷ t) = is_claimed t
is_claimed (slept us ∷ t) = is_claimed t
is_claimed (notified_disconnect ∷ t) = is_claimed t

-- The file descriptor was closed, so often.
abbrev pub closings : List Event → ℕ
closings [] = 0
closings (io close_fd _ ∷ t) = suc (closings t)
closings (io _ _ ∷ t) = closings t
closings (slept us ∷ t) = closings t
closings (notified_disconnect ∷ t) = closings t

-- Whether the interface is claimed, and how often the file descriptor was closed.
abbrev pub Holds : Bool → ℕ → List Event → Type 0
Holds b n t = (is_claimed t ≡ b) × (closings t ≡ n)

pub Holds-IsQuiet : (b : Bool) (n : ℕ) → IsQuiet (Holds b n)
Holds-IsQuiet b n = record { on_transfer = quiet; on_slept = λ us t h. h; on_notified = λ t h. h }
  where
    quiet :
        (req : Request) (reply : Reply) (t : List Event)
        → is_transfer req ≡ true
        → Holds b n t
        → Holds b n (io req reply ∷ t)
    quiet (control_out value index bytes) reply t e h = h
    quiet (control_in value index len) reply t e h = h
    quiet (bulk_in len timeout) reply t e h = absurd (cc)
    quiet reset_device reply t e h = absurd (cc)
    quiet claim_interface reply t e h = absurd (cc)
    quiet release_interface reply t e h = absurd (cc)
    quiet close_fd reply t e h = absurd (cc)
    quiet get_descriptor reply t e h = absurd (cc)
    quiet get_driver reply t e h = absurd (cc)
    quiet get_capabilities reply t e h = absurd (cc)
    quiet disconnect_driver reply t e h = absurd (cc)

pub Holds-IsInert : (b : Bool) (n : ℕ) → IsInert (OnTrace (Holds b n))
Holds-IsInert b n = inert (Holds-IsQuiet b n)

-- The same, of the device.
abbrev pub At : Bool → ℕ → Dev → Type 0
At b n = OnTrace (Holds b n)

-- The steps of a contract return and leave claim and file descriptor alone.
pub record IsSound (c : Contract) : Type 0 where
  pub probes : (b : Bool) (n : ℕ) → Keeps (At b n) c.probe
  pub prepares : (b : Bool) (n : ℕ) → Keeps (At b n) c.prepare_baseband
  pub starts : (b : Bool) (n : ℕ) → Keeps (At b n) c.startup
  pub probe_returns : Returns c.probe
  pub prepare_returns : Returns c.prepare_baseband
  pub start_returns : Returns c.startup

abbrev pub AreSound : List Contract → Type 0
AreSound [] = Unit
AreSound (c ∷ cs) = IsSound c × AreSound cs

pub contracts-AreSound : AreSound family_contracts
contracts-AreSound = (
  record {
    probes = λ b n. detect-quiet (Holds-IsInert b n);
    prepares = λ b n. configure_r820t-quiet (Holds-IsInert b n);
    starts = λ b n. init-quiet (Holds-IsInert b n);
    probe_returns = detect-Returns;
    prepare_returns = configure_r820t-Returns;
    start_returns = init-Returns;
  },
  (
    record {
      probes = λ b n. fc0012_detect-quiet (Holds-IsInert b n);
      prepares = λ b n. configure_fc0012-quiet (Holds-IsInert b n);
      starts = λ b n. fc0012_init-quiet (Holds-IsInert b n);
      probe_returns = fc0012_detect-Returns;
      prepare_returns = configure_fc0012-Returns;
      start_returns = fc0012_init-Returns;
    },
    tt,
  ),
)

module _ (b : Bool) (n : ℕ) where
  abbrev pub Kept : {A : Type 0} → A → Dev → Type 0
  Kept a = At b n

  detected_or_not : (v : Bool) → Always (At b n) (pure v) Kept
  detected_or_not v = always-pure Kept v (λ d h. h)

  bring_up-Always : (c : Contract) → IsSound c → Always (At b n) (bring_up c) Kept
  unfolding bring_up
  bring_up-Always c sound = always-bind Kept Kept _ _ (always-modify (At b n) _ (λ d h. h)) λ _.
      always-bind Kept Kept _ _
        (always-attempt c.prepare_baseband sound.prepare_returns (sound.prepares b n))
        λ prepared.
          always-if Kept (succeeded prepared) _ _
            (always-bind Kept Kept _ _
              (always-attempt c.startup sound.start_returns (sound.starts b n))
              λ started.
                always-if Kept (succeeded started) _ _
                  (always-bind Kept Kept _ _
                    (always-when _ _ (
                      always-ignore _ (enable_i2c_repeater-Returns true)
                        (repeater-frame (frame (Holds-IsQuiet b n)) true)))
                    (λ _. detected_or_not true))
                  (detected_or_not false))
            (detected_or_not false)

  pub discover-Always : (cs : List Contract) → AreSound cs → Always (At b n) (discover cs) Kept
  unfolding discover
  discover-Always [] sound = detected_or_not false
  discover-Always (c ∷ cs) (sound, rest) =
      always-bind Kept Kept _ _ (always-modify (At b n) _ (λ d h. h)) λ _.
        always-bind Kept Kept _ _ (always-attempt c.probe sound.probe_returns (sound.probes b n))
          λ rc.
            always-if Kept (succeeded rc) _ _ (bring_up-Always c sound) (discover-Always cs rest)

  pub calm-Always : (cls : TunerType) → Always (At b n) (calm cls) Kept
  calm-Always tuner_r820t = always-ignore _ standby-Returns (standby-quiet (Holds-IsInert b n))
  calm-Always tuner_unknown = always-pure Kept tt (λ d h. h)
  calm-Always tuner_r820t2 = always-pure Kept tt (λ d h. h)
  calm-Always tuner_fc0012 = always-pure Kept tt (λ d h. h)
  calm-Always tuner_fc0013 = always-pure Kept tt (λ d h. h)
  calm-Always tuner_fc2580 = always-pure Kept tt (λ d h. h)
  calm-Always tuner_e4000 = always-pure Kept tt (λ d h. h)
