-- ===== src/Core/Attach/Closed.antt =====
-- `close`: what it leaves behind.
use libsdrgg.Prelude.{ℕ, suc, Bool, false, ◌≡◌, refl}
use libsdrgg.Types.{
  TunerType, tuner_unknown, tuner_r820t, tuner_r820t2, tuner_fc0012, tuner_fc0013, tuner_fc2580,
  tuner_e4000, Host, Dev,
}
use libsdrgg.Exec.{usleep}
use libsdrgg.Exec.Yields.{OrStop, Nowhere}
use libsdrgg.Exec.Always.{Always, always-pure, always-gets, always-ignore, always-if, always-bind}
use libsdrgg.Core.Attach.{put_to_sleep, shut_down, detach}
use libsdrgg.Core.Attach.Quiet.{standby-quiet}
use libsdrgg.Core.Attach.Parts.{auto_gain-quiet}
use libsdrgg.Core.Attach.Total.{auto_gain-Returns, standby-Returns}
use libsdrgg.Core.Attach.Released.{is_claimed, closings, Holds-IsInert, At, Kept}
use libsdrgg.Core.Attach.Opened.{release-Always, closed, deinit-Always}

module _ (n : ℕ) where
  -- Whatever its health, the interface is released and the file descriptor closed.
  asleep : (b : Bool) (cls : TunerType) → Always (At b n) (put_to_sleep cls) (λ _. At b n)
  asleep b tuner_r820t = always-ignore _ standby-Returns (standby-quiet (Holds-IsInert b n))
  asleep b tuner_r820t2 = always-ignore _ standby-Returns (standby-quiet (Holds-IsInert b n))
  asleep b tuner_fc0012 = always-ignore _ auto_gain-Returns (auto_gain-quiet (Holds-IsInert b n))
  asleep b tuner_fc0013 = always-ignore _ auto_gain-Returns (auto_gain-quiet (Holds-IsInert b n))
  asleep b tuner_unknown = always-pure (λ _. At b n) tt (λ d h. h)
  asleep b tuner_fc2580 = always-pure (λ _. At b n) tt (λ d h. h)
  asleep b tuner_e4000 = always-pure (λ _. At b n) tt (λ d h. h)

  slept_5000 : (b : Bool) → Always (At b n) (usleep 5000) (λ _. At b n)
  unfolding usleep
  slept_5000 b = record { yields = record { at = λ host d h. h } }

  shut_down-Always : (b : Bool) → Always (At b n) shut_down (λ _. At b n)
  unfolding shut_down
  shut_down-Always b = always-bind (Kept b n) (Kept b n) _ _ (slept_5000 b) λ _.
      always-bind (Kept b n) (Kept b n) _ _ (always-gets (Kept b n) _ (λ d h. h))
        λ cls. always-bind (Kept b n) (Kept b n) _ _ (asleep b cls) λ _. deinit-Always n b

  pub detach-Always : (b : Bool) → Always (At b n) detach (λ _. At false (suc n))
  unfolding detach
  detach-Always b =
      let Q : Unit {0} → Dev → Type 0 = λ _. At false (suc n) in
      always-bind (λ _. At b n) Q _ _ (always-gets (λ _. At b n) _ (λ d h. h))
        λ gone.
          always-bind (λ _. At b n) Q _ _
            (always-if (λ _. At b n) gone _ _ (always-pure (λ _. At b n) tt (λ d h. h))
              (shut_down-Always b))
            λ _. always-bind (λ _. At false n) Q _ _ (release-Always n b) (λ _. closed n false)

-- Closing a device that does not stream returns whatever the host answers and whatever the
-- device's health, with the interface not claimed any more and the descriptor closed once.
pub detach-IsReleased :
    (host : Host) (d : Dev)
    → let (r, d') = detach host d in
      OrStop
        (λ _ d''. (is_claimed d''.trace ≡ false) × (closings d''.trace ≡ suc (closings d.trace)))
        Nowhere
        r
        d'
detach-IsReleased host d =
    (detach-Always (closings d.trace) (is_claimed d.trace)).yields.at host d (refl, refl)
