-- ===== src/Core/Attach/Named.antt =====
-- The path, the bus and the address that opening a device records stay.
use libsdrgg.Prelude.{
  ℕ, List, [], ◌∷◌, Bool, true, false, Option, none, some, if◌then◌else◌, ◌≡◌, refl, sym, subst,
  by_branch,
}
use libsdrgg.Types.{
  TunerType, tuner_unknown, tuner_r820t, tuner_r820t2, tuner_fc0012, tuner_fc0013, tuner_fc2580,
  tuner_e4000, Request, Reply, done, failed, Errno, Health, health_ok, health_usb_errors,
  health_disconnected, health_dead, DevInfo, Dev, Host, close_fd, disconnect_driver, err_busy,
}
use libsdrgg.Exec.{modify, ioctl, usleep, pure, fail, attempt, ◌>>=◌, ◌>>◌}
use libsdrgg.Exec.Keeps.{
  Keeps, keeps_rules, Keeps-modify, Keeps-bind, Keeps-pure, Keeps-attempt, Keeps-gets, Keeps-if,
  Keeps-when, Keeps-ignore, Keeps-fail,
}
use libsdrgg.Rtl.Tuner.{succeeded}
use libsdrgg.Usb.{is_removal, mark_disconnected, note_failure, note_success, claim, release}
use libsdrgg.Rtl.Frame.{repeater-frame}
use libsdrgg.Usb.Text.{Text}
use libsdrgg.Usb.Sysfs.{identify}
use libsdrgg.Core.Attach.{
  Contract, family_contracts, bring_up, discover, calm, rollback, give_up, boot, attach, Context,
  register, finish_open, open_path,
}
use libsdrgg.Core.Attach.Inert.{IsInert}
use libsdrgg.Core.Attach.Quiet.{standby-quiet, detect-quiet, init-quiet}
use libsdrgg.Core.Attach.Parts.{
  boot-quiet, deinit-quiet, configure_r820t-quiet, configure_fc0012-quiet, fc0012_detect-quiet,
  fc0012_init-quiet,
}

abbrev pub IsNamed : DevInfo → DevInfo → Type 0
IsNamed w i = (i.path ≡ w.path) × (i.bus ≡ w.bus) × (i.devaddr ≡ w.devaddr)

module _ (w : DevInfo) where
  abbrev Named : Dev → Type 0
  Named d = IsNamed w d.info

  mark-Named : (h : Health) (d : Dev) → Named d → Named (mark_disconnected h d)
  mark-Named health_ok d c = c
  mark-Named health_usb_errors d c = c
  mark-Named health_disconnected d c = c
  mark-Named health_dead d c = c

  failure-Named : (e : Errno) → Keeps Named (modify (note_failure e))
  unfolding note_failure
  failure-Named e =
      Keeps-modify (note_failure e)
        λ d c. by_branch Named (is_removal e) _ _ (λ _. mark-Named d.health _ c) (λ _. c)

  ioctl-Named : (req : Request) → Keeps Named (ioctl req)
  unfolding ioctl
  ioctl-Named req = record { at = λ host d c. c }

  named : IsInert Named
  unfolding usleep note_success
  named = record {
    base = record {
      on_ioctl = λ req transfer. ioctl-Named req;
      on_sleep = λ us. record { at = λ host d c. c };
      on_failure = failure-Named;
      on_success = Keeps-modify _ (λ d c. c);
    };
    spared = λ f same. Keeps-modify f (λ d c. subst (IsNamed w) (sym (same d).1) c);
  }

  -- The steps of the contracts keep it.
  abbrev AreNamed : List Contract → Type 0
  AreNamed [] = Unit
  AreNamed (c ∷ cs) =
      (Keeps Named c.probe × Keeps Named c.prepare_baseband × Keeps Named c.startup) × AreNamed cs

  contracts-AreNamed : AreNamed family_contracts
  contracts-AreNamed = (
    (detect-quiet named, configure_r820t-quiet named, init-quiet named),
    ((fc0012_detect-quiet named, configure_fc0012-quiet named, fc0012_init-quiet named), tt),
  )

  class-Named :
      (c : TunerType)
      → Keeps Named
          (modify (λ d. record d { tuner_class = c; info = record (d.info) { tuner = c } }))
  class-Named c = Keeps-modify _ (λ d h. h)

  addr-Named : (a : ℕ) → Keeps Named (modify (λ d. record d { tuner_bus_addr = a }))
  addr-Named a = Keeps-modify _ (λ d h. h)

  bring_up-Named :
      (c : Contract)
      → Keeps Named c.prepare_baseband
      → Keeps Named c.startup
      → Keeps Named (bring_up c)
  unfolding bring_up
  bring_up-Named c prepares starts = Keeps-bind _ _ (class-Named c.family) λ _.
      Keeps-bind _ _ (Keeps-attempt _ prepares) λ prepared.
        Keeps-if (succeeded prepared) _ _
          (Keeps-bind _ _ (Keeps-attempt _ starts) λ started.
            Keeps-if (succeeded started) _ _
              (Keeps-bind _ _ (Keeps-when _ _ (Keeps-ignore _ (repeater-frame named.base true)))
                (λ _. Keeps-pure true))
              (Keeps-pure false))
          (Keeps-pure false)

  discover-Named : (cs : List Contract) → AreNamed cs → Keeps Named (discover cs)
  unfolding discover
  discover-Named [] h = search keeps_rules
  discover-Named (c ∷ cs) ((probes, prepares, starts), rest) =
      Keeps-bind _ _ (addr-Named c.bus_addr) λ _. Keeps-bind _ _ (Keeps-attempt _ probes) λ rc.
        Keeps-if (succeeded rc) _ _ (bring_up-Named c prepares starts) (discover-Named cs rest)

  calm-Named : (c : TunerType) → Keeps Named (calm c)
  calm-Named tuner_r820t = search (keeps_rules, standby-quiet named)
  calm-Named tuner_unknown = Keeps-pure tt
  calm-Named tuner_r820t2 = Keeps-pure tt
  calm-Named tuner_fc0012 = Keeps-pure tt
  calm-Named tuner_fc0013 = Keeps-pure tt
  calm-Named tuner_fc2580 = Keeps-pure tt
  calm-Named tuner_e4000 = Keeps-pure tt

  release-Named : Keeps Named release
  unfolding release
  release-Named = search (keeps_rules, ioctl-Named) depth 9

  rollback-Named : (b c : Bool) → Keeps Named (rollback b c)
  unfolding rollback
  rollback-Named b c = Keeps-bind _ _ (Keeps-gets _) λ cls.
      Keeps-bind _ _ (Keeps-when c _ (calm-Named cls)) λ _.
        Keeps-bind _ _
          (Keeps-when b _ (
            Keeps-bind _ _ (Keeps-ignore _ (deinit-quiet named))
              (λ _. Keeps-ignore _ release-Named)))
          (λ _. Keeps-bind _ _ (ioctl-Named close_fd) (λ _. Keeps-pure tt))

  give_up-Named : (b : Bool) → Keeps Named (give_up b)
  unfolding give_up
  give_up-Named b = search (keeps_rules, rollback-Named) depth 9

  boot-Named : Keeps Named boot
  unfolding boot
  boot-Named =
      Keeps-bind _ _ (Keeps-attempt _ (boot-quiet named (ioctl-Named _) (ioctl-Named _))) λ rc.
        Keeps-if (succeeded rc) _ _
          (Keeps-bind _ _ (discover-Named family_contracts contracts-AreNamed)
            (λ detected. Keeps-if detected _ _ (Keeps-pure true) (give_up-Named true)))
          (Keeps-bind _ _ (Keeps-ignore _ release-Named) (λ _. give_up-Named false))

  driver-Named :
      (r : Reply)
      → Keeps Named (elim r [ done _ ↦ ioctl disconnect_driver >> pure tt | failed _ ↦ pure tt ])
  driver-Named (done _) = Keeps-bind _ _ (ioctl-Named _) (λ _. Keeps-pure tt)
  driver-Named (failed _) = Keeps-pure tt

  reply-Named : (r : Reply) → Keeps Named (elim r [ done _ ↦ pure tt | failed _ ↦ fail err_busy ])
  reply-Named (done _) = Keeps-pure tt
  reply-Named (failed _) = Keeps-fail err_busy

  claim-Named : Keeps Named claim
  unfolding claim
  claim-Named = Keeps-bind _ _ (ioctl-Named _) λ _.
      Keeps-bind _ _ (ioctl-Named _) λ driver.
        Keeps-bind _ _ (driver-Named driver) λ _. Keeps-bind _ _ (ioctl-Named _) reply-Named

  register-Named : (dev : ℕ) (ctx : Context) (o : Option ℕ) → Keeps Named (register dev ctx o)
  unfolding register
  register-Named dev ctx (some slot) = Keeps-pure _
  register-Named dev ctx none = Keeps-bind _ _ (rollback-Named true true) (λ _. Keeps-pure _)

  finish-Named : (dev : ℕ) (ctx : Context) (v : Bool) → Keeps Named (finish_open dev ctx v)
  unfolding finish_open
  finish-Named dev ctx true = register-Named dev ctx _
  finish-Named dev ctx false = Keeps-pure _

  -- From the record of the path on.
  recorded-Named :
      (dev : ℕ) (ctx : Context)
      → Keeps Named (
          (attempt claim >>= λ rc. if succeeded rc then boot else give_up false)
          >>= finish_open dev ctx)
  recorded-Named dev ctx =
      Keeps-bind _ _
        (Keeps-bind _ _ (Keeps-attempt _ claim-Named)
          (λ rc. Keeps-if (succeeded rc) _ _ boot-Named (give_up-Named false)))
        (finish-Named dev ctx)

-- What opening a path records stays, whatever comes after it.
pub open_path-IsNamed :
    (path : Text) (reply : Reply) (dev : ℕ) (ctx : Context) (host : Host) (d : Dev)
    → IsNamed (identify path reply) (open_path true path dev ctx host d).1.info
unfolding open_path attach modify ioctl identify ◌>>=◌
open_path-IsNamed path reply dev ctx host d =
    (recorded-Named (identify path reply) dev ctx).at host _ (refl, refl, refl)
