-- ===== src/Core/Attach/Opened.antt =====
-- `open_path` and `close`: what they return and what they leave behind.
use libsdrgg.Prelude.{ℕ, suc, Bool, true, false, Option, none, some, ◌≡◌, refl}
use libsdrgg.Types.{Result, release_interface, close_fd, Reply, done, failed, Dev}
use libsdrgg.Exec.{ioctl, ignore, pure, ◌>>◌}
use libsdrgg.Exec.Keeps.{Keeps}
use libsdrgg.Exec.Yields.{Yields, OrStop}
use libsdrgg.Exec.Always.{
  Always, always-pure, always-ignored, always-ignore, always-ioctl, always-bind,
}
use libsdrgg.Usb.{release}
use libsdrgg.Rtl.Boot
use libsdrgg.Usb.Text.{Text}
use libsdrgg.Core.Attach.{Context, free_slot, register_at}
use libsdrgg.Core.Attach.Parts.{deinit-quiet}
use libsdrgg.Core.Attach.Total.{deinit-Returns}
use libsdrgg.Core.Attach.Released.{Holds-IsInert, At, Kept}

module _ (n : ℕ) where
  pub release-Always : (b : Bool) → Always (At b n) (ignore release) (λ _. At false n)
  unfolding release
  release-Always b = always-ignored (At false n) _ (
      always-bind (λ _. At false n) (λ _. At false n) _ _
        (always-ioctl (λ _. At false n) release_interface (λ reply d h. (refl, h.1)))
        (λ _. always-pure (λ _. At false n) tt (λ d h. h)))

  close_fd-Always : (b : Bool) → Always (At b n) (ioctl close_fd) (λ _. At b (suc n))
  close_fd-Always b = always-ioctl (λ _. At b (suc n)) close_fd (λ reply d h. (h.0, rw (h.1) refl))

  pub closed : (b : Bool) → Always (At b n) (ioctl close_fd >> pure tt) (λ _. At b (suc n))
  closed b =
      always-bind (λ _. At b (suc n)) (λ _. At b (suc n)) _ _ (close_fd-Always b)
        (λ _. always-pure (λ _. At b (suc n)) tt (λ d h. h))

  pub deinit-Always : (b : Bool) → Always (At b n) (ignore Boot.deinit) (Kept b n)
  deinit-Always b = always-ignore _ deinit-Returns (deinit-quiet (Holds-IsInert b n))

  -- What phases A to C leave, by whether they were done.
  abbrev Attached : Bool → Dev → Type 0
  Attached true = At true n
  Attached false = At false (suc n)

  abbrev Claimed : Result (Unit {0}) → Dev → Type 0
  Claimed = OrStop (λ _. At true n) (At false n)

  -- The interface is claimed if the reply says so.
  abbrev ByReply : Reply → Dev → Type 0
  ByReply (done _) = At true n
  ByReply (failed _) = At false n

  module _ (dev : ℕ) (ctx : Context) where
    -- Opened: the device is claimed and has the first empty slot. Not opened: everything is undone.
    abbrev pub IsOpened : Option ℕ × Context → Dev → Type 0
    IsOpened (some slot, ctx') d =
        At true n d × (free_slot 0 ctx.devices ≡ some slot) × (ctx' ≡ register_at slot dev ctx)
    IsOpened (none, ctx') d = At false (suc n) d × (ctx' ≡ ctx)
