-- ===== src/Core/Destroy/Ended.antt =====
-- `destroy`: no device of the context is left open.
use libsdrgg.Prelude.{
  ℕ, suc, ◌≤◌, ◌≡◌, refl, sym, ap, ◌∙◌, subst, arith, List, [], ◌∷◌, ◌++◌, false, none, inl, inr,
  length, replicate,
}
use libsdrgg.Types.{Result, ok, err, trap, Dev}
use libsdrgg.Exec.Yields.{OrStop, Nowhere}
use libsdrgg.Usb.Loop.{EventLoop, event_loop_stop}
use libsdrgg.Ring.Engine.Safety.{IsSafe}
use libsdrgg.Core.Attach.{Context, max_devices, unregister}
use libsdrgg.Core.Attach.Released.{is_claimed, closings}
use libsdrgg.Core.Attach.Slots.{IsWellFormed}
use libsdrgg.Core.Close.{Session, close}
use libsdrgg.Core.Close.Ended.{Ended, IsHalting, close-Always}
use libsdrgg.Core.Destroy.{
  Attached, Left, Remains, session_of, left_by, after, close_then, close_pending, close_collected,
  destroy,
}
use libsdrgg.Core.Destroy.Collected.{registered, length-registered, collect-all, unregister-none}

abbrev pub devices_of : List Left → List ℕ
devices_of [] = []
devices_of (x ∷ xs) = x.dev ∷ devices_of xs

-- What is left of a device that was closed.
abbrev pub IsGone : (ℕ → Attached) → Left → Type 0
IsGone table x =
    (is_claimed x.state.trace ≡ false)
    × (closings x.state.trace ≡ suc (closings (table x.dev).state.trace))
    × (x.pipeline.arena ≡ [])
    × (x.engine.active ≡ false)
    × IsSafe x.engine

abbrev pub AreGone : (ℕ → Attached) → List Left → Type 0
AreGone table [] = Unit
AreGone table (x ∷ xs) = IsGone table x × AreGone table xs

devices-append :
    (xs : List Left) (x : Left) (devs : List ℕ)
    → devices_of (xs ++ (x ∷ [])) ++ devs ≡ devices_of xs ++ (x.dev ∷ devs)
devices-append [] x devs = refl
devices-append (y ∷ xs) x devs = ap (λ ys. y.dev ∷ ys) (devices-append xs x devs)

append-nil : (xs : List ℕ) → xs ++ [] ≡ xs
append-nil [] = refl
append-nil (x ∷ xs) = ap (λ ys. x ∷ ys) (append-nil xs)

AreGone-append :
    (table : ℕ → Attached) (xs : List Left) (x : Left)
    → AreGone table xs
    → IsGone table x
    → AreGone table (xs ++ (x ∷ []))
AreGone-append table [] x gone h = (h, tt)
AreGone-append table (y ∷ xs) x (g, gone) h = (g, AreGone-append table xs x gone h)

-- The context's slots are empty and its loop does not run.
abbrev pub IsVacant : Context → EventLoop → Type 0
IsVacant ctx l = (ctx.devices ≡ replicate max_devices none) × (l.running ≡ false)

-- All the devices are closed.
abbrev pub IsDestroyed : (ℕ → Attached) → List ℕ → Result Remains → Type 0
IsDestroyed table devs (ok r) =
    IsVacant r.context r.event_loop × (devices_of r.closed ≡ devs) × AreGone table r.closed
IsDestroyed table devs (err e) = ⊥
IsDestroyed table devs trap = ⊥

stopped-off : (l l' : EventLoop) → l.running ≡ false → IsHalting l l' → l'.running ≡ false
stopped-off l l' off (inl e) = absurd (cc)
stopped-off l l' off (inr e) = e

module _ (table : ℕ → Attached) (safe : (dev : ℕ) → IsSafe (table dev).engine) where
  vacant-still :
      (dev : ℕ) (ctx : Context)
      → ctx.devices ≡ replicate max_devices none
      → (unregister dev ctx).devices ≡ replicate max_devices none
  unfolding unregister
  vacant-still dev ctx e = rw e (unregister-none ctx.dev_count dev max_devices)

  -- The closing of the rest, from whatever the closing before it leaves.
  abbrev Goes : List ℕ → Type 0
  Goes devs =
      (r : Remains)
      → IsVacant r.context r.event_loop
      → AreGone table r.closed
      → IsDestroyed table (devices_of r.closed ++ devs) (close_pending table devs r)

  closed-Goes :
      (dev : ℕ) (devs : List ℕ)
      → Goes devs
      → (r : Remains) → IsVacant r.context r.event_loop
      → AreGone table r.closed
      → (x : Result Session) (d : Dev)
      → OrStop
          (Ended
            (closings (table dev).state.trace)
            (record (session_of (table dev) r) { context = unregister dev r.context }))
          Nowhere
          x
          d
      → IsDestroyed table
          (devices_of r.closed ++ (dev ∷ devs))
          (close_then (close_pending table devs) dev r (x, d))
  closed-Goes dev devs go r (empty, off) gone (ok s) d
        (((claimed, closed), context, arena, idle, harmless), halts) =
      subst (λ xs. IsDestroyed table xs (close_pending table devs (after dev s d r)))
        (devices-append r.closed (left_by dev s d) devs)
        (go (after dev s d r)
          (
            ap (λ (c : Context). c.devices) context ∙ vacant-still dev r.context empty,
            stopped-off r.event_loop s.event_loop off halts,
          )
          (AreGone-append table r.closed (left_by dev s d) gone
            (claimed, closed, arena, idle, harmless)))
  closed-Goes dev devs go r vacant gone (err e) d h = absurd h
  closed-Goes dev devs go r vacant gone trap d h = absurd h

  close_pending-Goes : (devs : List ℕ) → Goes devs
  unfolding close_pending
  close_pending-Goes [] r vacant gone = (vacant, sym (append-nil (devices_of r.closed)), gone)
  close_pending-Goes (dev ∷ devs) r vacant gone =
      let a = table dev in
      let trace = a.state.trace in
      let (x, d) = close a.kernel dev (session_of a r) a.host a.state in
      closed-Goes dev devs (close_pending-Goes devs) r vacant gone x d (
        (close-Always (closings trace) (is_claimed trace) a.kernel dev (session_of a r)
            (safe dev)).yields.at
          a.host a.state (refl, refl))

event_loop_stop-off : (l : EventLoop) → (event_loop_stop l).running ≡ false
unfolding event_loop_stop
event_loop_stop-off l = ground arith

-- Destroying a context whose slots from the count on are empty and whose devices' threads and
-- rings are as their flags say, whatever the hosts and the kernels answer: at most 8 devices are
-- collected, exactly those in its slots; each is closed, its interface not claimed, its descriptor
-- closed once more, without URBs, threads and ring; the slots are empty and the event loop does
-- not run.
pub destroy-IsDestroyed :
    (table : ℕ → Attached) (ctx : Context) (l : EventLoop)
    → ((dev : ℕ) → IsSafe (table dev).engine)
    → IsWellFormed ctx
    → IsDestroyed table (registered ctx.devices) (destroy table ctx l)
      × (length (registered ctx.devices) ≤ max_devices)
unfolding destroy
destroy-IsDestroyed table ctx l safe h =
    let all = collect-all ctx.dev_count ctx.devices h.counted in
    (
      subst
          (λ c.
            IsDestroyed table (registered ctx.devices)
              (close_collected table ctx (event_loop_stop l) c))
          (sym all)
          (close_pending-Goes table safe (registered ctx.devices) _
            (ap (λ n. replicate n none) h.whole, event_loop_stop-off l) tt),
      omega (arith, length-registered ctx.devices, h.whole),
    )
