-- ===== src/Core/Close/Ended.antt =====
-- `close`: nothing of the device is left.
use libsdrgg.Prelude.{
  ℕ, suc, ◌≡◌, refl, [], Bool, true, false, by_branch, if◌then◌else◌, ◌⊎◌, arith, Bool-cases,
}
use libsdrgg.Types.{Result, ok, err, trap, Host, Dev}
use libsdrgg.Exec.{pure, ◌>>◌}
use libsdrgg.Exec.Yields.{OrStop, Nowhere}
use libsdrgg.Exec.Always.{
  Always, always-pure, always-carry, always-gets, always-ignore, always-if, always-bind,
  always-modify,
}
use libsdrgg.Exec.Keeps.{Keeps}
use libsdrgg.Rtl.Frame.{block_write-frame}
use libsdrgg.Rtl.Quiet.{frame}
use libsdrgg.Rtl.Nco.{stop_bulk}
use libsdrgg.Rtl.Tuner.Total.{stop_bulk-Returns}
use libsdrgg.Usb.Urb.{Kernel, Stream}
use libsdrgg.Usb.Urb.Teardown.{urb_free}
use libsdrgg.Ring.Engine.{Engine, stop}
use libsdrgg.Ring.Engine.Safety.{IsSafe, stop-IsSafe}
use libsdrgg.Usb.Loop.{EventLoop, event_loop_stop, event_loop_remove_dev}
use libsdrgg.Ring.Async.{end_async, leave_loop, stop_if_last}
use libsdrgg.Ring.Async.Start.{urb_free-empty}
use libsdrgg.Core.Attach.{Context, unregister, detach}
use libsdrgg.Core.Attach.Released.{is_claimed, closings, Holds-IsQuiet, At}
use libsdrgg.Core.Attach.Closed.{detach-Always}
use libsdrgg.Core.Close.{Session, end_reader, stop_stream, close}

-- The device is in no slot that it was taken from, it has no thread, no ring and no URB, its interface
-- is released and its file descriptor closed.
abbrev pub IsClosed : ℕ → Context → Session → Dev → Type 0
IsClosed n ctx s d =
    At false (suc n) d
    × (s.context ≡ ctx)
    × (s.pipeline.arena ≡ [])
    × (s.engine.active ≡ false)
    × IsSafe s.engine

stopped-idle : (s : Engine) → (stop s).1.active ≡ false
unfolding stop
stopped-idle s =
    by_branch (λ (rs : Result (Unit {0}) × Engine). rs.1.active ≡ false) s.active _ _ (λ e. refl)
      (λ e. e)

-- A loop that does not run is not started.
abbrev pub IsHalting : EventLoop → EventLoop → Type 0
IsHalting l l' = (l.running ≡ true) ⊎ (l'.running ≡ false)

-- The device is closed, and the event loop is not started.
abbrev pub Ended : ℕ → Session → Session → Dev → Type 0
Ended n u s d = IsClosed n u.context s d × IsHalting u.event_loop s.event_loop

stays : (l : EventLoop) → IsHalting l l
stays l = Bool-cases l.running

end_reader-IsHalting : (l : EventLoop) → IsHalting l (stop_if_last (leave_loop l))
unfolding stop_if_last leave_loop event_loop_stop event_loop_remove_dev
end_reader-IsHalting l = ground arith

module _ (n : ℕ) (b : Bool) (kernel : Kernel) where
  stop_bulk-Keeps : Keeps (At b n) stop_bulk
  unfolding stop_bulk
  stop_bulk-Keeps = block_write-frame (frame (Holds-IsQuiet b n)) _ _ _ _

  -- The context is as it was, the event loop is not started, and the engine is idle and safe.
  abbrev Idle : Session → Session → Type 0
  Idle s t =
      ((t.context ≡ s.context) × IsHalting s.event_loop t.event_loop)
      × (t.engine.active ≡ false)
      × IsSafe t.engine

  abbrev Stopped : Session → Session → Dev → Type 0
  Stopped s t d = At b n d × Idle s t

  end_async-Always : (s : Stream) → Always (At b n) (end_async kernel s) (λ _. At b n)
  unfolding end_async
  end_async-Always s =
      always-bind (λ _. At b n) (λ _. At b n) _ _ (always-gets (λ _. At b n) _ (λ d h. h))
        λ slow.
          always-bind (λ _. At b n) (λ _. At b n) _ _
            (always-if (λ _. At b n) slow _ _ (always-pure (λ _. At b n) tt (λ d h. h))
              (always-ignore stop_bulk stop_bulk-Returns stop_bulk-Keeps))
            (λ _. always-pure (λ _. At b n) _ (λ d h. h))

  -- The reader's end does not change the context.
  abbrev Same : Session → Session → Dev → Type 0
  Same s t d = At b n d × (t.context ≡ s.context) × IsHalting s.event_loop t.event_loop

  end_reader-Always : (s : Session) → Always (At b n) (end_reader kernel s) (Same s)
  unfolding end_reader
  end_reader-Always s =
      always-bind (λ _. At b n) (Same s) _ _ (end_async-Always s.pipeline)
        (λ t. always-pure (Same s) _ (λ d h. (h, refl, end_reader-IsHalting s.event_loop)))

  stop_stream-Always :
      (s : Session) → IsSafe s.engine → Always (At b n) (stop_stream kernel s) (Stopped s)
  unfolding stop_stream
  stop_stream-Always s safe =
      always-bind (λ _. At b n) (Stopped s) _ _ (always-gets (λ _. At b n) _ (λ d h. h))
        λ sync.
          always-bind (Same s) (Stopped s) _ _
            (always-if (Same s) sync _ _
              (always-pure (Same s) s (λ d h. (h, refl, stays s.event_loop))) (end_reader-Always s))
            λ t.
              always-bind (λ _. Same s t) (Stopped s) _ _ (always-modify (Same s t) _ (λ d h. h))
                λ _. always-pure (Stopped s) _ (λ d (h, context, halts).
                  (h, ((context, halts), stopped-idle s.engine, stop-IsSafe s.engine safe)))

  stop_if-Always :
      (s : Session) (active : Bool)
      → s.engine.active ≡ active
      → IsSafe s.engine
      → Always (At b n) (if active then stop_stream kernel s else pure s) (Stopped s)
  stop_if-Always s true e safe = stop_stream-Always s safe
  stop_if-Always s false e safe =
      always-pure (Stopped s) s (λ d h. (h, ((refl, stays s.event_loop), e, safe)))

  detached-Always :
      (u t : Session)
      → Always
          (Stopped u t)
          (detach >> pure (record t { pipeline = urb_free kernel t.pipeline }))
          (Ended n u)
  detached-Always u t =
      always-bind (λ _ d. At false (suc n) d × Idle u t) (Ended n u) detach _
        (always-carry (Idle u t) (λ _. At false (suc n)) detach (detach-Always n b))
        (λ _. always-pure (Ended n u) _ (λ d (h, ((context, halts), idle, safe)).
          ((h, context, urb_free-empty kernel t.pipeline, idle, safe), halts)))

  pub close-Always :
      (dev : ℕ) (s : Session)
      → IsSafe s.engine
      → Always
          (At b n)
          (close kernel dev s)
          (Ended n (record s { context = unregister dev s.context }))
  unfolding close
  close-Always dev s safe =
      let u : Session = record s { context = unregister dev s.context } in
      always-bind (Stopped u) (Ended n u) _ _ (stop_if-Always u s.engine.active refl safe)
        (detached-Always u)

closed :
    (n : ℕ) (u : Session) (r : Result Session) (d : Dev)
    → OrStop (Ended n u) Nowhere r d
    → OrStop (IsClosed n u.context) Nowhere r d
closed n u (ok s) d h = h.0
closed n u (err e) d h = h
closed n u trap d h = h

-- Closing a device whose threads and ring are as its flags say, whether it streams or not, returns
-- whatever the host and the kernel answer and whatever the device's health: the interface is not
-- claimed any more and the descriptor closed once, the device is taken out of its context, no
-- thread of it runs, its ring is freed, and so is its arena.
pub close-IsClosed :
    (kernel : Kernel) (dev : ℕ) (s : Session) (host : Host) (d : Dev)
    → IsSafe s.engine
    → let (r, d') = close kernel dev s host d in
      OrStop (IsClosed (closings d.trace) (unregister dev s.context)) Nowhere r d'
close-IsClosed kernel dev s host d safe =
    let (r, d') = close kernel dev s host d in
    closed (closings d.trace) (record s { context = unregister dev s.context }) r d'
      ((close-Always (closings d.trace) (is_claimed d.trace) kernel dev s safe).yields.at host d
        (refl, refl))
