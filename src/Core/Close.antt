-- ===== src/Core/Close.antt =====
-- `stop_stream` and `close` of sdrgg_core.cpp as a whole: the context, its event loop, the device's
-- threads and its pipeline. A reader that uses URBs is taken to wait still when it is cancelled; its
-- last steps then come before its join returns.
pub mod Ended
use libsdrgg.Prelude.{ℕ, false, if◌then◌else◌}
use libsdrgg.Types.{Dev, is_fc001x_family}
use libsdrgg.Exec.{M, Status, pure, gets, modify, ◌>>=◌, ◌>>◌}
use libsdrgg.Usb.Urb.{Kernel, Stream}
use libsdrgg.Usb.Urb.Teardown.{urb_free}
use libsdrgg.Usb.Loop.{EventLoop}
use libsdrgg.Ring.Engine.{Engine, stop}
use libsdrgg.Ring.Async.{leave_loop, end_async, stop_if_last}
use libsdrgg.Core.Attach.{Context, unregister, detach}

-- What a device's end has to do with.
pub record Session : Type 0 where
  pub context : Context
  pub event_loop : EventLoop
  pub engine : Engine
  pub pipeline : Stream

-- The reader's last steps, from the cancellation on.
unfoldable pub end_reader : Kernel → Session → M Session
end_reader kernel s = do
  t ← end_async kernel s.pipeline
  pure (record s { pipeline = t; event_loop = stop_if_last (leave_loop s.event_loop) })

-- `stream.active` is false from then on.
unfoldable pub stop_stream : Kernel → Session → M Session
stop_stream kernel s = do
  sync ← gets (λ d. is_fc001x_family d.tuner_class)
  t ← (if sync then pure s else end_reader kernel s)
  modify (λ d. record d { stream_active = false })
  pure (record t { engine = (stop s.engine).1 })

unfoldable pub close : Kernel → ℕ → Session → M Session
close kernel dev s = do
  let u : Session = record s { context = unregister dev s.context }
  t ← (if s.engine.active then stop_stream kernel u else pure u)
  detach
  pure (record t { pipeline = urb_free kernel t.pipeline })
