-- ===== src/Core/Destroy.antt =====
-- `destroy` of sdrgg_core.cpp: the devices of a context are taken out of its table and closed one after
-- the other. Each has a host, threads and a pipeline of its own; the context and its event loop are
-- handed on from one `close` to the next.
pub mod Collected
pub mod Ended
use libsdrgg.Prelude.{ℕ, zero, suc, List, [], ◌∷◌, ◌++◌, Option, none, some}
use libsdrgg.Types.{Result, ok, err, trap, Host, Dev}
use libsdrgg.Usb.Urb.{Kernel, Stream}
use libsdrgg.Usb.Loop.{EventLoop, event_loop_stop}
use libsdrgg.Ring.Engine.{Engine}
use libsdrgg.Core.Attach.{Context}
use libsdrgg.Core.Close.{Session, close}

-- A device of the context.
pub record Attached : Type 0 where
  pub kernel : Kernel
  pub host : Host
  pub state : Dev
  pub engine : Engine
  pub pipeline : Stream

-- What a closed device leaves.
pub record Left : Type 0 where
  pub dev : ℕ
  pub state : Dev
  pub engine : Engine
  pub pipeline : Stream

pub record Remains : Type 0 where
  pub context : Context
  pub event_loop : EventLoop
  pub closed : List Left

-- The loop over the first `n` slots: the devices found, and the slots, which are emptied.
unfoldable pub collect : ℕ → List (Option ℕ) → List ℕ × List (Option ℕ)
collect zero slots = ([], slots)
collect (suc n) [] = ([], [])
collect (suc n) (none ∷ slots) = let (devs, rest) = collect n slots in (devs, none ∷ rest)
collect (suc n) (some dev ∷ slots) = let (devs, rest) = collect n slots in (dev ∷ devs, none ∷ rest)

abbrev pub session_of : Attached → Remains → Session
session_of a r = record {
  context = r.context;
  event_loop = r.event_loop;
  engine = a.engine;
  pipeline = a.pipeline;
}

abbrev pub left_by : ℕ → Session → Dev → Left
left_by dev s d = record { dev = dev; state = d; engine = s.engine; pipeline = s.pipeline }

abbrev pub after : ℕ → Session → Dev → Remains → Remains
after dev s d r = record {
  context = s.context;
  event_loop = s.event_loop;
  closed = r.closed ++ (left_by dev s d ∷ []);
}

abbrev pub close_then :
    (Remains → Result Remains) → ℕ → Remains → Result Session × Dev → Result Remains
close_then next dev r (ok s, d) = next (after dev s d r)
close_then next dev r (err e, d) = err e
close_then next dev r (trap, d) = trap

-- The loop over the pending devices.
unfoldable pub close_pending : (ℕ → Attached) → List ℕ → Remains → Result Remains
close_pending table [] r = ok r
close_pending table (dev ∷ devs) r =
    let a = table dev in
    close_then (close_pending table devs) dev r (close a.kernel dev (session_of a r) a.host a.state)

abbrev pub close_collected :
    (ℕ → Attached) → Context → EventLoop → List ℕ × List (Option ℕ) → Result Remains
close_collected table ctx l (pending, slots) =
    close_pending table pending
      (record { context = record ctx { devices = slots }; event_loop = l; closed = [] })

unfoldable pub destroy : (ℕ → Attached) → Context → EventLoop → Result Remains
destroy table ctx l =
    close_collected table ctx (event_loop_stop l) (collect ctx.dev_count ctx.devices)
