-- ===== src/Usb/Dispatch.antt =====
-- `event_loop_thread` of sdrgg_usb.cpp: what it does with the events of each `epoll_wait` and in its
-- pass over the context's devices, whose slots stand for their addresses.
pub mod Passes
use libsdrgg.Prelude.{
  ℕ, zero, suc, ◌+◌, List, [], ◌∷◌, Bool, true, false, ◌||◌, Option, none, some, if◌then◌else◌,
}
use mathlib.Core.Option
use libsdrgg.Types.{Result, ok, err, trap}
use libsdrgg.Usb.Urb.{Kernel, Stream, load_cancel, process_device_urbs}

-- What the loop reads of a device: `stream.active`, and the pipeline; and whether a call of
-- process_device_urbs went on after the fuel was spent, so that what follows is not the thread's.
pub record Channel : Type 0 where
  pub streaming : Bool
  pub pipeline : Stream
  pub overran : Bool

-- An event: of the wakeup pipe, or of the device in a slot.
pub data Ready : Type 0 where
  pipe_ready : Ready
  device_ready : ℕ → Ready

abbrev pub is_trap : Result (Unit {0}) → Bool
is_trap trap = true
is_trap (ok _) = false
is_trap (err e) = false

unfoldable pub process : ℕ → Kernel → Channel → Channel
process fuel kernel c =
    let (r, t) = process_device_urbs fuel kernel c.pipeline in
    record c { pipeline = t; overran = is_trap r || c.overran }

-- `dev->stream.active`
unfoldable pub serve : ℕ → Kernel → Channel → Channel
serve fuel kernel c = if c.streaming then process fuel kernel c else c

-- `dev->stream.active && !dev->stream.cancel_requested`
unfoldable pub poll : ℕ → Kernel → Channel → Channel
poll fuel kernel c =
    let t : Channel = record c { pipeline = load_cancel kernel c.pipeline } in
    if c.streaming then (if t.pipeline.cancel_requested then t else process fuel kernel t) else c

unfoldable pub at_slot : (Channel → Channel) → ℕ → List (Option Channel) → List (Option Channel)
at_slot f i [] = []
at_slot f zero (o ∷ slots) = Option.map f o ∷ slots
at_slot f (suc i) (o ∷ slots) = o ∷ at_slot f i slots

-- The byte of the pipe is read and dropped. `kernels i` answers for the device in slot `i`.
unfoldable pub handle_events :
    ℕ → (ℕ → Kernel) → List Ready → List (Option Channel) → List (Option Channel)
handle_events fuel kernels [] slots = slots
handle_events fuel kernels (pipe_ready ∷ es) slots = handle_events fuel kernels es slots
handle_events fuel kernels (device_ready i ∷ es) slots =
    handle_events fuel kernels es (at_slot (serve fuel (kernels i)) i slots)

-- The pass over the slots, from slot `i` on.
unfoldable pub poll_from : ℕ → (ℕ → Kernel) → ℕ → List (Option Channel) → List (Option Channel)
poll_from fuel kernels i [] = []
poll_from fuel kernels i (o ∷ slots) =
    Option.map (poll fuel (kernels i)) o ∷ poll_from fuel kernels (i + 1) slots

-- The rounds of the loop while `event_running` is set, with what each `epoll_wait` gave: nothing on a
-- timeout.
unfoldable pub event_loop_rounds :
    ℕ → (ℕ → Kernel) → List (List Ready) → List (Option Channel) → List (Option Channel)
event_loop_rounds fuel kernels [] slots = slots
event_loop_rounds fuel kernels (es ∷ rounds) slots =
    event_loop_rounds fuel kernels rounds
      (poll_from fuel kernels 0 (handle_events fuel kernels es slots))
