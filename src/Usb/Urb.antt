-- ===== src/Usb/Urb.antt =====
-- sdrgg_usb.cpp, sub-layer 2: the URB pipeline and `process_device_urbs`.
-- A URB is named by its index in the arena. A NULL arena is the empty list. What stands in the
-- buffer of a URB is the list of the `actual_length` bytes that the kernel stored.
pub mod Teardown
pub mod Balance
pub mod Drain
pub mod Ends
pub mod Progress
pub mod Serving
use libsdrgg.Prelude.{
  ℕ, zero, suc, ◌+◌, ◌-◌, ◌*◌, List, [], ◌∷◌, Bool, true, false, ◌&&◌, ◌||◌, Option, none, some,
  u32, ltb, leb, ◌==◌, if◌then◌else◌, length, get_or, set, map,
}
use mathlib.Core.Option
use libsdrgg.Prelude.Int.{ℤ, pos, negsuc}
use libsdrgg.Types.{Result, ok, err, trap, err_io, err_busy, err_nomem}
use libsdrgg.Ring.{Buffer}

-- `sdrgg_urb_t` and the fields of its `usbdevfs_urb` that change: `status`, and the bytes stored.
pub record Urb : Type 0 where
  pub submitted : Bool
  pub status : ℤ
  pub received : List ℕ

-- What an observer of the stream sees, in order.
pub data UrbEvent : Type 0 where
  -- USBDEVFS_SUBMITURB, accepted or refused, USBDEVFS_REAPURB(NDELAY) and USBDEVFS_DISCARDURB
  urb_accepted urb_refused urb_reaped urb_discarded : ℕ → UrbEvent
  -- a reap that gave nothing, and USBDEVFS_CLEAR_HALT
  nothing_reaped halt_cleared : UrbEvent
  -- a sleep, in microseconds, and a call of the stream's callback
  backed_off : ℕ → UrbEvent
  delivered : Buffer → UrbEvent

-- What a reap gives: the URB, its status and the bytes stored.
pub record Completion : Type 0 where
  pub slot : ℕ
  pub outcome : ℤ
  pub stored : List ℕ

-- The kernel and the other threads, whose answers may depend on all that happened before: whether a
-- URB is accepted, what USBDEVFS_REAPURBNDELAY and USBDEVFS_REAPURB give, and whether another
-- thread has set `cancel_requested` by now.
pub record Kernel : Type 0 where
  pub accepts : List UrbEvent → ℕ → Bool
  pub polls : List UrbEvent → Option Completion
  pub waits : List UrbEvent → Option Completion
  pub cancels : List UrbEvent → Bool

-- `stream_pipeline`, and of `stream_engine` what the pipeline's functions use.
pub record Stream : Type 0 where
  pub arena : List Urb
  pub arena_depth : ℕ
  pub segment_size : ℕ
  pub submitted : ℕ
  pub completed : ℕ
  pub dropped : ℕ
  pub backpressure : Bool
  pub cancel_requested : Bool
  pub sequence : ℕ
  pub has_callback : Bool
  pub urb_trace : List UrbEvent

abbrev pub idle_urb : Urb
idle_urb = record { submitted = false; status = pos 0; received = [] }

abbrev pub urb_at : Stream → ℕ → Urb
urb_at s i = get_or s.arena i idle_urb

abbrev pub note : UrbEvent → Stream → Stream
note e s = record s { urb_trace = e ∷ s.urb_trace }

-- The loop of `urb_alloc` from URB `i` on: the allocation of URB `i` is the one numbered
-- `2 i + 1`, and its buffer's the next. A failure frees all of them.
unfoldable pub fill_arena : (ℕ → Bool) → ℕ → ℕ → Option (List Urb)
fill_arena memory i zero = some []
fill_arena memory i (suc n) =
    let rest = fill_arena memory (i + 1) n in
    if memory (2 * i + 1) && memory (2 * i + 2) then Option.map (λ us. idle_urb ∷ us) rest else none

-- `memory k` says whether allocation `k` succeeds.
unfoldable pub urb_alloc : (ℕ → Bool) → ℕ → ℕ → Stream → Result (Unit {0}) × Stream
urb_alloc memory count buf_size s =
    let fresh : Stream = record s {
      arena_depth = count;
      segment_size = buf_size;
      submitted = 0;
      completed = 0;
      dropped = 0;
      backpressure = false;
    } in
    if memory 0
    then elim (fill_arena memory 0 count) [
      | none ↦ (err err_nomem, record fresh { arena = [] })
      | some urbs ↦ (ok tt, record fresh { arena = urbs })
    ]
    else (err err_nomem, record s { arena = [] })

-- The URB is the kernel's.
unfoldable pub accepted : ℕ → Stream → Stream
accepted i s =
    let n = u32 (s.submitted + 1) in
    record s {
      arena = set s.arena i (record { submitted = true; status = pos 0; received = [] });
      submitted = n;
      backpressure = leb s.arena_depth n;
      urb_trace = urb_accepted i ∷ s.urb_trace;
    }

-- The fields were reset before the call.
unfoldable pub refused : ℕ → Stream → Stream
refused i s = record s { arena = set s.arena i idle_urb; urb_trace = urb_refused i ∷ s.urb_trace }

unfoldable pub urb_submit : Kernel → ℕ → Stream → Result (Unit {0}) × Stream
urb_submit kernel i s =
    if (urb_at s i).submitted
    then (err err_busy, s)
    else (if kernel.accepts s.urb_trace i then (ok tt, accepted i s) else (err err_io, refused i s))

abbrev pub go_on :
    Result (Unit {0}) × Stream → (Stream → Result (Unit {0}) × Stream) → Result (Unit {0}) × Stream
go_on (ok _, s) f = f s
go_on (err e, s) f = (err e, s)
go_on (trap, s) f = (trap, s)

-- The URBs from `i` on: `n` of them.
unfoldable pub submit_from : Kernel → ℕ → ℕ → Stream → Result (Unit {0}) × Stream
submit_from kernel zero i s = (ok tt, s)
submit_from kernel (suc n) i s = go_on (urb_submit kernel i s) (submit_from kernel n (i + 1))

unfoldable pub urb_submit_all : Kernel → Stream → Result (Unit {0}) × Stream
urb_submit_all kernel s = submit_from kernel s.arena_depth 0 s

abbrev pub is_success : ℤ → Bool
is_success (pos n) = n == 0
is_success (negsuc n) = false

-- `status == 0 && actual_length > 0`
abbrev pub is_complete : Urb → Bool
is_complete u = is_success u.status && ltb 0 (length u.received)

-- The books after a reap; `- 1` is for a count above 0 only.
unfoldable pub settle : Completion → Stream → Stream
settle c s =
    let u : Urb = record { submitted = false; status = c.outcome; received = c.stored } in
    record s {
      arena = set s.arena c.slot u;
      submitted = if ltb 0 s.submitted then s.submitted - 1 else s.submitted;
      backpressure = false;
      completed = if is_complete u then u32 (s.completed + 1) else s.completed;
      dropped = if is_complete u then s.dropped else u32 (s.dropped + 1);
      urb_trace = urb_reaped c.slot ∷ s.urb_trace;
    }

-- A URB that was reaped has its `usercontext`.
abbrev pub took : Option Completion → Stream → Option ℕ × Stream
took none s = (none, note nothing_reaped s)
took (some c) s = (some c.slot, settle c s)

unfoldable pub urb_reap : Kernel → Stream → Option ℕ × Stream
urb_reap kernel s = took (kernel.polls s.urb_trace) s

-- `cancel_requested` as it is when it is read.
abbrev pub load_cancel : Kernel → Stream → Stream
load_cancel kernel s = record s {
  cancel_requested = s.cancel_requested || kernel.cancels s.urb_trace;
}

unfoldable pub deliver : List ℕ → Stream → Stream
deliver bytes s =
    let t : Stream = record s { sequence = u32 (s.sequence + 1) } in
    if s.has_callback then note (delivered (record { bytes = bytes; number = s.sequence })) t else t

-- -EPIPE
abbrev pub is_stall : ℤ → Bool
is_stall (pos n) = false
is_stall (negsuc n) = n == 31

unfoldable pub recover : ℤ → Stream → Stream
recover status s = note (backed_off 1000) (if is_stall status then note halt_cleared s else s)

unfoldable pub use_urb : Urb → Stream → Stream
use_urb u s = if is_complete u then deliver u.received s else recover u.status s

abbrev pub after_resubmit : Result (Unit {0}) × Stream → Stream
after_resubmit (ok _, s) = s
after_resubmit (_, s) = if s.submitted == 0 then record s { cancel_requested = true } else s

unfoldable pub resubmit : Kernel → ℕ → Stream → Stream
resubmit kernel i s = if s.cancel_requested then s else after_resubmit (urb_submit kernel i s)

-- One round of the loop, after its reap.
unfoldable pub process_urb : Kernel → ℕ → Stream → Stream
process_urb kernel i s =
    let t = load_cancel kernel s in
    if t.cancel_requested
    then t
    else resubmit kernel i (load_cancel kernel (use_urb (urb_at t i) t))

abbrev pub next_round :
    Kernel → (Stream → Result (Unit {0}) × Stream) → Option ℕ × Stream → Result (Unit {0}) × Stream
next_round kernel again (none, s) = (ok tt, s)
next_round kernel again (some i, s) = again (process_urb kernel i s)

-- The loop, with one round of fuel for each URB reaped and one for the last reap.
unfoldable pub process_device_urbs : ℕ → Kernel → Stream → Result (Unit {0}) × Stream
process_device_urbs zero kernel s = (trap, s)
process_device_urbs (suc fuel) kernel s =
    next_round kernel (process_device_urbs fuel kernel) (urb_reap kernel s)
