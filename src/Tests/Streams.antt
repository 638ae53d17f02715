-- ===== src/Tests/Streams.antt =====
-- The URB pipeline, the event loop and the ring's engine at concrete inputs.
use libsdrgg.Prelude.{
  ℕ, zero, suc, List, [], ◌∷◌, Bool, true, false, Option, none, some, ◌≡◌, ◌⊎◌, refl, subst, arith,
  ltb,
}
use libsdrgg.Prelude.Int.{pos}
use libsdrgg.Types.{Event}
use libsdrgg.Usb.Urb.{
  Urb, UrbEvent, urb_accepted, Completion, Kernel, Stream, idle_urb, process_device_urbs, urb_at,
}
use libsdrgg.Usb.Urb.Teardown.{urb_cancel_all, reap_one, reap_from, discard_from, cancel_arena}
use libsdrgg.Usb.Urb.Balance.{pending, IsHonest, IsBalanced}
use libsdrgg.Usb.Urb.Progress.{reaps, IsAccounted, process-IsAccounted}
use libsdrgg.Usb.Urb.Serving.{IsServed, process-AreKept}
use libsdrgg.Ring.Async.{begin_async}
use libsdrgg.Ring.Async.Start.{IsBegun, begin_async-IsBegun}
use libsdrgg.Exec.Yields.{OrStop, Nowhere}
use libsdrgg.Usb.Dispatch.{Channel, Ready, pipe_ready, device_ready, event_loop_rounds}
use libsdrgg.Usb.Dispatch.Passes.{slot_at, history, event_loop_rounds-Follows}
use libsdrgg.Usb.Loop.{event_loop_start, event_loop_add_dev, idle_loop}
use libsdrgg.Usb.Loop.Count.{Served, Reach, here, next, starts, adds, IsTracked, Reach-IsTracked}
use libsdrgg.Ring.{ring_init}
use libsdrgg.Ring.Stream.{ring_init-IsHolding}
use libsdrgg.Ring.Reader.{sync_reader}
use libsdrgg.Ring.Reader.Sync.{Follows, sync_reader-Follows}
use libsdrgg.Ring.Engine.{
  Call, calls_start, calls_stop, calls_subscribe, calls_unsubscribe, run_calls, idle_engine,
}
use libsdrgg.Ring.Engine.Safety.{IsSafe, run_calls-IsSafe}
use libsdrgg.Core.Attach.{unregister}
use libsdrgg.Core.Close.{Session, close}
use libsdrgg.Core.Close.Ended.{IsClosed, close-IsClosed}
use libsdrgg.Tests.Devices.{quiet_host, quiet_host-IsBounded, device}

abbrev two_bytes : Completion
two_bytes = record { slot = 0; outcome = pos 0; stored = 1 ∷ 2 ∷ [] }

abbrev last_slot : Completion
last_slot = record { slot = 1; outcome = pos 0; stored = [] }

abbrev offer : Bool → Bool → Option Completion
offer true true = some two_bytes
offer _ _ = none

abbrev lowest_of : Bool → Bool → Option Completion
lowest_of true b = some two_bytes
lowest_of false true = some last_slot
lowest_of false false = none

-- A kernel that accepts every URB, completes the first one twice, and gives back the lowest first.
abbrev pub test_kernel : Kernel
test_kernel = record {
  accepts = λ t i. true;
  polls = λ t. offer (pending t 0) (ltb (reaps t) 2);
  waits = λ t. lowest_of (pending t 0) (pending t 1);
  cancels = λ t. false;
}

test_kernel-IsHonest : IsHonest test_kernel
test_kernel-IsHonest t c e = by_offer (pending t 0) (ltb (reaps t) 2) refl e
  where
    by_offer : (p q : Bool) → pending t 0 ≡ p → offer p q ≡ some c → pending t c.slot ≡ true
    by_offer true true held given =
        let same : two_bytes ≡ c = cc in subst (λ x. pending t x.slot ≡ true) same held
    by_offer true false held given = absurd (cc)
    by_offer false q held given = absurd (cc)

abbrev stream_of : List Urb → ℕ → List UrbEvent → Stream
stream_of arena submitted trace = record {
  arena = arena;
  arena_depth = 2;
  segment_size = 512;
  submitted = submitted;
  completed = 0;
  dropped = 0;
  backpressure = ltb 1 submitted;
  cancel_requested = false;
  sequence = 0;
  has_callback = true;
  urb_trace = trace;
}

abbrev busy_urb : Urb
busy_urb = record idle_urb { submitted = true }

-- Two URBs, both with the kernel.
abbrev pub two_urbs : Stream
two_urbs = stream_of (busy_urb ∷ busy_urb ∷ []) 2 (urb_accepted 1 ∷ urb_accepted 0 ∷ [])

two_urbs-IsBalanced : IsBalanced two_urbs
two_urbs-IsBalanced = record {
  sized = refl;
  small = omega arith;
  counted = refl;
  agrees = agrees;
  pressed = refl;
}
  where
    agrees : (i : ℕ) → (urb_at two_urbs i).submitted ≡ pending two_urbs.urb_trace i
    agrees zero = refl
    agrees (suc zero) = refl
    agrees (suc (suc i)) = ground arith

-- No arena yet.
abbrev no_stream : Stream
no_stream = stream_of [] 0 []

process-AreKept_example :
    let t = (process_device_urbs 3 test_kernel two_urbs).1 in
    IsBalanced t × (IsServed t ⊎ ¬ IsServed two_urbs)
process-AreKept_example =
    process-AreKept test_kernel test_kernel-IsHonest 3 two_urbs two_urbs-IsBalanced

process-IsAccounted_example : IsAccounted 0 (process_device_urbs 3 test_kernel two_urbs).1
process-IsAccounted_example = process-IsAccounted 0 test_kernel 3 two_urbs (refl, refl, tt)

begin_async-IsBegun_example :
    let (r, d) = begin_async (λ k. true) test_kernel no_stream quiet_host (device []) in
    OrStop IsBegun Nowhere r d
begin_async-IsBegun_example =
    begin_async-IsBegun (λ k. true) test_kernel no_stream quiet_host (device []) (λ i. refl)

-- A kernel that gives back the URB at index 1 first, as when it had completed before it was discarded:
-- the URB at index 0 stays with the kernel, and nothing marks it.
abbrev late_kernel : Kernel
late_kernel = record test_kernel { waits = λ t. lowest_of false (pending t 1) }

stays_with_kernel : pending (urb_cancel_all late_kernel two_urbs).urb_trace 0 ≡ true
unfolding urb_cancel_all cancel_arena reap_from reap_one discard_from
stays_with_kernel = refl

-- A device that streams in slot 1, and none in slot 0.
abbrev one_channel : List (Option Channel)
one_channel = none ∷ some (record { streaming = true; pipeline = two_urbs; overran = false }) ∷ []

abbrev two_rounds : List (List Ready)
two_rounds = (pipe_ready ∷ device_ready 1 ∷ []) ∷ [] ∷ []

event_loop_rounds-Follows_example :
    slot_at 1 (event_loop_rounds 3 (λ i. test_kernel) two_rounds one_channel)
    ≡ some (
        history 3 test_kernel
          (1 ∷ 0 ∷ [])
          (record { streaming = true; pipeline = two_urbs; overran = false }))
event_loop_rounds-Follows_example =
    event_loop_rounds-Follows 3 (λ i. test_kernel) two_rounds one_channel 1

abbrev one_device : Served
one_device = record {
  event_loop = record idle_loop {
    running = true;
    epoll_open = true;
    pipe_open = true;
    thread_runs = true;
    streaming_count = 1;
  };
  added = 1;
}

one_device-Reach : Reach (record { event_loop = idle_loop; added = 0 }) one_device
unfolding event_loop_start event_loop_add_dev
one_device-Reach = next (next here (starts true true true)) (adds refl)

Reach-IsTracked_example : IsTracked one_device
Reach-IsTracked_example = Reach-IsTracked one_device one_device-Reach

abbrev session : List Call
session =
    calls_start true true true true
    ∷ calls_subscribe true true
    ∷ calls_unsubscribe 0
    ∷ calls_stop
    ∷ calls_start true true true false
    ∷ []

run_calls-IsSafe_example : IsSafe (run_calls session idle_engine)
run_calls-IsSafe_example = run_calls-IsSafe session

-- A device that streams, with two URBs, in slot 0.
abbrev pub streaming_session : Session
streaming_session = record {
  context = record { devices = some 7 ∷ []; dev_count = 1 };
  event_loop = one_device.event_loop;
  engine = run_calls (calls_start true true true true ∷ []) idle_engine;
  pipeline = two_urbs;
}

close-IsClosed_example :
    let (r, d) = close test_kernel 7 streaming_session quiet_host (device []) in
    OrStop (IsClosed 0 (unregister 7 streaming_session.context)) Nowhere r d
close-IsClosed_example =
    close-IsClosed test_kernel 7 streaming_session quiet_host (device [])
      (run_calls-IsSafe (calls_start true true true true ∷ []))

abbrev never : List Event → Bool
never t = false

sync_reader-Follows_example :
    let (r, d) = sync_reader 3 never ring_init quiet_host (device []) in Follows r d
sync_reader-Follows_example =
    sync_reader-Follows 3 never ring_init quiet_host (device []) quiet_host-IsBounded
      ring_init-IsHolding
