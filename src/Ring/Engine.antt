-- ===== src/Ring/Engine.antt =====
-- `ring_engine::start` and `stop` of sdrgg_ring.cpp, with subscribing in between: which threads there are and
-- whether the ring is there. A consumer's thread runs while its slot is active, and a join waits until
-- the thread has ended. What malloc and pthread_create give are arguments.
pub mod Table
pub mod Safety
use libsdrgg.Prelude.{
  ℕ, zero, suc, ◌+◌, List, [], ◌∷◌, Bool, true, false, if◌then◌else◌, get_or, replicate,
}
use libsdrgg.Types.{Result, ok, err, trap, err_param, err_busy, err_io, err_nomem}
use libsdrgg.Ring.Slots.{subscribe, unsubscribe}

abbrev pub max_subscribers : ℕ
max_subscribers = 8

-- Of `stream_engine` and its ring: the flags, the subscribers' `active`, whether the reader's thread
-- was created and not joined yet, and whether the ring's buffer and lock are there.
pub record Engine : Type 0 where
  pub active : Bool
  pub cancel_requested : Bool
  pub reader_started : Bool
  pub reader_runs : Bool
  pub ring_exists : Bool
  pub slots : List Bool

-- A device that `calloc` gave.
abbrev pub idle_engine : Engine
idle_engine = record {
  active = false;
  cancel_requested = false;
  reader_started = false;
  reader_runs = false;
  ring_exists = false;
  slots = replicate max_subscribers false;
}

-- The end of `start`, from the subscription's result on: on an error the reader is told to stop and
-- joined.
abbrev pub finish_start : Engine → Result ℕ × List Bool → Result (Unit {0}) × Engine
finish_start s (ok handle, slots) = (ok tt, record s { slots = slots })
finish_start s (err e, slots) = (
  err e,
  record s {
    cancel_requested = true;
    reader_runs = false;
    active = false;
    ring_exists = false;
    slots = slots;
  },
)
finish_start s (trap, slots) = (trap, s)

-- `ring_init` and the flags.
unfoldable pub prepared : Engine → Engine
prepared s = record s {
  ring_exists = true;
  slots = replicate max_subscribers false;
  cancel_requested = false;
  active = true;
}

unfoldable pub begin_reader : Bool → Bool → Engine → Result (Unit {0}) × Engine
begin_reader reader_ok consumer_ok s =
    if reader_ok
    then finish_start (record s { reader_started = true; reader_runs = true })
        (subscribe true s.active consumer_ok s.slots)
    else (err err_io, record s { active = false; ring_exists = false })

unfoldable pub start : Bool → Bool → Bool → Bool → Engine → Result (Unit {0}) × Engine
start has_callback memory reader_ok consumer_ok s =
    if has_callback
    then (if s.active
        then (err err_busy, s)
        else (if memory
            then begin_reader reader_ok consumer_ok (prepared s)
            else (err err_nomem, s)))
    else (err err_param, s)

-- The loop over the subscribers, `n` of them from `i` on.
unfoldable pub unsubscribe_all : ℕ → ℕ → List Bool → List Bool
unsubscribe_all zero i slots = slots
unsubscribe_all (suc n) i slots =
    let next = if get_or slots i false then (unsubscribe i slots).1 else slots in
    unsubscribe_all n (i + 1) next

-- If the reader was started it is joined.
unfoldable pub stop : Engine → Result (Unit {0}) × Engine
stop s =
    if s.active
    then (
      ok tt,
      record s {
        slots = unsubscribe_all max_subscribers 0 s.slots;
        cancel_requested = true;
        reader_runs = if s.reader_started then false else s.reader_runs;
        reader_started = false;
        active = false;
        ring_exists = false;
      },
    )
    else (ok tt, s)

-- What an application does, with what malloc and pthread_create give.
pub data Call : Type 0 where
  calls_start : Bool → Bool → Bool → Bool → Call
  calls_stop : Call
  calls_subscribe : Bool → Bool → Call
  calls_unsubscribe : ℕ → Call

unfoldable pub perform : Call → Engine → Engine
perform (calls_start has_callback memory reader_ok consumer_ok) s =
    (start has_callback memory reader_ok consumer_ok s).1
perform calls_stop s = (stop s).1
perform (calls_subscribe has_callback consumer_ok) s = record s {
  slots = (subscribe has_callback s.active consumer_ok s.slots).1;
}
perform (calls_unsubscribe handle) s = record s { slots = (unsubscribe handle s.slots).1 }

unfoldable pub run_calls : List Call → Engine → Engine
run_calls [] s = s
run_calls (c ∷ cs) s = run_calls cs (perform c s)
