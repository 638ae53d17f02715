-- ===== src/Ring/Engine/Safety.antt =====
-- No thread works on a ring that is not there.
use libsdrgg.Prelude.{
  ℕ, ◌≡◌, ◌⊎◌, refl, sym, ◌∙◌, List, [], ◌∷◌, Bool, true, false, inl, inr, length, by_branch, subst,
}
use libsdrgg.Types.{
  Result, ok, err, trap, Error, err_usb, err_io, err_nodev, err_busy, err_timeout, err_pll,
  err_param, err_nomem,
}
use libsdrgg.Ring.Slots.{subscribe, unsubscribe, Subscribed, subscribe-Subscribed}
use libsdrgg.Ring.Engine.{
  Engine, idle_engine, finish_start, prepared, begin_reader, start, stop, Call, calls_start,
  calls_stop, calls_subscribe, calls_unsubscribe, perform, run_calls, max_subscribers,
}
use libsdrgg.Ring.Engine.Table.{
  AllFree, replicate-free, stopped-AllFree, all-length, subscribe-length, unsubscribe-length,
  unsubscribe-AllFree,
}

-- While streaming, the ring is there and the reader runs; otherwise there is no ring, and neither the
-- reader nor a consumer runs.
abbrev pub IsSafe : Engine → Type 0
IsSafe s =
    (length s.slots ≡ max_subscribers)
    × ((s.active ≡ true)
          × (s.ring_exists ≡ true)
          × (s.reader_runs ≡ true)
          × (s.reader_started ≡ true)
        ⊎ (s.active ≡ false) × (s.ring_exists ≡ false) × (s.reader_runs ≡ false) × AllFree s.slots)

pub stop-IsSafe : (s : Engine) → IsSafe s → IsSafe (stop s).1
unfolding stop
stop-IsSafe s (whole, state) =
    by_branch (λ (rs : Result (Unit {0}) × Engine). IsSafe rs.1) s.active _ _
      (λ e. (
        all-length max_subscribers 0 s.slots ∙ whole,
        inr (
          refl,
          refl,
          elim state [
            | inl (a, there, runs, started) ↦ rw started refl
            | inr (idle, there, runs, free) ↦ absurd (cc)
          ],
          stopped-AllFree s.slots whole,
        ),
      ))
      (λ e. (whole, state))

-- A subscription that fails leaves the table as it was.
finish-IsSafe :
    (s : Engine) (r : Result ℕ) (slots : List Bool)
    → s.active ≡ true
    → s.ring_exists ≡ true
    → s.reader_runs ≡ true
    → s.reader_started ≡ true
    → AllFree s.slots
    → length slots ≡ max_subscribers
    → Subscribed s.slots r slots
    → IsSafe (finish_start s (r, slots)).1
finish-IsSafe s (ok handle) slots a there runs started free whole sub =
    (whole, inl (a, there, runs, started))
finish-IsSafe s (err e) slots a there runs started free whole sub =
    (whole, inr (refl, refl, refl, subst AllFree (sym (failed-same e sub)) free))
  where
    failed-same : (e : Error) → Subscribed s.slots (err e) slots → slots ≡ s.slots
    failed-same err_usb same = same
    failed-same err_io same = same
    failed-same err_nodev same = same
    failed-same err_busy (all, same) = same
    failed-same err_timeout same = same
    failed-same err_pll same = same
    failed-same err_param same = same
    failed-same err_nomem same = same
finish-IsSafe s trap slots a there runs started free whole sub = absurd sub

begin-IsSafe :
    (reader_ok consumer_ok : Bool) (s : Engine)
    → s.active ≡ true
    → s.ring_exists ≡ true
    → s.reader_runs ≡ false
    → AllFree s.slots
    → length s.slots ≡ max_subscribers
    → IsSafe (begin_reader reader_ok consumer_ok s).1
unfolding begin_reader
begin-IsSafe true consumer_ok s a there runs free whole =
    let (r, slots) = subscribe true s.active consumer_ok s.slots in
    finish-IsSafe (record s { reader_started = true; reader_runs = true }) r slots a there refl refl
      free (subscribe-length true s.active consumer_ok s.slots ∙ whole)
      (subscribe-Subscribed true s.active consumer_ok s.slots)
begin-IsSafe false consumer_ok s a there runs free whole = (whole, inr (refl, refl, runs, free))

idle-reader : (s : Engine) → IsSafe s → s.active ≡ false → s.reader_runs ≡ false
idle-reader s (whole, inl (a, there, runs, started)) idle = absurd (cc)
idle-reader s (whole, inr (a, there, runs, free)) idle = runs

start-IsSafe :
    (has_callback memory reader_ok consumer_ok : Bool) (s : Engine)
    → IsSafe s
    → IsSafe (start has_callback memory reader_ok consumer_ok s).1
unfolding start prepared
start-IsSafe has_callback memory reader_ok consumer_ok s h =
    let P : Result (Unit {0}) × Engine → Type 0 = λ rs. IsSafe rs.1 in
    by_branch P has_callback _ _
      (λ _.
        by_branch P s.active _ _ (λ _. h)
          λ idle.
            by_branch P memory _ _
              (λ _.
                begin-IsSafe reader_ok consumer_ok (prepared s) refl refl (idle-reader s h idle)
                  (replicate-free max_subscribers) refl)
              (λ _. h))
      (λ _. h)

-- Subscribing needs a stream.
subscribe-IsSafe :
    (cb consumer_ok : Bool) (s : Engine)
    → IsSafe s
    → IsSafe (record s { slots = (subscribe cb s.active consumer_ok s.slots).1 })
unfolding subscribe
subscribe-IsSafe cb consumer_ok s (whole, inl streams) =
    (subscribe-length cb s.active consumer_ok s.slots ∙ whole, inl streams)
subscribe-IsSafe cb consumer_ok s (whole, inr (idle, there, runs, free)) = (
  subscribe-length cb s.active consumer_ok s.slots ∙ whole,
  inr (
    idle,
    there,
    runs,
    subst (λ a. AllFree (subscribe cb a consumer_ok s.slots).1) (sym idle)
        (refused cb s.slots free),
  ),
)
  where
    refused :
        (b : Bool) (slots : List Bool)
        → AllFree slots
        → AllFree (subscribe b false consumer_ok slots).1
    refused true slots h = h
    refused false slots h = h

unsubscribe-IsSafe :
    (handle : ℕ) (s : Engine)
    → IsSafe s
    → IsSafe (record s { slots = (unsubscribe handle s.slots).1 })
unsubscribe-IsSafe handle s (whole, inl streams) =
    (unsubscribe-length handle s.slots ∙ whole, inl streams)
unsubscribe-IsSafe handle s (whole, inr (idle, there, runs, free)) = (
  unsubscribe-length handle s.slots ∙ whole,
  inr (idle, there, runs, unsubscribe-AllFree handle s.slots free),
)

perform-IsSafe : (c : Call) (s : Engine) → IsSafe s → IsSafe (perform c s)
unfolding perform
perform-IsSafe (calls_start cb memory reader_ok consumer_ok) s h =
    start-IsSafe cb memory reader_ok consumer_ok s h
perform-IsSafe calls_stop s h = stop-IsSafe s h
perform-IsSafe (calls_subscribe cb consumer_ok) s h = subscribe-IsSafe cb consumer_ok s h
perform-IsSafe (calls_unsubscribe handle) s h = unsubscribe-IsSafe handle s h

run_calls-keeps : (cs : List Call) (s : Engine) → IsSafe s → IsSafe (run_calls cs s)
unfolding run_calls
run_calls-keeps [] s h = h
run_calls-keeps (c ∷ cs) s h = run_calls-keeps cs (perform c s) (perform-IsSafe c s h)

-- After any calls of start, stop, subscribe and unsubscribe on a new device, whatever malloc and
-- pthread_create gave in them: either the device streams, its ring is there and its reader's
-- thread too, or it does not, its ring is freed and every thread of it, reader or consumer, is
-- joined.
pub run_calls-IsSafe : (cs : List Call) → IsSafe (run_calls cs idle_engine)
run_calls-IsSafe cs =
    run_calls-keeps cs idle_engine (refl, inr (refl, refl, refl, replicate-free max_subscribers))
