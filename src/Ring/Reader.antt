-- ===== src/Ring/Reader.antt =====
-- The reader's thread of an FC0012 or FC0013: `reader_thread_fn` of sdrgg_ring.cpp with its
-- synchronous reads. The loop is followed for a number of rounds; whether `cancel_requested` is set
-- when it is read may depend on all that happened before. The allocation of the buffer is taken to
-- succeed.
pub mod Sync
use libsdrgg.Prelude.{
  ℕ, zero, suc, ◌+◌, ◌^◌, ◌≤◌, ◌<◌, List, [], ◌∷◌, ◌++◌, ◌≡◌, refl, sym, ◌∙◌, ap, subst, arith,
  Bool, true, false, Option, none, some, length, ltb, if◌then◌else◌, by_branch,
}
use libsdrgg.Types.{
  Result, ok, err, trap, Error, Health, health_disconnected, Event, io, Host, Dev, err_io,
}
use libsdrgg.Exec.{
  M, Status, pure, gets, ◌>>=◌, ◌>>◌, attempt, ignore, stuck, usleep, continue, caught, dropped,
}
use libsdrgg.Usb.{bulk_read}
use libsdrgg.Usb.Bulk.{IsBounded, Within, bulk_read-Within}
use libsdrgg.Usb.Received.{received, Reads, bulk_read-Reads}
use libsdrgg.Rtl.Nco.{start_bulk}
use libsdrgg.Ring.{IqRing, ring_write, ring_size, ring_init}
use libsdrgg.Ring.Stream.{IsHolding, ring_write-IsHolding, ring_init-IsHolding}

abbrev pub sync_buf_size : ℕ
sync_buf_size = 16384

abbrev pub is_gone : Health → Bool
is_gone health_disconnected = true
is_gone _ = false

-- What a round does with the read's result; none leaves the loop.
unfoldable pub after_read : IqRing → Result (List ℕ) → M (Option IqRing)
after_read ring (ok bytes) =
    pure (some (if ltb 0 (length bytes) then ring_write ring bytes else ring))
after_read ring (err e) = do
  gone ← gets (λ d. is_gone d.health)
  if gone then pure none else (do usleep 10000; pure (some ring))
after_read ring trap = stuck

unfoldable pub sync_round : IqRing → M (Option IqRing)
sync_round ring = do rc ← attempt (bulk_read sync_buf_size 1000); after_read ring rc

unfoldable pub sync_rounds : ℕ → (List Event → Bool) → IqRing → M IqRing
sync_rounds zero cancels ring = pure ring
sync_rounds (suc n) cancels ring = do
  stop ← gets (λ d. cancels d.trace)
  if stop
      then pure ring
      else (sync_round ring >>= λ next. elim next [
        | none ↦ pure ring
        | some ring' ↦ sync_rounds n cancels ring'
      ])

-- The result of `start_bulk` is not looked at.
unfoldable pub sync_reader : ℕ → (List Event → Bool) → IqRing → M IqRing
sync_reader n cancels ring = do ignore start_bulk; sync_rounds n cancels ring
