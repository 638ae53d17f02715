-- ===== src/Ring/Reader/Sync.antt =====
-- What the synchronous reader leaves in the ring.
use libsdrgg.Prelude.{
  ℕ, zero, suc, List, ◌∷◌, ◌++◌, ◌≡◌, sym, ◌∙◌, ap, subst, arith, Bool, true, Option, none, some,
  length, ltb, by_branch,
}
use libsdrgg.Types.{
  Result, ok, err, trap, Error, Event, io, Host, Dev, Request, Reply, control_out, control_in,
  bulk_in, reset_device, claim_interface, release_interface, close_fd, get_descriptor, get_driver,
  get_capabilities, disconnect_driver,
}
use libsdrgg.Exec.{M, pure, gets, ◌>>=◌, attempt, ignore, usleep, continue, caught}
use libsdrgg.Usb.{bulk_read}
use libsdrgg.Usb.Bulk.{IsBounded, Within, bulk_read-Within}
use libsdrgg.Usb.Received.{received, Reads, bulk_read-Reads, append_nil, empty}
use libsdrgg.Rtl.Nco.{start_bulk}
use libsdrgg.Ring.{IqRing, ring_write}
use libsdrgg.Ring.Stream.{IsHolding, ring_write-IsHolding}
use libsdrgg.Rtl.Quiet.{IsQuiet, frame}
use libsdrgg.Rtl.Frame.{is_transfer, block_write-frame}
use libsdrgg.Rtl.Tuner.Total.{start_bulk-Returns}
use libsdrgg.Exec.Keeps.{Keeps, keeps_rules}
use libsdrgg.Exec.Yields.{OrStop, Nowhere}
use libsdrgg.Exec.Always.{always-ignore}
use libsdrgg.Ring.Reader.{sync_buf_size, is_gone, after_read, sync_round, sync_rounds, sync_reader}

-- The ring holds the end of all that the device sent.
abbrev pub Follows : Result IqRing → Dev → Type 0
Follows (ok ring) d = IsHolding (received d.trace) ring
Follows (err e) d = ⊥
Follows trap d = ⊥

abbrev FollowsOrLeft : IqRing → Result (Option IqRing) → Dev → Type 0
FollowsOrLeft ring (ok (some ring')) d = IsHolding (received d.trace) ring'
FollowsOrLeft ring (ok none) d = IsHolding (received d.trace) ring
FollowsOrLeft ring (err e) d = ⊥
FollowsOrLeft ring trap d = ⊥

after_error-Follows :
    (ring : IqRing) (e : Error) (host : Host) (d : Dev)
    → IsHolding (received d.trace) ring
    → let (r, d') = after_read ring (err e) host d in FollowsOrLeft ring r d'
unfolding after_read ◌>>=◌ gets pure usleep
after_error-Follows ring e host d h =
    by_branch (λ (m : M (Option IqRing)). let (r, d') = m host d in FollowsOrLeft ring r d')
      (is_gone d.health) _ _ (λ _. h) (λ _. h)

after_read-Follows :
    (before : List ℕ) (ring : IqRing) (r : Result (List ℕ)) (host : Host) (d : Dev)
    → IsHolding before ring
    → Reads before r d
    → Within sync_buf_size r
    → let (r', d') = continue (caught r) (after_read ring) host d in FollowsOrLeft ring r' d'
unfolding after_read pure
after_read-Follows before ring (ok bytes) host d held reads fits =
    by_branch (IsHolding (received d.trace)) (ltb 0 (length bytes)) _ _
      (λ _.
        subst (λ s. IsHolding s (ring_write ring bytes)) (sym reads)
          (ring_write-IsHolding before ring bytes held (omega (arith, fits))))
      (λ none'.
        let nothing : length bytes ≡ 0 = ground arith in
        let same = reads ∙ ap (λ b. before ++ b) (empty bytes nothing) ∙ append_nil before in
        subst (λ s. IsHolding s ring) (sym same) held)
after_read-Follows before ring (err e) host d held reads fits =
    after_error-Follows ring e host d (subst (λ s. IsHolding s ring) (sym reads) held)
after_read-Follows before ring trap host d held reads fits = absurd fits

module _ (host : Host) (honest : IsBounded host) where
  round-Follows :
      (ring : IqRing) (d : Dev)
      → IsHolding (received d.trace) ring
      → let (r, d') = sync_round ring host d in FollowsOrLeft ring r d'
  unfolding sync_round ◌>>=◌ attempt
  round-Follows ring d held =
      let (r, d') = bulk_read sync_buf_size 1000 host d in
      after_read-Follows (received d.trace) ring r host d' held
        (bulk_read-Reads sync_buf_size 1000 host d honest (omega arith))
        (bulk_read-Within sync_buf_size 1000 host d honest (omega arith))

  abbrev after_round : (IqRing → M IqRing) → IqRing → Option IqRing → M IqRing
  after_round again ring none = pure ring
  after_round again ring (some ring') = again ring'

  next-Follows :
      (again : IqRing → M IqRing) (ring : IqRing) (r : Result (Option IqRing)) (d : Dev)
      → ((ring' : IqRing) (d' : Dev)
          → IsHolding (received d'.trace) ring'
          → let (r', d'') = again ring' host d' in Follows r' d'')
      → FollowsOrLeft ring r d
      → let (r', d') =
          continue r (λ next. elim next [ none ↦ pure ring | some ring' ↦ again ring' ]) host d in
        Follows r' d'
  unfolding pure
  next-Follows again ring (ok none) d rest h = h
  next-Follows again ring (ok (some ring')) d rest h = rest ring' d h
  next-Follows again ring (err e) d rest h = absurd h
  next-Follows again ring trap d rest h = absurd h

  pub sync_rounds-Follows :
      (n : ℕ) (cancels : List Event → Bool) (ring : IqRing) (d : Dev)
      → IsHolding (received d.trace) ring
      → let (r, d') = sync_rounds n cancels ring host d in Follows r d'
  unfolding sync_rounds ◌>>=◌ gets pure
  sync_rounds-Follows zero cancels ring d held = held
  sync_rounds-Follows (suc n) cancels ring d held =
      by_branch (λ (m : M IqRing). let (r, d') = m host d in Follows r d') (cancels d.trace) _ _
        (λ _. held)
        (λ _.
          let (r, d') = sync_round ring host d in
          next-Follows (sync_rounds n cancels) ring r d' (sync_rounds-Follows n cancels)
            (round-Follows ring d held))

Follows-IsQuiet : (ring : IqRing) → IsQuiet (λ t. IsHolding (received t) ring)
Follows-IsQuiet ring = record {
  on_transfer = quiet;
  on_slept = λ us t h. h;
  on_notified = λ t h. h;
}
  where
    quiet :
        (req : Request) (reply : Reply) (t : List Event)
        → is_transfer req ≡ true
        → IsHolding (received t) ring
        → IsHolding (received (io req reply ∷ t)) ring
    quiet (control_out value index bytes) reply t e h = h
    quiet (control_in value index len) reply t e h = h
    quiet (bulk_in len timeout) reply t e h = absurd (cc)
    quiet reset_device reply t e h = absurd (cc)
    quiet claim_interface reply t e h = absurd (cc)
    quiet release_interface reply t e h = absurd (cc)
    quiet close_fd reply t e h = absurd (cc)
    quiet get_descriptor reply t e h = absurd (cc)
    quiet get_driver reply t e h = absurd (cc)
    quiet get_capabilities reply t e h = absurd (cc)
    quiet disconnect_driver reply t e h = absurd (cc)

start_bulk-Keeps : (ring : IqRing) → Keeps (λ d. IsHolding (received d.trace) ring) start_bulk
unfolding start_bulk
start_bulk-Keeps ring = search (keeps_rules, block_write-frame (frame (Follows-IsQuiet ring)))

-- On a host whose answers fit what was asked for, if the ring holds the last bytes that the device
-- sent so far, then after any number of rounds of the synchronous reader, through failed reads and
-- whenever it is cancelled, it holds the last bytes of all that the device has sent by then.
pub sync_reader-Follows :
    (n : ℕ) (cancels : List Event → Bool) (ring : IqRing) (host : Host) (d : Dev)
    → IsBounded host
    → IsHolding (received d.trace) ring
    → let (r, d') = sync_reader n cancels ring host d in Follows r d'
unfolding sync_reader ◌>>=◌
sync_reader-Follows n cancels ring host d honest held =
    let started = always-ignore start_bulk start_bulk-Returns (start_bulk-Keeps ring) in
    let (r, d') = ignore start_bulk host d in go r d' (started.yields.at host d held)
  where
    go :
        (r : Result (Unit {0})) (d' : Dev)
        → OrStop (λ _ d''. IsHolding (received d''.trace) ring) Nowhere r d'
        → let (r', d'') = continue r (λ _. sync_rounds n cancels ring) host d' in Follows r' d''
    go (ok _) d' h = sync_rounds-Follows host honest n cancels ring d' h
    go (err e) d' h = absurd h
    go trap d' h = absurd h
