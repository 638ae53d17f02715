-- ===== src/Usb/Urb/Progress.antt =====
-- `process_device_urbs`: it ends, the stream goes on or is cancelled, and what it counts.
use libsdrgg.Prelude.{
  ℕ, zero, suc, ◌+◌, ◌≡◌, refl, arith, List, [], ◌∷◌, Bool, true, false, Option, none, some, u32,
  if◌then◌else◌, by_branch,
}
use libsdrgg.Prelude.Int.{ℤ}
use libsdrgg.Types.{Result}
use libsdrgg.Usb.Urb.{
  UrbEvent, urb_accepted, urb_refused, urb_reaped, urb_discarded, nothing_reaped, halt_cleared,
  backed_off, delivered, Completion, Kernel, Stream, urb_at, accepted, refused, urb_submit, settle,
  urb_reap, deliver, recover, use_urb, process_urb, took, next_round, process_device_urbs,
  is_complete, is_stall, note,
}
use libsdrgg.Usb.Urb.Drain.{process_urb-keeps}

-- The number of reaps that gave a URB.
abbrev pub reaps : List UrbEvent → ℕ
reaps [] = 0
reaps (urb_reaped j ∷ t) = suc (reaps t)
reaps (urb_accepted j ∷ t) = reaps t
reaps (urb_refused j ∷ t) = reaps t
reaps (urb_discarded j ∷ t) = reaps t
reaps (nothing_reaped ∷ t) = reaps t
reaps (halt_cleared ∷ t) = reaps t
reaps (backed_off us ∷ t) = reaps t
reaps (delivered b ∷ t) = reaps t

-- The deliveries are numbered one after the other, in 32 bits, and `n` is the next number.
abbrev pub IsNumbered : ℕ → List UrbEvent → Type 0
IsNumbered n [] = Unit
IsNumbered n (delivered b ∷ t) = (n ≡ u32 (b.number + 1)) × IsNumbered b.number t
IsNumbered n (urb_reaped j ∷ t) = IsNumbered n t
IsNumbered n (urb_accepted j ∷ t) = IsNumbered n t
IsNumbered n (urb_refused j ∷ t) = IsNumbered n t
IsNumbered n (urb_discarded j ∷ t) = IsNumbered n t
IsNumbered n (nothing_reaped ∷ t) = IsNumbered n t
IsNumbered n (halt_cleared ∷ t) = IsNumbered n t
IsNumbered n (backed_off us ∷ t) = IsNumbered n t

-- Every reap is counted once, as complete or as dropped, in 32 bits.
abbrev pub IsCounted : ℕ → Stream → Type 0
IsCounted base s = u32 (s.completed + s.dropped) ≡ u32 (base + reaps s.urb_trace)

abbrev pub IsAccounted : ℕ → Stream → Type 0
IsAccounted base s = IsCounted base s × (s.has_callback ≡ true) × IsNumbered s.sequence s.urb_trace

deliver-IsAccounted :
    (base : ℕ) (bytes : List ℕ) (s : Stream)
    → IsAccounted base s
    → IsAccounted base (deliver bytes s)
unfolding deliver
deliver-IsAccounted base bytes s (counted, called, numbered) =
    by_branch (IsAccounted base) s.has_callback _ _ (λ e. (counted, called, (refl, numbered)))
      (λ e. absurd (cc))

recover-IsAccounted :
    (base : ℕ) (status : ℤ) (s : Stream) → IsAccounted base s → IsAccounted base (recover status s)
unfolding recover
recover-IsAccounted base status s h =
    by_branch (λ t. IsAccounted base (note (backed_off 1000) t)) (is_stall status) _ _ (λ e. h)
      (λ e. h)

submit-IsAccounted :
    (base : ℕ) (kernel : Kernel) (i : ℕ) (s : Stream)
    → IsAccounted base s
    → IsAccounted base (urb_submit kernel i s).1
unfolding urb_submit accepted refused
submit-IsAccounted base kernel i s h =
    let P : Result (Unit {0}) × Stream → Type 0 = λ rs. IsAccounted base rs.1 in
    by_branch P (urb_at s i).submitted _ _ (λ e. h)
      λ e. by_branch P (kernel.accepts s.urb_trace i) _ _ (λ e. h) (λ e. h)

one_more :
    (b : Bool) (done' lost base r : ℕ)
    → u32 (done' + lost) ≡ u32 (base + r)
    → u32 ((if b then u32 (done' + 1) else done') + (if b then lost else u32 (lost + 1)))
      ≡ u32 (base + suc r)
one_more true done' lost base r h = omega arith
one_more false done' lost base r h = omega arith

settle-IsAccounted :
    (base : ℕ) (c : Completion) (s : Stream) → IsAccounted base s → IsAccounted base (settle c s)
unfolding settle
settle-IsAccounted base c s (counted, called, numbered) = (
  one_more (is_complete (record { submitted = false; status = c.outcome; received = c.stored }))
      s.completed s.dropped base (reaps s.urb_trace) counted,
  called,
  numbered,
)

round-IsAccounted :
    (base : ℕ) (kernel : Kernel) (i : ℕ) (s : Stream)
    → IsAccounted base s
    → IsAccounted base (process_urb kernel i s)
unfolding use_urb
round-IsAccounted base kernel i s h =
    process_urb-keeps kernel i (IsAccounted base) (λ t b k. k)
      (λ u t k.
        by_branch (IsAccounted base) (is_complete u) _ _
          (λ e. deliver-IsAccounted base u.received t k)
          (λ e. recover-IsAccounted base u.status t k))
      (λ t k. submit-IsAccounted base kernel i t k) s h

module _ (base : ℕ) (kernel : Kernel) where
  next-IsAccounted :
      (again : Stream → Result (Unit {0}) × Stream)
      → ((s : Stream) → IsAccounted base s → IsAccounted base (again s).1)
      → (s : Stream) (o : Option Completion) → IsAccounted base s
      → IsAccounted base (next_round kernel again (took o s)).1
  next-IsAccounted again rest s none h = h
  next-IsAccounted again rest s (some c) h =
      rest _ (round-IsAccounted base kernel c.slot (settle c s) (settle-IsAccounted base c s h))

  -- On a stream with a callback, process_device_urbs keeps it that completed and dropped add up to
  -- the number of URBs reaped since a base, modulo 2^32, and that the buffers delivered are
  -- numbered one after the other, modulo 2^32, up to the stream's sequence.
  pub process-IsAccounted :
      (fuel : ℕ) (s : Stream)
      → IsAccounted base s
      → IsAccounted base (process_device_urbs fuel kernel s).1
  unfolding process_device_urbs urb_reap
  process-IsAccounted zero s h = h
  process-IsAccounted (suc fuel) s h =
      next-IsAccounted (process_device_urbs fuel kernel) (process-IsAccounted fuel) s
        (kernel.polls s.urb_trace) h
