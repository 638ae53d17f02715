-- ===== src/Usb/Urb/Drain.antt =====
-- `process_device_urbs`: what its rounds keep, its end, and the stream that goes on.
use libsdrgg.Prelude.{
  ℕ, zero, suc, ◌<◌, ◌≡◌, refl, ◌∙◌, arith, Bool, true, ◌||◌, Option, none, some, ◌==◌,
  if◌then◌else◌, by_branch,
}
use libsdrgg.Types.{Result, ok, err, trap}
use libsdrgg.Usb.Urb.{
  Urb, Completion, Kernel, Stream, urb_at, accepted, refused, urb_submit, settle, urb_reap,
  load_cancel, use_urb, after_resubmit, resubmit, process_urb, took, next_round,
  process_device_urbs,
}
use libsdrgg.Usb.Urb.Balance.{
  pending, IsHonest, IsBalanced, Same-IsBalanced, submit-IsBalanced, settle-IsBalanced,
  use_urb-same, flag-below,
}

-- What the steps of a round keep, the round keeps.
module _ (kernel : Kernel) (i : ℕ) (P : Stream → Type 0)
    (cancel : (s : Stream) (b : Bool) → P s → P (record s { cancel_requested = b }))
    (used : (u : Urb) (s : Stream) → P s → P (use_urb u s))
    (submit : (s : Stream) → P s → P (urb_submit kernel i s).1) where
  stalled-keeps :
      (s : Stream) → P s → P (if s.submitted == 0 then record s { cancel_requested = true } else s)
  stalled-keeps s h = by_branch P (s.submitted == 0) _ _ (λ e. cancel s true h) (λ e. h)

  after_resubmit-keeps : (r : Result (Unit {0})) (s : Stream) → P s → P (after_resubmit (r, s))
  after_resubmit-keeps (ok _) s h = h
  after_resubmit-keeps (err e) s h = stalled-keeps s h
  after_resubmit-keeps trap s h = stalled-keeps s h

  resubmit-keeps : (s : Stream) → P s → P (resubmit kernel i s)
  unfolding resubmit
  resubmit-keeps s h =
      by_branch P s.cancel_requested _ _ (λ e. h)
        λ e. let (r, t) = urb_submit kernel i s in after_resubmit-keeps r t (submit s h)

  load-keeps : (s : Stream) → P s → P (load_cancel kernel s)
  load-keeps s h = cancel s (s.cancel_requested || kernel.cancels s.urb_trace) h

  pub process_urb-keeps : (s : Stream) → P s → P (process_urb kernel i s)
  unfolding process_urb
  process_urb-keeps s h =
      let t = load_cancel kernel s in
      by_branch P t.cancel_requested _ _ (λ e. load-keeps s h)
        λ e. resubmit-keeps _ (load-keeps _ (used (urb_at t i) t (load-keeps s h)))

submit-depth :
    (kernel : Kernel) (i : ℕ) (s : Stream) → (urb_submit kernel i s).1.arena_depth ≡ s.arena_depth
unfolding urb_submit accepted refused
submit-depth kernel i s =
    let P : Result (Unit {0}) × Stream → Type 0 = λ rs. rs.1.arena_depth ≡ s.arena_depth in
    by_branch P (urb_at s i).submitted _ _ (λ e. refl)
      λ e. by_branch P (kernel.accepts s.urb_trace i) _ _ (λ e. refl) (λ e. refl)

abbrev pub Holding : ℕ → Stream → Type 0
Holding i s = IsBalanced s × (i < s.arena_depth)

-- The books, while URB `i` of the arena is in hand.
pub cancel-Holding :
    (i : ℕ) (s : Stream) (b : Bool) → Holding i s → Holding i (record s { cancel_requested = b })
cancel-Holding i s b (h, below) = (Same-IsBalanced s _ (refl, refl, refl, refl, λ j. refl) h, below)

pub use_urb-Holding : (i : ℕ) (u : Urb) (s : Stream) → Holding i s → Holding i (use_urb u s)
use_urb-Holding i u s (h, below) =
    let same = use_urb-same u s in (Same-IsBalanced s _ same h, rw (same.1) below)

pub round-Holding :
    (kernel : Kernel) (i : ℕ) (s : Stream) → Holding i s → Holding i (process_urb kernel i s)
round-Holding kernel i =
    process_urb-keeps kernel i (Holding i) (cancel-Holding i) (use_urb-Holding i)
      (λ s (h, below). (submit-IsBalanced s h kernel i below, rw (submit-depth kernel i s) below))

-- The URB that a reap gives is the arena's.
pub took-Holding :
    (s : Stream) (c : Completion)
    → IsBalanced s
    → pending s.urb_trace c.slot ≡ true
    → Holding c.slot (settle c s)
unfolding settle
took-Holding s c h held = (
  settle-IsBalanced s h c held,
  let below = flag-below s.arena c.slot (h.agrees c.slot ∙ held) in omega (arith, below, h.sized),
)

module _ (kernel : Kernel) (honest : IsHonest kernel) where
  round-IsBalanced :
      (again : Stream → Result (Unit {0}) × Stream)
      → ((s : Stream) → IsBalanced s → IsBalanced (again s).1)
      → (s : Stream) (o : Option Completion) → kernel.polls s.urb_trace ≡ o
      → IsBalanced s
      → IsBalanced (next_round kernel again (took o s)).1
  round-IsBalanced again rest s none e h = Same-IsBalanced s _ (refl, refl, refl, refl, λ i. refl) h
  round-IsBalanced again rest s (some c) e h =
      rest _
        (round-Holding kernel c.slot (settle c s) (took-Holding s c h (honest s.urb_trace c e))).0

  -- With a kernel that reaps only URBs that it holds, process_device_urbs keeps the pipeline's
  -- books balanced, whatever it ends with: the arena has arena_depth URBs, fewer than 2^32, the
  -- URBs marked as submitted are those that the kernel holds, the count of submitted URBs is their
  -- number, and backpressure is set if and only if it has reached the depth.
  pub process-IsBalanced :
      (fuel : ℕ) (s : Stream) → IsBalanced s → IsBalanced (process_device_urbs fuel kernel s).1
  unfolding process_device_urbs urb_reap
  process-IsBalanced zero s h = h
  process-IsBalanced (suc fuel) s h =
      round-IsBalanced (process_device_urbs fuel kernel) (process-IsBalanced fuel) s
        (kernel.polls s.urb_trace) refl h
