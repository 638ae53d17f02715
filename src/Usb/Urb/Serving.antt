-- ===== src/Usb/Urb/Serving.antt =====
-- `process_device_urbs`: a stream that stalls is cancelled.
use libsdrgg.Prelude.{
  ℕ, zero, suc, ◌<◌, ◌≡◌, ◌⊎◌, refl, arith, true, Option, none, some, inl, inr, ◌==◌, if◌then◌else◌,
  by_branch, le_or_lt, Bool-cases,
}
use libsdrgg.Types.{Result}
use libsdrgg.Usb.Urb.{
  Completion, Kernel, Stream, urb_at, refused, urb_submit, settle, urb_reap, load_cancel,
  after_resubmit, resubmit, process_urb, took, next_round, process_device_urbs,
}
use libsdrgg.Usb.Urb.Balance.{IsHonest, IsBalanced, accepted-count}
use libsdrgg.Usb.Urb.Drain.{
  process-IsBalanced, Holding, cancel-Holding, use_urb-Holding, took-Holding, round-Holding,
}

-- The stream has URBs with the kernel, or it is cancelled.
abbrev pub IsServed : Stream → Type 0
IsServed s = (0 < s.submitted) ⊎ (s.cancel_requested ≡ true)

IsServed-cases : (s : Stream) → IsServed s ⊎ ¬ IsServed s
IsServed-cases s = elim (Bool-cases s.cancel_requested) [
  | inl cancelled ↦ inl (inr cancelled)
  | inr goes_on ↦ elim (le_or_lt s.submitted 0) [
    | inl empty ↦ inr λ served. elim served [
      | inl some_left ↦ omega (arith, empty, some_left)
      | inr cancelled ↦ cc
    ]
    | inr some_left ↦ inl (inl some_left)
  ]
]

module _ (kernel : Kernel) where
  stalled-IsServed :
      (s : Stream) → IsServed (if s.submitted == 0 then record s { cancel_requested = true } else s)
  stalled-IsServed s =
      by_branch IsServed (s.submitted == 0) _ _ (λ e. inr refl) (λ e. inl (ground arith))

  submit-IsServed :
      (i : ℕ) (s : Stream) → Holding i s → IsServed (after_resubmit (urb_submit kernel i s))
  unfolding urb_submit
  submit-IsServed i s (h, below) =
      let P : Result (Unit {0}) × Stream → Type 0 = λ rs. IsServed (after_resubmit rs) in
      by_branch P (urb_at s i).submitted _ _ (λ e. stalled-IsServed s)
        λ idle.
          by_branch P (kernel.accepts s.urb_trace i) _ _
            (λ e. inl (omega (arith, accepted-count s h i below idle)))
            (λ e. stalled-IsServed (refused i s))

  resubmit-IsServed : (i : ℕ) (s : Stream) → Holding i s → IsServed (resubmit kernel i s)
  unfolding resubmit
  resubmit-IsServed i s h =
      by_branch IsServed s.cancel_requested _ _ (λ e. inr e) (λ e. submit-IsServed i s h)

  load-Holding : (i : ℕ) (s : Stream) → Holding i s → Holding i (load_cancel kernel s)
  load-Holding i s h = cancel-Holding i s _ h

  round-IsServed : (i : ℕ) (s : Stream) → Holding i s → IsServed (process_urb kernel i s)
  unfolding process_urb
  round-IsServed i s h =
      let t = load_cancel kernel s in
      by_branch IsServed t.cancel_requested _ _ (λ e. inr e)
        λ e.
          resubmit-IsServed i _
            (load-Holding i _ (use_urb-Holding i (urb_at t i) t (load-Holding i s h)))

module _ (kernel : Kernel) (honest : IsHonest kernel) where
  next-IsServed :
      (again : Stream → Result (Unit {0}) × Stream)
      → ((s : Stream) → IsBalanced s → IsServed s → IsServed (again s).1)
      → (s : Stream) (o : Option Completion) → kernel.polls s.urb_trace ≡ o
      → IsBalanced s
      → IsServed s
      → IsServed (next_round kernel again (took o s)).1
  next-IsServed again rest s none e h served = served
  next-IsServed again rest s (some c) e h served =
      let held = took-Holding s c h (honest s.urb_trace c e) in
      let after = round-Holding kernel c.slot (settle c s) held in
      rest _ after.0 (round-IsServed kernel c.slot (settle c s) held)

  -- With a kernel that reaps only URBs that it holds and balanced books, a stream that has URBs
  -- with the kernel or is cancelled has them or is cancelled after process_device_urbs too: a
  -- stream that lost its last URB is always cancelled.
  pub process-IsServed :
      (fuel : ℕ) (s : Stream)
      → IsBalanced s
      → IsServed s
      → IsServed (process_device_urbs fuel kernel s).1
  unfolding process_device_urbs urb_reap
  process-IsServed zero s h served = served
  process-IsServed (suc fuel) s h served =
      next-IsServed (process_device_urbs fuel kernel) (process-IsServed fuel) s
        (kernel.polls s.urb_trace) refl h served

  -- With a kernel that reaps only URBs that it holds, process_device_urbs keeps the pipeline's
  -- books balanced, whatever it ends with: the arena has arena_depth URBs, fewer than 2^32, the
  -- URBs marked as submitted are those that the kernel holds, the count of submitted URBs is their
  -- number, and backpressure is set if and only if it has reached the depth. And a stream that had
  -- URBs with the kernel or was cancelled has them or is cancelled after it too: a stream that
  -- lost its last URB is always cancelled.
  pub process-AreKept :
      (fuel : ℕ) (s : Stream)
      → IsBalanced s
      → let t = (process_device_urbs fuel kernel s).1 in IsBalanced t × (IsServed t ⊎ ¬ IsServed s)
  process-AreKept fuel s h = elim (IsServed-cases s) [
    | inl served ↦
        (process-IsBalanced kernel honest fuel s h, inl (process-IsServed fuel s h served))
    | inr lost ↦ (process-IsBalanced kernel honest fuel s h, inr lost)
  ]
