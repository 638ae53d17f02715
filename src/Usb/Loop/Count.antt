-- ===== src/Usb/Loop/Count.antt =====
-- The event loop and the devices that it serves, under any order of the readers' steps.
use libsdrgg.Prelude.{ℕ, ◌+◌, ◌-◌, ◌<◌, ◌≡◌, refl, arith, Bool, true, false}
use libsdrgg.Usb.Loop.{
  EventLoop, idle_loop, event_loop_start, event_loop_stop, event_loop_add_dev,
  event_loop_remove_dev,
}

-- The loop, and the number of devices that were added and not removed yet.
pub record Served : Type 0 where
  pub event_loop : EventLoop
  pub added : ℕ

-- What the readers' threads do to the loop: a start; an addition, which can succeed only with an epoll
-- instance; an addition that fails; the removal of a device that was added; and the stop by a reader
-- that finds a count of 0. Its check of the count and the stop are taken as one step.
pub data Step (s : Served) : Served → Type 0 where
  starts :
      (epoll_ok pipe_ok thread_ok : Bool)
      → Step s
          (record s { event_loop = (event_loop_start epoll_ok pipe_ok thread_ok s.event_loop).1 })
  adds :
      s.event_loop.epoll_open ≡ true
      → Step s
          (record { event_loop = (event_loop_add_dev true s.event_loop).1; added = s.added + 1 })
  adds_not : Step s (record s { event_loop = (event_loop_add_dev false s.event_loop).1 })
  removes :
      0 < s.added
      → Step s (record { event_loop = event_loop_remove_dev s.event_loop; added = s.added - 1 })
  stops :
      s.event_loop.streaming_count ≡ 0
      → Step s (record s { event_loop = event_loop_stop s.event_loop })

pub data Reach (s : Served) : Served → Type 0 where
  here : Reach s s
  next : {t u : Served} → Reach s t → Step t u → Reach s u

-- The count is that of the devices; the loop runs exactly while it has its thread, its epoll
-- instance and its pipe, and it runs while there are devices.
pub record IsTracked (s : Served) : Type 0 where
  pub counted : s.event_loop.streaming_count ≡ s.added
  pub threaded : s.event_loop.thread_runs ≡ s.event_loop.running
  pub polled : s.event_loop.epoll_open ≡ s.event_loop.running
  pub piped : s.event_loop.pipe_open ≡ s.event_loop.running
  pub serves : 0 < s.added → s.event_loop.running ≡ true

Step-IsTracked : {s t : Served} → Step s t → IsTracked s → IsTracked t
unfolding event_loop_start event_loop_stop event_loop_add_dev event_loop_remove_dev
Step-IsTracked (starts a b c) h = ground (arith, h)
Step-IsTracked (adds open') h = ground (arith, h)
Step-IsTracked adds_not h = ground (arith, h)
Step-IsTracked (removes some') h = ground (arith, h)
Step-IsTracked (stops none') h = ground (arith, h)

Reach-keeps : {s t : Served} → Reach s t → IsTracked s → IsTracked t
Reach-keeps here h = h
Reach-keeps (next r step) h = Step-IsTracked step (Reach-keeps r h)

-- In every state that the readers' steps reach from a new context, where a removal is of a device
-- that was added and not removed yet, whatever the system calls gave: streaming_count is the
-- number of devices that were added and not removed; the loop runs exactly while it has a thread,
-- an epoll instance and a pipe; and it runs while a device is added.
pub Reach-IsTracked :
    (s : Served) → Reach (record { event_loop = idle_loop; added = 0 }) s → IsTracked s
Reach-IsTracked s r = Reach-keeps r record {
  counted = refl;
  threaded = refl;
  polled = refl;
  piped = refl;
  serves = λ some'. absurd (omega arith);
}
