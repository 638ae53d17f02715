-- ===== src/Ring/Async.antt =====
-- The reader's thread of the other tuners: `reader_thread_fn` of sdrgg_ring.cpp with its URBs, before
-- and after its wait, and what it asks of the context's event loop.
pub mod Start
use libsdrgg.Prelude.{ℕ, Bool, true, false, ◌==◌, if◌then◌else◌}
use libsdrgg.Types.{Result, ok, err, trap, is_fc001x_family}
use libsdrgg.Exec.{M, pure, stuck, gets, ◌>>=◌, ◌>>◌, attempt, ignore}
use libsdrgg.Rtl.Tuner.{succeeded}
use libsdrgg.Rtl.Nco.{start_bulk, stop_bulk}
use libsdrgg.Usb.Urb.{Kernel, Stream, urb_alloc, urb_submit_all}
use libsdrgg.Usb.Urb.Teardown.{urb_cancel_all, urb_free}
use libsdrgg.Usb.Loop.{
  EventLoop, event_loop_start, event_loop_stop, event_loop_add_dev, event_loop_remove_dev,
}

abbrev pub stream_buf_count : ℕ
stream_buf_count = 32

abbrev pub stream_buf_size : ℕ
stream_buf_size = 16384

-- From the submission's result on: whether the stream goes on, and the pipeline.
unfoldable pub after_submit : Kernel → Result (Unit {0}) × Stream → M (Bool × Stream)
after_submit kernel (ok _, s) = pure (true, s)
after_submit kernel (err e, s) = do ignore stop_bulk; pure (false, urb_free kernel s)
after_submit kernel (trap, s) = stuck

unfoldable pub after_alloc : Kernel → Result (Unit {0}) × Stream → M (Bool × Stream)
after_alloc kernel (ok _, s) = do
  rc ← attempt start_bulk
  let t : Stream = record s { has_callback = true }
  if succeeded rc
      then after_submit kernel (urb_submit_all kernel t)
      else pure (false, urb_free kernel t)
after_alloc kernel (err e, s) = pure (false, s)
after_alloc kernel (trap, s) = stuck

-- `memory` says which allocations succeed.
unfoldable pub begin_async : (ℕ → Bool) → Kernel → Stream → M (Bool × Stream)
begin_async memory kernel s =
    after_alloc kernel (urb_alloc memory stream_buf_count stream_buf_size s)

-- The result of `event_loop_start` is not looked at, nor that of `event_loop_add_dev`.
unfoldable pub join_loop : Bool → Bool → Bool → Bool → EventLoop → EventLoop
join_loop epoll_ok pipe_ok thread_ok ctl_ok l =
    (event_loop_add_dev ctl_ok (event_loop_start epoll_ok pipe_ok thread_ok l).1).1

unfoldable pub leave_loop : EventLoop → EventLoop
leave_loop l = event_loop_remove_dev l

unfoldable pub stop_if_last : EventLoop → EventLoop
stop_if_last l = if l.streaming_count == 0 then event_loop_stop l else l

-- After the wait, between `leave_loop` and `stop_if_last`.
unfoldable pub end_async : Kernel → Stream → M Stream
end_async kernel s = do
  slow ← gets (λ d. is_fc001x_family d.tuner_class)
  let t = urb_cancel_all kernel s
  if slow then pure tt else ignore stop_bulk
  pure (urb_free kernel t)
