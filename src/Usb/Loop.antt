-- ===== src/Usb/Loop.antt =====
-- sdrgg_usb.cpp, the event loop of a context: its epoll instance, its pipe, its thread, and the count of
-- the devices that stream. What the system calls give is an argument; the bytes written to the pipe
-- only wake the thread.
pub mod Count
use libsdrgg.Prelude.{ℕ, ◌+◌, ◌-◌, Bool, true, false, if◌then◌else◌, ltb}
use libsdrgg.Types.{Result, ok, err, trap, err_io}

-- Of `sdrgg_ctx`: `event_running`, whether `epoll_fd` and `event_pipe` are open, whether the thread
-- was created and not joined yet, and `streaming_count`.
pub record EventLoop : Type 0 where
  pub running : Bool
  pub epoll_open : Bool
  pub pipe_open : Bool
  pub thread_runs : Bool
  pub streaming_count : ℕ

abbrev pub idle_loop : EventLoop
idle_loop = record {
  running = false;
  epoll_open = false;
  pipe_open = false;
  thread_runs = false;
  streaming_count = 0;
}

unfoldable pub event_loop_start : Bool → Bool → Bool → EventLoop → Result (Unit {0}) × EventLoop
event_loop_start epoll_ok pipe_ok thread_ok l =
    if l.running
    then (ok tt, l)
    else (if epoll_ok
        then (if pipe_ok
            then (if thread_ok
                then (
                  ok tt,
                  record l {
                    epoll_open = true;
                    pipe_open = true;
                    running = true;
                    thread_runs = true;
                  },
                )
                else (
                  err err_io,
                  record l { epoll_open = false; pipe_open = false; running = false },
                ))
            else (err err_io, record l { epoll_open = false }))
        else (err err_io, record l { epoll_open = false }))

unfoldable pub event_loop_stop : EventLoop → EventLoop
event_loop_stop l =
    if l.running
    then record l { running = false; thread_runs = false; epoll_open = false; pipe_open = false }
    else l

unfoldable pub event_loop_add_dev : Bool → EventLoop → Result (Unit {0}) × EventLoop
event_loop_add_dev ctl_ok l =
    if ctl_ok
    then (ok tt, record l { streaming_count = l.streaming_count + 1 })
    else (err err_io, l)

unfoldable pub event_loop_remove_dev : EventLoop → EventLoop
event_loop_remove_dev l =
    if ltb 0 l.streaming_count then record l { streaming_count = l.streaming_count - 1 } else l
