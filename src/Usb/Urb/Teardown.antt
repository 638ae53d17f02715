-- ===== src/Usb/Urb/Teardown.antt =====
-- sdrgg_usb.cpp: the end of a pipeline, `urb_cancel_all` and `urb_free`.
use libsdrgg.Prelude.{
  ℕ, zero, suc, ◌+◌, ◌-◌, List, [], ◌∷◌, false, Option, none, some, ltb, if◌then◌else◌, set, map,
}
use libsdrgg.Usb.Urb.{
  Urb, Completion, Kernel, Stream, urb_at, note, urb_reaped, urb_discarded, nothing_reaped,
}

-- `urb_cancel_all`: the three loops, from URB `i` on. The first changes nothing but the trace.
unfoldable pub discard_from : ℕ → ℕ → Stream → Stream
discard_from zero i s = s
discard_from (suc n) i s =
    let t = if (urb_at s i).submitted then note (urb_discarded i) s else s in
    discard_from n (i + 1) t

-- A blocking reap; it classifies nothing.
abbrev pub taken_back : Option Completion → Stream → Stream
taken_back none s = note nothing_reaped s
taken_back (some c) s = record s {
  arena =
      set s.arena c.slot (record { submitted = false; status = c.outcome; received = c.stored });
  submitted = if ltb 0 s.submitted then s.submitted - 1 else s.submitted;
  urb_trace = urb_reaped c.slot ∷ s.urb_trace;
}

unfoldable pub reap_one : Kernel → Stream → Stream
reap_one kernel s = taken_back (kernel.waits s.urb_trace) s

unfoldable pub reap_from : Kernel → ℕ → ℕ → Stream → Stream
reap_from kernel zero i s = s
reap_from kernel (suc n) i s =
    let t = if (urb_at s i).submitted then reap_one kernel s else s in reap_from kernel n (i + 1) t

abbrev pub force_clear : Urb → Urb
force_clear u = record u { submitted = false }

-- The arena is the first argument: without one there is nothing to do.
unfoldable pub cancel_arena : List Urb → Kernel → Stream → Stream
cancel_arena [] kernel s = s
cancel_arena (_ ∷ _) kernel s =
    let t = reap_from kernel s.arena_depth 0 (discard_from s.arena_depth 0 s) in
    record t { arena = map force_clear t.arena; submitted = 0 }

unfoldable pub urb_cancel_all : Kernel → Stream → Stream
urb_cancel_all kernel s = cancel_arena s.arena kernel s

unfoldable pub free_arena : List Urb → Kernel → Stream → Stream
free_arena [] kernel s = s
free_arena (_ ∷ _) kernel s = record (urb_cancel_all kernel s) {
  arena = [];
  arena_depth = 0;
  submitted = 0;
}

unfoldable pub urb_free : Kernel → Stream → Stream
urb_free kernel s = free_arena s.arena kernel s
