-- ===== src/Ring/Async/Start.antt =====
-- What the asynchronous reader begins with: a full pipeline, or none.
use libsdrgg.Prelude.{ℕ, ◌≡◌, ◌∙◌, refl, sym, ap, arith, List, [], ◌∷◌, Bool, true, false, length}
use libsdrgg.Types.{Result, ok, err, trap, Host, Dev}
use libsdrgg.Exec.{pure}
use libsdrgg.Exec.Yields.{OrStop, Nowhere, Anywhere}
use libsdrgg.Exec.Always.{
  Always, always-pure, always-attempt, always-ignore, always-if, always-bind,
}
use libsdrgg.Rtl.Tuner.{succeeded}
use libsdrgg.Rtl.Tuner.Total.{start_bulk-Returns, stop_bulk-Returns}
use libsdrgg.Rtl.Nco.{start_bulk, stop_bulk}
use libsdrgg.Usb.Urb.{Urb, Kernel, Stream}
use libsdrgg.Usb.Urb.Teardown.{free_arena, urb_free}
use libsdrgg.Usb.Urb.Balance.{pending, IsBalanced, Same-IsBalanced}
use libsdrgg.Usb.Urb.Ends.{IsAllocated, urb_alloc-IsAllocated, IsStarted, urb_submit_all-IsStarted}
use libsdrgg.Ring.Async.{stream_buf_count, stream_buf_size, after_submit, after_alloc, begin_async}

-- The reader goes on with every URB in flight, or it ends without an arena.
abbrev pub IsBegun : Bool × Stream → Dev → Type 0
IsBegun (true, s) d =
    IsBalanced s × (s.arena_depth ≡ stream_buf_count) × (s.submitted ≡ stream_buf_count)
IsBegun (false, s) d = s.arena ≡ []

free_arena-empty :
    (kernel : Kernel) (us : List Urb) (s : Stream)
    → s.arena ≡ us
    → (free_arena us kernel s).arena ≡ []
unfolding free_arena
free_arena-empty kernel [] s e = e
free_arena-empty kernel (u ∷ us) s e = refl

pub urb_free-empty : (kernel : Kernel) (s : Stream) → (urb_free kernel s).arena ≡ []
unfolding urb_free
urb_free-empty kernel s = free_arena-empty kernel s.arena s refl

-- An end of the reader, whatever the device is like.
ended :
    (b : Bool) (s : Stream) → ((d : Dev) → IsBegun (b, s) d) → Always Anywhere (pure (b, s)) IsBegun
ended b s h = always-pure IsBegun (b, s) (λ d _. h d)

module _ (kernel : Kernel) where
  after_submit-IsBegun :
      (s : Stream) (rs : Result (Unit {0}) × Stream)
      → s.arena_depth ≡ stream_buf_count
      → s.submitted ≡ 0
      → IsStarted s.arena_depth s rs
      → Always Anywhere (after_submit kernel rs) IsBegun
  unfolding after_submit
  after_submit-IsBegun s (ok _, t) depth none' (books, same, more) =
      ended true t (λ d. (books, same ∙ depth, omega (arith, more, none', depth)))
  after_submit-IsBegun s (err e, t) depth none' h =
      always-bind (λ _. Anywhere) IsBegun _ _
        (always-ignore stop_bulk stop_bulk-Returns (record { at = λ host d h. tt }))
        (λ _. ended false _ (λ d. urb_free-empty kernel t))
  after_submit-IsBegun s (trap, t) depth none' h = absurd h

  after_alloc-IsBegun :
      (rs : Result (Unit {0}) × Stream)
      → IsAllocated stream_buf_count rs
      → Always Anywhere (after_alloc kernel rs) IsBegun
  unfolding after_alloc
  after_alloc-IsBegun (ok _, s) (books, same, none') =
      let t : Stream = record s { has_callback = true } in
      let books' = Same-IsBalanced s t (refl, refl, refl, refl, λ i. refl) books in
      always-bind (λ _. Anywhere) IsBegun _ _
        (always-attempt start_bulk start_bulk-Returns (record { at = λ host d h. tt }))
        (λ rc.
          always-if IsBegun (succeeded rc) _ _
            (after_submit-IsBegun t _ (sym books.sized ∙ ap length same) none'
              (urb_submit_all-IsStarted kernel t books'))
            (ended false _ (λ d. urb_free-empty kernel t)))
  after_alloc-IsBegun (err e, s) (e', empty) = ended false s (λ d. empty)
  after_alloc-IsBegun (trap, s) h = absurd h

-- With no URB of an earlier arena with the kernel, the asynchronous reader's beginning returns,
-- whichever of its allocations fail, whatever the host answers and whichever URBs the kernel
-- accepts: it goes on with balanced books and all 32 URBs in flight, or it ends without an arena.
pub begin_async-IsBegun :
    (memory : ℕ → Bool) (kernel : Kernel) (s : Stream) (host : Host) (d : Dev)
    → ((i : ℕ) → pending s.urb_trace i ≡ false)
    → let (r, d') = begin_async memory kernel s host d in OrStop IsBegun Nowhere r d'
unfolding begin_async
begin_async-IsBegun memory kernel s host d clean =
    let allocated =
      urb_alloc-IsAllocated memory stream_buf_count stream_buf_size s (omega arith) (omega arith)
        clean in
    (after_alloc-IsBegun kernel _ allocated).yields.at host d tt
