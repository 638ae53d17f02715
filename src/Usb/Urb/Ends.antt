-- ===== src/Usb/Urb/Ends.antt =====
-- The pipeline's start: `urb_alloc` and `urb_submit_all`.
use libsdrgg.Prelude.{
  ℕ, zero, suc, ◌+◌, ◌^◌, ◌*◌, ◌≤◌, ◌<◌, ◌≡◌, ◌⊎◌, refl, sym, ◌∙◌, arith, List, [], Bool, false,
  ◌&&◌, Option, none, some, inl, inr, by_branch, get_or, replicate, length-replicate, ap,
}
use libsdrgg.Types.{Result, ok, err, trap, err_nomem}
use libsdrgg.Usb.Urb.{
  Urb, Kernel, Stream, idle_urb, urb_at, accepted, urb_submit, fill_arena, urb_alloc, go_on,
  submit_from, urb_submit_all,
}
use libsdrgg.Usb.Urb.Balance.{
  pending, in_flight, IsBalanced, accepted-count, accepted-IsBalanced, refused-IsBalanced,
}

-- Either every allocation succeeded, or there is no arena.
fill_arena-cases :
    (memory : ℕ → Bool) (i n : ℕ)
    → (fill_arena memory i n ≡ none) ⊎ (fill_arena memory i n ≡ some (replicate n idle_urb))
unfolding fill_arena
fill_arena-cases memory i zero = inr refl
fill_arena-cases memory i (suc n) =
    let P : Option (List Urb) → Type 0 =
      λ o. (o ≡ none) ⊎ (o ≡ some (replicate (suc n) idle_urb)) in
    by_branch P (memory (2 * i + 1) && memory (2 * i + 2)) _ _
      (λ e. elim (fill_arena-cases memory (i + 1) n) [
        | inl lost ↦ rw lost (inl refl)
        | inr all ↦ rw all (inr refl)
      ])
      (λ e. inl refl)

in_flight-replicate : (n : ℕ) → in_flight (replicate n idle_urb) ≡ 0
in_flight-replicate zero = refl
in_flight-replicate (suc n) = omega (arith, in_flight-replicate n)

get_or-replicate : (n i : ℕ) → get_or (replicate n idle_urb) i idle_urb ≡ idle_urb
get_or-replicate zero i = refl
get_or-replicate (suc n) zero = refl
get_or-replicate (suc n) (suc i) = get_or-replicate n i

-- What allocation ends with: a balanced pipeline with every URB idle, or no arena.
abbrev pub IsAllocated : ℕ → Result (Unit {0}) × Stream → Type 0
IsAllocated count (ok _, s) =
    IsBalanced s × (s.arena ≡ replicate count idle_urb) × (s.submitted ≡ 0)
IsAllocated count (err e, s) = (e ≡ err_nomem) × (s.arena ≡ [])
IsAllocated count (trap, s) = ⊥

-- With a count from 1 to below 2^32 and no URB of an earlier arena with the kernel, allocation
-- returns: with balanced books and that many idle URBs, or with SDRGG_ERR_NOMEM and no arena,
-- whichever of its allocations fail.
pub urb_alloc-IsAllocated :
    (memory : ℕ → Bool) (count buf_size : ℕ) (s : Stream)
    → 0 < count
    → count < 2 ^ 32
    → ((i : ℕ) → pending s.urb_trace i ≡ false)
    → IsAllocated count (urb_alloc memory count buf_size s)
unfolding urb_alloc
urb_alloc-IsAllocated memory count buf_size s some' small clean =
    by_branch (IsAllocated count) (memory 0) _ _
      (λ e. elim (fill_arena-cases memory 0 count) [
        | inl lost ↦ rw lost (refl, refl)
        | inr all ↦ rw all (
          record {
            sized = length-replicate count idle_urb;
            small = small;
            counted = sym (in_flight-replicate count);
            agrees = λ i. ap (λ (u : Urb). u.submitted) (get_or-replicate count i) ∙ sym (clean i);
            pressed = ground arith;
          },
          refl,
          refl,
        )
      ])
      (λ e. (refl, refl))

-- After a submission: the books balance, and a success counts one more.
abbrev IsSubmitted : Stream → Result (Unit {0}) × Stream → Type 0
IsSubmitted s (ok _, t) =
    IsBalanced t × (t.arena_depth ≡ s.arena_depth) × (t.submitted ≡ s.submitted + 1)
IsSubmitted s (err e, t) = IsBalanced t
IsSubmitted s (trap, t) = ⊥

accepted-depth : (i : ℕ) (s : Stream) → (accepted i s).arena_depth ≡ s.arena_depth
unfolding accepted
accepted-depth i s = refl

urb_submit-IsSubmitted :
    (kernel : Kernel) (i : ℕ) (s : Stream)
    → IsBalanced s
    → i < s.arena_depth
    → IsSubmitted s (urb_submit kernel i s)
unfolding urb_submit
urb_submit-IsSubmitted kernel i s h below =
    by_branch (IsSubmitted s) (urb_at s i).submitted _ _ (λ e. h)
      λ idle.
        by_branch (IsSubmitted s) (kernel.accepts s.urb_trace i) _ _
          (λ e. (
            accepted-IsBalanced s h i below idle,
            accepted-depth i s,
            accepted-count s h i below idle,
          ))
          (λ e. refused-IsBalanced s h i below idle)

-- The same of `n` submissions.
abbrev pub IsStarted : ℕ → Stream → Result (Unit {0}) × Stream → Type 0
IsStarted n s (ok _, t) =
    IsBalanced t × (t.arena_depth ≡ s.arena_depth) × (t.submitted ≡ s.submitted + n)
IsStarted n s (err e, t) = IsBalanced t
IsStarted n s (trap, t) = ⊥

step-IsStarted :
    (n : ℕ) (s : Stream) (rs : Result (Unit {0}) × Stream)
    (rest : Stream → Result (Unit {0}) × Stream)
    → ((t : Stream) → IsBalanced t → t.arena_depth ≡ s.arena_depth → IsStarted n t (rest t))
    → IsSubmitted s rs
    → IsStarted (suc n) s (go_on rs rest)
step-IsStarted n s (ok _, t) rest go (h, depth, more) = moved (rest t) (go t h depth)
  where
    moved : (rt : Result (Unit {0}) × Stream) → IsStarted n t rt → IsStarted (suc n) s rt
    moved (ok _, u) (h', depth', more') = (h', depth' ∙ depth, omega (arith, more, more'))
    moved (err e, u) h' = h'
    moved (trap, u) h' = absurd h'
step-IsStarted n s (err e, t) rest go h = h
step-IsStarted n s (trap, t) rest go h = absurd h

submit_from-IsStarted :
    (kernel : Kernel) (n i : ℕ) (s : Stream)
    → IsBalanced s
    → i + n ≤ s.arena_depth
    → IsStarted n s (submit_from kernel n i s)
unfolding submit_from
submit_from-IsStarted kernel zero i s h fits = (h, refl, omega arith)
submit_from-IsStarted kernel (suc n) i s h fits =
    step-IsStarted n s (urb_submit kernel i s) (submit_from kernel n (i + 1))
      (λ t ht depth. submit_from-IsStarted kernel n (i + 1) t ht (omega arith))
      (urb_submit-IsSubmitted kernel i s h (omega arith))

-- Submitting the whole arena keeps balanced books balanced, and SDRGG_OK means that the count of
-- URBs in flight has grown by the size of the arena.
pub urb_submit_all-IsStarted :
    (kernel : Kernel) (s : Stream)
    → IsBalanced s
    → IsStarted s.arena_depth s (urb_submit_all kernel s)
unfolding urb_submit_all
urb_submit_all-IsStarted kernel s h = submit_from-IsStarted kernel s.arena_depth 0 s h (omega arith)
