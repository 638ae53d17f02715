-- ===== src/Usb/Urb/Balance.antt =====
-- The pipeline's books under submitting, reaping and the loop of `process_device_urbs`.
use libsdrgg.Prelude.{
  ℕ, zero, suc, ◌+◌, ◌^◌, ◌≤◌, ◌<◌, ◌≡◌, refl, sym, ◌∙◌, ap, subst, arith, List, [], ◌∷◌, Bool,
  true, false, some, inl, inr, Bool-cases, leb, ◌==◌, if◌then◌else◌, length, get_or, set,
  length-set, get_or-set_self, get_or-set_ne, by_branch,
}
use libsdrgg.Usb.Urb.{
  Urb, UrbEvent, urb_accepted, urb_refused, urb_reaped, urb_discarded, nothing_reaped, halt_cleared,
  backed_off, delivered, Completion, Kernel, Stream, idle_urb, urb_at, accepted, refused,
  urb_submit, settle, deliver, recover, use_urb, is_complete, is_stall, note,
}
use libsdrgg.Prelude.Int.{ℤ}

-- What the kernel holds after the events: the URBs it accepted and has not given back.
abbrev pub pending : List UrbEvent → ℕ → Bool
pending [] i = false
pending (urb_accepted j ∷ t) i = if j == i then true else pending t i
pending (urb_reaped j ∷ t) i = if j == i then false else pending t i
pending (urb_refused j ∷ t) i = pending t i
pending (urb_discarded j ∷ t) i = pending t i
pending (nothing_reaped ∷ t) i = pending t i
pending (halt_cleared ∷ t) i = pending t i
pending (backed_off us ∷ t) i = pending t i
pending (delivered b ∷ t) i = pending t i

abbrev pub tally : Bool → ℕ
tally true = 1
tally false = 0

-- The number of URBs that are marked as submitted.
abbrev pub in_flight : List Urb → ℕ
in_flight [] = 0
in_flight (u ∷ us) = tally u.submitted + in_flight us

-- A reap gives only a URB that the kernel holds.
abbrev pub IsHonest : Kernel → Type 0
IsHonest kernel =
    (t : List UrbEvent) (c : Completion) → kernel.polls t ≡ some c → pending t c.slot ≡ true

pub record IsBalanced (s : Stream) : Type 0 where
  pub sized : length s.arena ≡ s.arena_depth
  pub small : s.arena_depth < 2 ^ 32
  pub counted : s.submitted ≡ in_flight s.arena
  pub agrees : (i : ℕ) → (urb_at s i).submitted ≡ pending s.urb_trace i
  pub pressed : s.backpressure ≡ leb s.arena_depth s.submitted

pub in_flight-le : (us : List Urb) → in_flight us ≤ length us
in_flight-le [] = omega arith
in_flight-le (u ∷ us) = ground (arith, in_flight-le us)

pub in_flight-set :
    (us : List Urb) (i : ℕ) (v : Urb)
    → i < length us
    → in_flight (set us i v) + tally (get_or us i idle_urb).submitted
      ≡ in_flight us + tally v.submitted
in_flight-set [] i v h = absurd (omega arith)
in_flight-set (u ∷ us) zero v h = omega arith
in_flight-set (u ∷ us) (suc i) v h = omega (arith, in_flight-set us i v (omega arith))

-- A URB that is marked stands in the arena.
pub flag-below : (us : List Urb) (i : ℕ) → (get_or us i idle_urb).submitted ≡ true → i < length us
flag-below [] i h = absurd (cc)
flag-below (u ∷ us) zero h = omega arith
flag-below (u ∷ us) (suc i) h = omega (arith, flag-below us i h)

-- Setting one flag, and the same change of what the kernel holds.
pub flag-set :
    (us : List Urb) (i j : ℕ) (v : Urb) (held : ℕ → Bool)
    → i < length us
    → ((k : ℕ) → (get_or us k idle_urb).submitted ≡ held k)
    → (get_or (set us i v) j idle_urb).submitted ≡ (if i == j then v.submitted else held j)
flag-set us i j v held below same = elim (Bool-cases (i == j)) [
  | inl at ↦
      let here' : i ≡ j = ground arith in
      rw at (
        subst (λ k. (get_or (set us i v) k idle_urb).submitted ≡ v.submitted) here'
          (ap (λ u. u.submitted) (get_or-set_self us i v idle_urb below)))
  | inr ne ↦ rw ne (
      ap (λ (u : Urb). u.submitted) (get_or-set_ne us {i = i} {j = j} v idle_urb (ground arith))
      ∙ same j)
]

unset-idle :
    (held : ℕ → Bool) (i j : ℕ) → held i ≡ false → (if i == j then false else held j) ≡ held j
unset-idle held i j idle = elim (Bool-cases (i == j)) [
  | inl at ↦
      let here' : i ≡ j = ground arith in rw at (sym (subst (λ k. held k ≡ false) here' idle))
  | inr ne ↦ rw ne refl
]

module _ (us : List Urb) (i : ℕ) (v : Urb) (below : i < length us) where
  -- A URB that was idle and is marked now.
  in_flight-mark :
      (get_or us i idle_urb).submitted ≡ false
      → v.submitted ≡ true
      → in_flight (set us i v) ≡ in_flight us + 1
  in_flight-mark idle marked =
      omega (arith, in_flight-set us i v below, ap tally idle, ap tally marked)

  -- One that was marked and is idle now.
  in_flight-clear :
      (get_or us i idle_urb).submitted ≡ true
      → v.submitted ≡ false
      → in_flight us ≡ in_flight (set us i v) + 1
  in_flight-clear marked idle =
      omega (arith, in_flight-set us i v below, ap tally idle, ap tally marked)

  -- One that was idle and stays idle.
  in_flight-same :
      (get_or us i idle_urb).submitted ≡ false
      → v.submitted ≡ false
      → in_flight (set us i v) ≡ in_flight us
  in_flight-same was is = omega (arith, in_flight-set us i v below, ap tally was, ap tally is)

module _ (s : Stream) (h : IsBalanced s) where
  room : (i : ℕ) → i < s.arena_depth → i < length s.arena
  room i below = omega (arith, h.sized)

  pub submitted-le : s.submitted ≤ s.arena_depth
  submitted-le = omega (arith, h.counted, h.sized, in_flight-le s.arena)

  pub accepted-IsBalanced :
      (i : ℕ) → i < s.arena_depth → (urb_at s i).submitted ≡ false → IsBalanced (accepted i s)
  unfolding accepted
  accepted-IsBalanced i below idle =
      let count =
        in_flight-mark s.arena i (record idle_urb { submitted = true }) (room i below) idle refl in
      let most = in_flight-le (set s.arena i (record idle_urb { submitted = true })) in
      let long = length-set s.arena i (record idle_urb { submitted = true }) in
      record {
        sized = long ∙ h.sized;
        small = h.small;
        counted = omega (arith, count, most, long, h.counted, h.sized, h.small);
        agrees = λ j. flag-set s.arena i j _ (pending s.urb_trace) (room i below) h.agrees;
        pressed = refl;
      }

  pub accepted-count :
      (i : ℕ)
      → i < s.arena_depth
      → (urb_at s i).submitted ≡ false
      → (accepted i s).submitted ≡ s.submitted + 1
  unfolding accepted
  accepted-count i below idle =
      let marked : Urb = record idle_urb { submitted = true } in
      omega (
        arith,
        in_flight-mark s.arena i marked (room i below) idle refl,
        in_flight-le (set s.arena i marked),
        length-set s.arena i marked,
        h.counted,
        h.sized,
        h.small,
      )

  pub refused-IsBalanced :
      (i : ℕ) → i < s.arena_depth → (urb_at s i).submitted ≡ false → IsBalanced (refused i s)
  unfolding refused
  refused-IsBalanced i below idle = record {
    sized = length-set s.arena i _ ∙ h.sized;
    small = h.small;
    counted = h.counted ∙ sym (in_flight-same s.arena i idle_urb (room i below) idle refl);
    agrees = λ j.
        flag-set s.arena i j idle_urb (pending s.urb_trace) (room i below) h.agrees
        ∙ unset-idle (pending s.urb_trace) i j (sym (h.agrees i) ∙ idle);
    pressed = h.pressed;
  }

  pub submit-IsBalanced :
      (kernel : Kernel) (i : ℕ) → i < s.arena_depth → IsBalanced (urb_submit kernel i s).1
  unfolding urb_submit
  submit-IsBalanced kernel i below = elim (Bool-cases (urb_at s i).submitted) [
    | inl busy ↦ rw busy h
    | inr idle ↦ rw idle (elim (Bool-cases (kernel.accepts s.urb_trace i)) [
      | inl yes' ↦ rw yes' (accepted-IsBalanced i below idle)
      | inr no' ↦ rw no' (refused-IsBalanced i below idle)
    ])
  ]

  pub settle-IsBalanced :
      (c : Completion) → pending s.urb_trace c.slot ≡ true → IsBalanced (settle c s)
  unfolding settle
  settle-IsBalanced c held =
      let marked = h.agrees c.slot ∙ held in
      let below = flag-below s.arena c.slot marked in
      let u : Urb = record { submitted = false; status = c.outcome; received = c.stored } in
      let count = in_flight-clear s.arena c.slot u below marked refl in
      let most = submitted-le in
      record {
        sized = length-set s.arena c.slot u ∙ h.sized;
        small = h.small;
        counted = ground (arith, count, h.counted);
        agrees = λ j. flag-set s.arena c.slot j u (pending s.urb_trace) below h.agrees;
        pressed = ground (arith, count, h.counted, most);
      }

-- What leaves the arena, the counts and what the kernel holds alone leaves the books alone.
abbrev pub SameBooks : Stream → Stream → Type 0
SameBooks s t =
    (t.arena ≡ s.arena)
    × (t.arena_depth ≡ s.arena_depth)
    × (t.submitted ≡ s.submitted)
    × (t.backpressure ≡ s.backpressure)
    × ((i : ℕ) → pending t.urb_trace i ≡ pending s.urb_trace i)

pub Same-IsBalanced : (s t : Stream) → SameBooks s t → IsBalanced s → IsBalanced t
Same-IsBalanced s t (arenas, depths, counts, presses, held) h = record {
  sized = rw (arenas, depths) h.sized;
  small = rw depths h.small;
  counted = rw (arenas, counts) h.counted;
  agrees = λ i. rw (arenas, held i) (h.agrees i);
  pressed = rw (presses, depths, counts) h.pressed;
}

deliver-same : (bytes : List ℕ) (s : Stream) → SameBooks s (deliver bytes s)
unfolding deliver
deliver-same bytes s =
    by_branch (SameBooks s) s.has_callback _ _ (λ e. (refl, refl, refl, refl, λ i. refl))
      (λ e. (refl, refl, refl, refl, λ i. refl))

recover-same : (status : ℤ) (s : Stream) → SameBooks s (recover status s)
unfolding recover
recover-same status s =
    by_branch (λ t. SameBooks s (note (backed_off 1000) t)) (is_stall status) _ _
      (λ e. (refl, refl, refl, refl, λ i. refl)) (λ e. (refl, refl, refl, refl, λ i. refl))

pub use_urb-same : (u : Urb) (s : Stream) → SameBooks s (use_urb u s)
unfolding use_urb
use_urb-same u s =
    by_branch (SameBooks s) (is_complete u) _ _ (λ e. deliver-same u.received s)
      (λ e. recover-same u.status s)
