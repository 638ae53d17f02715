-- ===== src/Usb/Dispatch/Passes.antt =====
-- What the event loop does to each device, whatever it does to the others.
use libsdrgg.Prelude.{
  ℕ, zero, suc, ◌+◌, ◌≡◌, refl, ◌∙◌, ap, List, [], ◌∷◌, map, Bool, true, false, Option, none, some,
  arith, if◌then◌else◌, by_branch,
}
use mathlib.Core.Option
use libsdrgg.Usb.Urb.{Kernel, load_cancel}
use libsdrgg.Usb.Dispatch.{
  Channel, Ready, pipe_ready, device_ready, process, serve, poll, at_slot, handle_events, poll_from,
  event_loop_rounds,
}

-- The device of a slot, none if it is empty or there is no such slot.
abbrev pub slot_at : ℕ → List (Option Channel) → Option Channel
slot_at k [] = none
slot_at zero (o ∷ slots) = o
slot_at (suc k) (o ∷ slots) = slot_at k slots

abbrev pub is_slot : ℕ → ℕ → Bool
is_slot zero zero = true
is_slot (suc i) (suc k) = is_slot i k
is_slot i k = false

-- How many of the events are of the device in the slot.
abbrev pub named : ℕ → List Ready → ℕ
named k [] = 0
named k (pipe_ready ∷ es) = named k es
named k (device_ready i ∷ es) = let n = named k es in if is_slot i k then suc n else n

abbrev pub repeated : ℕ → (Channel → Channel) → Channel → Channel
repeated zero f c = c
repeated (suc n) f c = repeated n f (f c)

-- A device whose cancellation is looked at: with it the device is left alone.
abbrev pub unless_cancelled : ℕ → Kernel → Channel → Channel
unless_cancelled fuel kernel c = if c.pipeline.cancel_requested then c else process fuel kernel c

abbrev looked_at : Kernel → Channel → Channel
looked_at kernel c = record c { pipeline = load_cancel kernel c.pipeline }

-- A round for one device that `n` events name: without a stream nothing is done to it; with one its
-- URBs are processed once for each event, and once more at the end unless it is cancelled by then.
abbrev pub round_of : ℕ → Kernel → ℕ → Channel → Channel
round_of fuel kernel n c =
    let served = repeated n (process fuel kernel) c in
    if c.streaming then unless_cancelled fuel kernel (looked_at kernel served) else c

abbrev pub history : ℕ → Kernel → List ℕ → Channel → Channel
history fuel kernel [] c = c
history fuel kernel (n ∷ ns) c = history fuel kernel ns (round_of fuel kernel n c)

map-map :
    (f g : Channel → Channel) (o : Option Channel)
    → Option.map g (Option.map f o) ≡ Option.map (λ c. g (f c)) o
map-map f g none = refl
map-map f g (some c) = refl

map-same :
    (f g : Channel → Channel)
    → ((c : Channel) → f c ≡ g c)
    → (o : Option Channel) → Option.map f o ≡ Option.map g o
map-same f g k none = refl
map-same f g k (some c) = ap some (k c)

map_id : (o : Option Channel) → o ≡ Option.map (λ c. c) o
map_id none = refl
map_id (some c) = refl

is_slot-same : (i k : ℕ) → is_slot i k ≡ true → i ≡ k
is_slot-same zero zero e = refl
is_slot-same zero (suc k) e = absurd (cc)
is_slot-same (suc i) zero e = absurd (cc)
is_slot-same (suc i) (suc k) e = ap suc (is_slot-same i k e)

-- The slot that is changed, and the others.
slot_at-at_slot :
    (f : Channel → Channel) (i k : ℕ) (slots : List (Option Channel))
    → slot_at k (at_slot f i slots)
      ≡ (if is_slot i k then Option.map f (slot_at k slots) else slot_at k slots)
unfolding at_slot
slot_at-at_slot f i k [] =
    by_branch (λ (o : Option Channel). none ≡ o) (is_slot i k) none none (λ e. refl) (λ e. refl)
slot_at-at_slot f zero zero (o ∷ slots) = refl
slot_at-at_slot f zero (suc k) (o ∷ slots) = refl
slot_at-at_slot f (suc i) zero (o ∷ slots) = refl
slot_at-at_slot f (suc i) (suc k) (o ∷ slots) = slot_at-at_slot f i k slots

serve-idle :
    (fuel : ℕ) (kernel : Kernel) (n : ℕ) (c : Channel)
    → c.streaming ≡ false
    → repeated n (serve fuel kernel) c ≡ c
unfolding serve
serve-idle fuel kernel zero c idle = refl
serve-idle fuel kernel (suc n) c idle =
    let same : serve fuel kernel c ≡ c = rw (idle, serve) refl in
    ap (repeated n (serve fuel kernel)) same ∙ serve-idle fuel kernel n c idle

serve-live :
    (fuel : ℕ) (kernel : Kernel) (n : ℕ) (c : Channel)
    → c.streaming ≡ true
    → repeated n (serve fuel kernel) c ≡ repeated n (process fuel kernel) c
unfolding serve process
serve-live fuel kernel zero c live = refl
serve-live fuel kernel (suc n) c live =
    let same : serve fuel kernel c ≡ process fuel kernel c = rw (live, serve) refl in
    ap (repeated n (serve fuel kernel)) same ∙ serve-live fuel kernel n (process fuel kernel c) live

process-streaming :
    (fuel : ℕ) (kernel : Kernel) (n : ℕ) (c : Channel)
    → (repeated n (process fuel kernel) c).streaming ≡ c.streaming
unfolding process
process-streaming fuel kernel zero c = refl
process-streaming fuel kernel (suc n) c = process-streaming fuel kernel n (process fuel kernel c)

-- The events and the pass over the slots, for one device.
round_of_lem :
    (fuel : ℕ) (kernel : Kernel) (n : ℕ) (c : Channel)
    → poll fuel kernel (repeated n (serve fuel kernel) c) ≡ round_of fuel kernel n c
unfolding poll
round_of_lem fuel kernel n c =
    let served = repeated n (process fuel kernel) c in
    by_branch (λ r. poll fuel kernel (repeated n (serve fuel kernel) c) ≡ r) c.streaming _ _
      (λ live.
        ap (poll fuel kernel) (serve-live fuel kernel n c live)
        ∙ ap (λ b. if b then unless_cancelled fuel kernel (looked_at kernel served) else served)
            (process-streaming fuel kernel n c ∙ live))
      (λ idle. ap (poll fuel kernel) (serve-idle fuel kernel n c idle) ∙ rw (idle, poll) refl)

module _ (fuel : ℕ) (kernels : ℕ → Kernel) where
  slot_at-handle_events :
      (k : ℕ) (es : List Ready) (slots : List (Option Channel))
      → slot_at k (handle_events fuel kernels es slots)
        ≡ Option.map (repeated (named k es) (serve fuel (kernels k))) (slot_at k slots)
  unfolding handle_events
  slot_at-handle_events k [] slots = map_id _
  slot_at-handle_events k (pipe_ready ∷ es) slots = slot_at-handle_events k es slots
  slot_at-handle_events k (device_ready i ∷ es) slots =
      let n = named k es in
      let again = λ (o : Option Channel). Option.map (repeated n (serve fuel (kernels k))) o in
      slot_at-handle_events k es (at_slot (serve fuel (kernels i)) i slots)
      ∙ ap again (slot_at-at_slot (serve fuel (kernels i)) i k slots)
      ∙ counted (is_slot i k) refl
    where
      counted :
          (b : Bool)
          → is_slot i k ≡ b
          → Option.map
              (repeated (named k es) (serve fuel (kernels k)))
              (if b then Option.map (serve fuel (kernels i)) (slot_at k slots) else slot_at k slots)
            ≡ Option.map
                (repeated (if b then suc (named k es) else named k es) (serve fuel (kernels k)))
                (slot_at k slots)
      counted true e =
          map-map _ _ (slot_at k slots)
          ∙ ap
              (λ j.
                Option.map
                  (λ c. repeated (named k es) (serve fuel (kernels k)) (serve fuel (kernels j) c))
                  (slot_at k slots))
              (is_slot-same i k e)
      counted false e = refl

  slot_at-poll_from :
      (i k : ℕ) (slots : List (Option Channel))
      → slot_at k (poll_from fuel kernels i slots)
        ≡ Option.map (poll fuel (kernels (i + k))) (slot_at k slots)
  unfolding poll_from
  slot_at-poll_from i k [] = refl
  slot_at-poll_from i zero (o ∷ slots) =
      ap (λ j. Option.map (poll fuel (kernels j)) o) (omega arith)
  slot_at-poll_from i (suc k) (o ∷ slots) =
      slot_at-poll_from (i + 1) k slots
      ∙ ap (λ j. Option.map (poll fuel (kernels j)) (slot_at k slots)) (omega arith)

  -- Over any rounds of the event loop, whatever events each wait gives, what becomes of the device
  -- in a slot depends on its own events alone: in a round, a device that does not stream is left
  -- as it was; one that streams has process_device_urbs called once for each event that names it,
  -- and once more at the end of the round unless its cancellation is seen by then. A slot without
  -- a device stays so.
  pub event_loop_rounds-Follows :
      (rounds : List (List Ready)) (slots : List (Option Channel)) (k : ℕ)
      → slot_at k (event_loop_rounds fuel kernels rounds slots)
        ≡ Option.map (history fuel (kernels k) (map (named k) rounds)) (slot_at k slots)
  unfolding event_loop_rounds
  event_loop_rounds-Follows [] slots k = map_id _
  event_loop_rounds-Follows (es ∷ rounds) slots k =
      let o = slot_at k slots in
      let kernel = kernels k in
      let served = handle_events fuel kernels es slots in
      let later = history fuel kernel (map (named k) rounds) in
      event_loop_rounds-Follows rounds _ k
      ∙ ap (Option.map later) (
          slot_at-poll_from 0 k served
          ∙ ap (λ j. Option.map (poll fuel (kernels j)) (slot_at k served)) (omega arith)
          ∙ ap (Option.map (poll fuel kernel)) (slot_at-handle_events k es slots)
          ∙ map-map _ _ o
          ∙ map-same _ _ (round_of_lem fuel kernel (named k es)) o)
      ∙ map-map _ _ o
