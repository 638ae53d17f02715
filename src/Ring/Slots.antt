-- ===== src/Ring/Slots.antt =====
-- `sdr::subscribe` and `sdr::unsubscribe` of sdrgg_ring.cpp: the table of subscriber slots. Whether
-- pthread_create succeeds is an argument; `thread_started` is true in an active slot.
use libsdrgg.Prelude.{
  ℕ, zero, suc, ◌+◌, ◌<◌, List, [], ◌∷◌, Bool, true, false, Option, none, some, ◌≡◌, refl, arith,
  length, get_or, set, get_or-set_self, length-set, leb, ◌&&◌, if◌then◌else◌, ap, sym, subst, ◌∙◌,
}
use libsdrgg.Types.{Result, ok, err, trap, err_param, err_busy, err_io}

-- The first slot that is not active, counted from `i`.
unfoldable pub find_free : ℕ → List Bool → Option ℕ
find_free i [] = none
find_free i (true ∷ slots) = find_free (i + 1) slots
find_free i (false ∷ slots) = some i

-- The `active` flags, after `subscribe` got this slot.
abbrev pub subscribe_at : Bool → List Bool → Option ℕ → Result ℕ × List Bool
subscribe_at thread_ok slots none = (err err_busy, slots)
subscribe_at true slots (some handle) = (ok handle, set slots handle true)
subscribe_at false slots (some handle) = (err err_io, set slots handle false)

unfoldable pub subscribe : Bool → Bool → Bool → List Bool → Result ℕ × List Bool
subscribe has_callback stream_active thread_ok slots =
    if has_callback && stream_active
    then subscribe_at thread_ok slots (find_free 0 slots)
    else (err err_param, slots)

unfoldable pub unsubscribe : ℕ → List Bool → Result (Unit {0}) × List Bool
unsubscribe handle slots =
    if leb (length slots) handle
    then (err err_param, slots)
    else if get_or slots handle false
    then (ok tt, set slots handle false)
    else (err err_param, slots)

-- The first free slot, or all are taken.
abbrev IsFree : ℕ → List Bool → Option ℕ → Type 0
IsFree i slots none = (j : ℕ) → j < length slots → get_or slots j false ≡ true
IsFree i slots (some h) =
    (k : ℕ) × (h ≡ i + k)
    × (k < length slots)
    × (get_or slots k true ≡ false)
    × ((j : ℕ) → j < k → get_or slots j false ≡ true)

find_free-IsFree : (i : ℕ) (slots : List Bool) → IsFree i slots (find_free i slots)
unfolding find_free
find_free-IsFree i [] = λ j h. absurd (omega arith)
find_free-IsFree i (false ∷ slots) =
    (0, omega arith, omega arith, refl, λ j h. absurd (omega arith))
find_free-IsFree i (true ∷ slots) = later (find_free (i + 1) slots) (find_free-IsFree (i + 1) slots)
  where
    behind :
        (n : ℕ)
        → ((j : ℕ) → j < n → get_or slots j false ≡ true)
        → (j : ℕ) → j < suc n
        → get_or (true ∷ slots) j false ≡ true
    behind n all zero h = refl
    behind n all (suc j) h = all j (omega arith)

    later : (o : Option ℕ) → IsFree (i + 1) slots o → IsFree i (true ∷ slots) o
    later none all = behind (length slots) all
    later (some h) (k, at, inside, free, below) =
        (suc k, omega arith, omega arith, free, behind k below)

-- What `subscribe` returns of a table, and the table after it.
abbrev pub Subscribed : List Bool → Result ℕ → List Bool → Type 0
Subscribed slots (ok handle) slots' =
    (handle < length slots)
    × (get_or slots handle true ≡ false)
    × ((j : ℕ) → j < handle → get_or slots j false ≡ true)
    × (unsubscribe handle slots' ≡ (ok tt, slots))
Subscribed slots (err err_busy) slots' =
    ((j : ℕ) → j < length slots → get_or slots j false ≡ true) × (slots' ≡ slots)
Subscribed slots (err _) slots' = slots' ≡ slots
Subscribed slots trap slots' = ⊥

set-same : (slots : List Bool) (h : ℕ) → get_or slots h true ≡ false → set slots h false ≡ slots
set-same [] h free = refl
set-same (b ∷ slots) zero free = ap (λ x. x ∷ slots) (sym free)
set-same (b ∷ slots) (suc h) free = ap (λ xs. b ∷ xs) (set-same slots h free)

set-set : (slots : List Bool) (h : ℕ) (a b : Bool) → set (set slots h a) h b ≡ set slots h b
set-set [] h a b = refl
set-set (x ∷ slots) zero a b = refl
set-set (x ∷ slots) (suc h) a b = ap (λ xs. x ∷ xs) (set-set slots h a b)

unsubscribe-taken :
    (slots : List Bool) (h : ℕ)
    → h < length slots
    → get_or slots h true ≡ false
    → unsubscribe h (set slots h true) ≡ (ok tt, slots)
unfolding unsubscribe
unsubscribe-taken slots h inside free =
    let within : leb (length (set slots h true)) h ≡ false =
      ground (arith, length-set slots h true) in
    let taken : get_or (set slots h true) h false ≡ true =
      get_or-set_self slots h true false inside in
    rw (within, taken) (ap (λ s. (ok tt, s)) (set-set slots h true false ∙ set-same slots h free))

at_slot :
    (thread_ok : Bool) (slots : List Bool) (o : Option ℕ)
    → IsFree 0 slots o
    → let (r, slots') = subscribe_at thread_ok slots o in Subscribed slots r slots'
at_slot thread_ok slots none all = (all, refl)
at_slot true slots (some h) (k, at, inside, free, below) =
    let same : k ≡ h = omega arith in
    subst (λ x. Subscribed slots (ok x) (set slots x true)) same
      (inside, free, below, unsubscribe-taken slots k inside free)
at_slot false slots (some h) (k, at, inside, free, below) =
    let same : k ≡ h = omega arith in
    subst (λ x. set slots x false ≡ slots) same (set-same slots k free)

-- A subscription that returns a handle got the lowest slot that was free, and ending it gives the
-- table as it was; SDRGG_ERR_BUSY means that every slot is taken; after any error the table is as
-- before.
pub subscribe-Subscribed :
    (has_callback stream_active thread_ok : Bool) (slots : List Bool)
    → let (r, slots') = subscribe has_callback stream_active thread_ok slots in
      Subscribed slots r slots'
unfolding subscribe
subscribe-Subscribed true true thread_ok slots =
    at_slot thread_ok slots (find_free 0 slots) (find_free-IsFree 0 slots)
subscribe-Subscribed true false thread_ok slots = refl
subscribe-Subscribed false stream_active thread_ok slots = refl
