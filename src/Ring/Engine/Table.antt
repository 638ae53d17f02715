-- ===== src/Ring/Engine/Table.antt =====
-- The table of subscribers under the calls that free slots.
use libsdrgg.Prelude.{
  ℕ, zero, suc, ◌+◌, ◌≤◌, ◌<◌, ◌≡◌, ◌⊎◌, refl, sym, ◌∙◌, arith, List, [], ◌∷◌, Bool, true, false,
  inl, inr, Option, none, some, if◌then◌else◌, get_or, set, length, replicate, by_branch, le_or_lt,
  leb, length-set, subst,
}
use libsdrgg.Types.{Result}
use libsdrgg.Ring.Slots.{find_free, subscribe_at, subscribe, unsubscribe}
use libsdrgg.Ring.Engine.{unsubscribe_all, max_subscribers}

abbrev pub AllFree : List Bool → Type 0
AllFree slots = (i : ℕ) → get_or slots i false ≡ false

pub set-free :
    (slots : List Bool) (i j : ℕ)
    → get_or slots j false ≡ false
    → get_or (set slots i false) j false ≡ false
set-free [] i j e = refl
set-free (b ∷ slots) zero zero e = refl
set-free (b ∷ slots) zero (suc j) e = e
set-free (b ∷ slots) (suc i) zero e = e
set-free (b ∷ slots) (suc i) (suc j) e = set-free slots i j e

freed : (slots : List Bool) (i : ℕ) → get_or (set slots i false) i false ≡ false
freed [] i = refl
freed (b ∷ slots) zero = refl
freed (b ∷ slots) (suc i) = freed slots i

pub replicate-free : (n : ℕ) → AllFree (replicate n false)
replicate-free zero i = refl
replicate-free (suc n) zero = refl
replicate-free (suc n) (suc i) = replicate-free n i

active-below : (slots : List Bool) (i : ℕ) → get_or slots i false ≡ true → i < length slots
active-below [] i h = absurd (cc)
active-below (b ∷ slots) zero h = omega arith
active-below (b ∷ slots) (suc i) h = omega (arith, active-below slots i h)

free-beyond : (slots : List Bool) (i : ℕ) → length slots ≤ i → get_or slots i false ≡ false
free-beyond [] i h = refl
free-beyond (b ∷ slots) zero h = absurd (omega arith)
free-beyond (b ∷ slots) (suc i) h = free-beyond slots i (omega arith)

-- A subscriber that is active is always freed.
unsubscribe-active :
    (i : ℕ) (slots : List Bool)
    → get_or slots i false ≡ true
    → (unsubscribe i slots).1 ≡ set slots i false
unfolding unsubscribe
unsubscribe-active i slots h =
    let inside : leb (length slots) i ≡ false = ground (arith, active-below slots i h) in
    rw inside (rw h refl)

-- One round: the slot is free, and no other is taken.
abbrev after_round : ℕ → List Bool → List Bool
after_round i slots = if get_or slots i false then (unsubscribe i slots).1 else slots

round-free :
    (i j : ℕ) (slots : List Bool)
    → (get_or slots j false ≡ false) ⊎ (i ≡ j)
    → get_or (after_round i slots) j false ≡ false
round-free i j slots h =
    by_branch (λ (xs : List Bool). get_or xs j false ≡ false) (get_or slots i false) _ _
      (λ e.
        subst (λ xs. get_or xs j false ≡ false) (sym (unsubscribe-active i slots e))
          (elim h [
            | inl free ↦ set-free slots i j free
            | inr same ↦
                subst (λ k. get_or (set slots i false) k false ≡ false) same (freed slots i)
          ]))
      (λ e. elim h [
        | inl free ↦ free
        | inr same ↦ subst (λ k. get_or slots k false ≡ false) same e
      ])

round-length : (i : ℕ) (slots : List Bool) → length (after_round i slots) ≡ length slots
round-length i slots =
    by_branch (λ (xs : List Bool). length xs ≡ length slots) (get_or slots i false) _ _
      (λ e.
        subst (λ xs. length xs ≡ length slots) (sym (unsubscribe-active i slots e))
          (length-set slots i false))
      (λ e. refl)

all-free :
    (n i j : ℕ) (slots : List Bool)
    → (get_or slots j false ≡ false) ⊎ (i ≤ j) × (j < i + n)
    → get_or (unsubscribe_all n i slots) j false ≡ false
unfolding unsubscribe_all
all-free zero i j slots (inl free) = free
all-free zero i j slots (inr (low, high)) = absurd (omega arith)
all-free (suc n) i j slots (inl free) =
    all-free n (i + 1) j (after_round i slots) (inl (round-free i j slots (inl free)))
all-free (suc n) i j slots (inr (low, high)) = elim (le_or_lt j i) [
  | inl at ↦
      all-free n (i + 1) j (after_round i slots) (inl (round-free i j slots (inr (omega arith))))
  | inr later ↦ all-free n (i + 1) j (after_round i slots) (inr (omega arith, omega arith))
]

pub all-length : (n i : ℕ) (slots : List Bool) → length (unsubscribe_all n i slots) ≡ length slots
unfolding unsubscribe_all
all-length zero i slots = refl
all-length (suc n) i slots = all-length n (i + 1) (after_round i slots) ∙ round-length i slots

pub stopped-AllFree :
    (slots : List Bool)
    → length slots ≡ max_subscribers
    → AllFree (unsubscribe_all max_subscribers 0 slots)
stopped-AllFree slots whole j = elim (le_or_lt max_subscribers j) [
  | inl out ↦ all-free max_subscribers 0 j slots (inl (free-beyond slots j (omega (arith, whole))))
  | inr inside ↦ all-free max_subscribers 0 j slots (inr (omega arith, omega arith))
]

subscribe_at-length :
    (ok' : Bool) (slots : List Bool) (o : Option ℕ)
    → length (subscribe_at ok' slots o).1 ≡ length slots
subscribe_at-length ok' slots none = refl
subscribe_at-length true slots (some h) = length-set slots h true
subscribe_at-length false slots (some h) = length-set slots h false

pub subscribe-length :
    (cb active ok' : Bool) (slots : List Bool)
    → length (subscribe cb active ok' slots).1 ≡ length slots
unfolding subscribe
subscribe-length true true ok' slots = subscribe_at-length ok' slots (find_free 0 slots)
subscribe-length true false ok' slots = refl
subscribe-length false active ok' slots = refl

pub unsubscribe-length : (i : ℕ) (slots : List Bool) → length (unsubscribe i slots).1 ≡ length slots
unfolding unsubscribe
unsubscribe-length i slots =
    let P : Result (Unit {0}) × List Bool → Type 0 = λ rs. length rs.1 ≡ length slots in
    by_branch P (leb (length slots) i) _ _ (λ e. refl)
      λ e. by_branch P (get_or slots i false) _ _ (λ e'. length-set slots i false) (λ e'. refl)

pub unsubscribe-AllFree :
    (i : ℕ) (slots : List Bool) → AllFree slots → AllFree (unsubscribe i slots).1
unfolding unsubscribe
unsubscribe-AllFree i slots free =
    let P : Result (Unit {0}) × List Bool → Type 0 = λ rs. AllFree rs.1 in
    by_branch P (leb (length slots) i) _ _ (λ e. free)
      λ e.
        by_branch P (get_or slots i false) _ _ (λ e'. λ j. set-free slots i j (free j)) (λ e'. free)
