-- ===== src/Core/Attach/Slots.antt =====
-- The context's table of devices: registration and its end.
use libsdrgg.Prelude.{
  ℕ, suc, zero, ◌+◌, ◌≤◌, ◌<◌, List, [], ◌∷◌, true, Option, none, some, ◌≡◌, ◌≢◌, refl, ◌∙◌, ap,
  arith, inl, inr, Bool-cases, length, get_or, set, ◌==◌, by_branch, length-set, get_or-set_ne,
}
use libsdrgg.Core.Attach.{Context, max_devices, free_slot, register_at, unregister_from, unregister}

-- The slots from the count on are empty.
pub record IsWellFormed (ctx : Context) : Type 0 where
  pub whole : length ctx.devices ≡ max_devices
  pub fits : ctx.dev_count ≤ max_devices
  pub counted : (i : ℕ) → ctx.dev_count ≤ i → get_or ctx.devices i none ≡ none

-- The device is in no slot.
abbrev pub IsAbsent : ℕ → List (Option ℕ) → Type 0
IsAbsent dev slots = (i : ℕ) → get_or slots i none ≢ some dev

free-bounds :
    (i : ℕ) (slots : List (Option ℕ)) (slot : ℕ)
    → free_slot i slots ≡ some slot
    → (i ≤ slot) × (slot < i + length slots)
unfolding free_slot
free-bounds i [] slot e = absurd (cc)
free-bounds i (none ∷ slots) slot e = let same : i ≡ slot = cc in omega arith
free-bounds i (some dev ∷ slots) slot e = omega (arith, free-bounds (i + 1) slots slot e)

same-number : (dev : ℕ) → (dev == dev) ≡ true
same-number dev = ground arith

-- Emptying the slot that was filled.
unregister-set :
    (n i k dev : ℕ) (slots : List (Option ℕ))
    → free_slot i slots ≡ some (i + k)
    → k < n
    → IsAbsent dev slots
    → unregister_from n dev (set slots k (some dev)) ≡ slots
unfolding free_slot unregister_from
unregister-set zero i k dev slots e below absent = absurd (omega arith)
unregister-set (suc n) i k dev [] e below absent = absurd (cc)
unregister-set (suc n) i zero dev (none ∷ slots) e below absent = rw (same-number dev) refl
unregister-set (suc n) i (suc k) dev (none ∷ slots) e below absent =
    let same : i ≡ i + suc k = cc in absurd (omega arith)
unregister-set (suc n) i zero dev (some other ∷ slots) e below absent =
    absurd (omega (arith, (free-bounds (i + 1) slots (i + 0) e).0))
unregister-set (suc n) i (suc k) dev (some other ∷ slots) e below absent =
    let shifted : i + suc k ≡ i + 1 + k = omega arith in
    let rest =
      unregister-set n (i + 1) k dev slots (e ∙ ap some shifted) (omega arith)
        (λ j. absent (suc j)) in
    elim (Bool-cases (other == dev)) [
      | inl same ↦ let at : other ≡ dev = ground arith in absurd (absent 0 (ap some at))
      | inr ne ↦ rw ne (ap (λ xs. some other ∷ xs) rest)
    ]

-- What is empty stays empty.
unregister-empty :
    (n dev : ℕ) (slots : List (Option ℕ)) (i : ℕ)
    → get_or slots i none ≡ none
    → get_or (unregister_from n dev slots) i none ≡ none
unfolding unregister_from
unregister-empty zero dev slots i e = e
unregister-empty (suc n) dev [] i e = refl
unregister-empty (suc n) dev (none ∷ slots) zero e = refl
unregister-empty (suc n) dev (none ∷ slots) (suc i) e = unregister-empty n dev slots i e
unregister-empty (suc n) dev (some other ∷ slots) zero e = absurd (cc)
unregister-empty (suc n) dev (some other ∷ slots) (suc i) e =
    by_branch (λ (xs : List (Option ℕ)). get_or xs (suc i) none ≡ none) (other == dev) _ _ (λ _. e)
      (λ _. unregister-empty n dev slots i e)

length-unregister :
    (n dev : ℕ) (slots : List (Option ℕ)) → length (unregister_from n dev slots) ≡ length slots
unfolding unregister_from
length-unregister zero dev slots = refl
length-unregister (suc n) dev [] = refl
length-unregister (suc n) dev (none ∷ slots) = ap suc (length-unregister n dev slots)
length-unregister (suc n) dev (some other ∷ slots) =
    by_branch (λ (xs : List (Option ℕ)). length xs ≡ suc (length slots)) (other == dev) _ _
      (λ _. refl) (λ _. ap suc (length-unregister n dev slots))

unregister-IsWellFormed :
    (dev : ℕ) (ctx : Context) → IsWellFormed ctx → IsWellFormed (unregister dev ctx)
unfolding unregister
unregister-IsWellFormed dev ctx h = record {
  whole = length-unregister ctx.dev_count dev ctx.devices ∙ h.whole;
  fits = h.fits;
  counted = λ i past. unregister-empty ctx.dev_count dev ctx.devices i (h.counted i past);
}

module _ (dev slot : ℕ) (ctx : Context) (h : IsWellFormed ctx)
    (e : free_slot 0 ctx.devices ≡ some slot) where
  slot-fits : slot < max_devices
  slot-fits = omega (arith, free-bounds 0 ctx.devices slot e, h.whole)

  register_at-IsWellFormed : IsWellFormed (register_at slot dev ctx)
  unfolding register_at
  register_at-IsWellFormed = record {
    whole = length-set ctx.devices slot (some dev) ∙ h.whole;
    fits = ground (arith, slot-fits, h.fits);
    counted = λ i past.
        let beyond : (slot < i) × (ctx.dev_count ≤ i) = ground arith in
        get_or-set_ne ctx.devices {i = slot} {j = i} (some dev) none (λ p. absurd (omega arith))
        ∙ h.counted i beyond.1;
  }

  register_at-count : slot < (register_at slot dev ctx).dev_count
  unfolding register_at
  register_at-count = ground arith

-- In a context whose slots from the count on are empty, a device that is in no slot is registered
-- in the first empty one: the context stays so, and so it does when the device is taken out, which
-- gives the table as it was.
pub registration-IsWellFormed :
    (dev slot : ℕ) (ctx : Context)
    → IsWellFormed ctx
    → free_slot 0 ctx.devices ≡ some slot
    → IsAbsent dev ctx.devices
    → let ctx' = register_at slot dev ctx in
      IsWellFormed ctx'
      × IsWellFormed (unregister dev ctx')
      × ((unregister dev ctx').devices ≡ ctx.devices)
unfolding unregister register_at
registration-IsWellFormed dev slot ctx h e absent =
    let formed = register_at-IsWellFormed dev slot ctx h e in
    (
      formed,
      unregister-IsWellFormed dev (register_at slot dev ctx) formed,
      unregister-set (register_at slot dev ctx).dev_count 0 slot dev ctx.devices
          (e ∙ ap some (omega arith)) (register_at-count dev slot ctx h e) absent,
    )
