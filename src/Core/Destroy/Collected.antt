-- ===== src/Core/Destroy/Collected.antt =====
-- The devices that `destroy` collects.
use libsdrgg.Prelude.{
  ℕ, zero, suc, ◌≤◌, ◌≡◌, refl, ap, arith, List, [], ◌∷◌, Option, none, some, length, get_or,
  replicate,
}
use libsdrgg.Core.Attach.{unregister_from}
use libsdrgg.Core.Destroy.{collect}

-- The devices in the slots.
unfoldable pub registered : List (Option ℕ) → List ℕ
registered [] = []
registered (none ∷ slots) = registered slots
registered (some dev ∷ slots) = dev ∷ registered slots

pub length-registered : (slots : List (Option ℕ)) → length (registered slots) ≤ length slots
unfolding registered
length-registered [] = omega arith
length-registered (none ∷ slots) = omega (arith, length-registered slots)
length-registered (some dev ∷ slots) = omega (arith, length-registered slots)

all_empty :
    (slots : List (Option ℕ))
    → ((i : ℕ) → get_or slots i none ≡ none)
    → (registered slots ≡ []) × (slots ≡ replicate (length slots) none)
unfolding registered
all_empty [] h = (refl, refl)
all_empty (none ∷ slots) h =
    let (names, rest) = all_empty slots (λ i. h (suc i)) in (names, ap (λ xs. none ∷ xs) rest)
all_empty (some dev ∷ slots) h = let at : some dev ≡ none = h 0 in absurd (cc)

-- With empty slots from `n` on, every device is found, and every slot is emptied.
pub collect-all :
    (n : ℕ) (slots : List (Option ℕ))
    → ((i : ℕ) → n ≤ i → get_or slots i none ≡ none)
    → collect n slots ≡ (registered slots, replicate (length slots) none)
unfolding collect registered
collect-all zero slots h = let (names, rest) = all_empty slots (λ i. h i (omega arith)) in cc
collect-all (suc n) [] h = refl
collect-all (suc n) (none ∷ slots) h =
    ap (λ x. (x.0, none ∷ x.1)) (collect-all n slots (λ i past. h (suc i) (omega arith)))
collect-all (suc n) (some dev ∷ slots) h =
    ap (λ x. (dev ∷ x.0, none ∷ x.1)) (collect-all n slots (λ i past. h (suc i) (omega arith)))

-- There is nothing to take out of empty slots.
pub unregister-none : (n dev k : ℕ) → unregister_from n dev (replicate k none) ≡ replicate k none
unfolding unregister_from
unregister-none zero dev k = refl
unregister-none (suc n) dev zero = refl
unregister-none (suc n) dev (suc k) = ap (λ x. none ∷ x) (unregister-none n dev k)
