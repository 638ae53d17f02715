-- ===== src/Core/Attach/Inert.antt =====
-- What only the trace and the identity of a device decide.
use libsdrgg.Prelude.{ℕ, List, ◌≡◌, refl, sym, subst, by_branch}
use libsdrgg.Types.{Event, Dev}
use libsdrgg.Exec.{modify}
use libsdrgg.Exec.Keeps.{Keeps, Keeps-modify}
use libsdrgg.Rtl.Frame.{IsFrame}
use libsdrgg.Rtl.Quiet.{OnTrace, IsQuiet, frame}
use libsdrgg.Rtl.Tuner.{store_shadow, is_shadowed}

-- The change touches neither the trace nor the identity.
abbrev pub Spares : (Dev → Dev) → Type 0
Spares f = (d : Dev) → ((f d).trace ≡ d.trace) × ((f d).info ≡ d.info)

-- Kept by the transport and by every such change.
pub record IsInert (P : Dev → Type 0) : Type 0 where
  pub base : IsFrame P
  pub spared : (f : Dev → Dev) → Spares f → Keeps P (modify f)

pub inert : {T : List Event → Type 0} → IsQuiet T → IsInert (OnTrace T)
inert {T} quiet = record {
  base = frame quiet;
  spared = λ f same. Keeps-modify f (λ d c. subst T (sym (same d).0) c);
}

store_shadow-Spares : (reg val : ℕ) → Spares (store_shadow reg val)
unfolding store_shadow
store_shadow-Spares reg val d =
    by_branch (λ (u : Dev). (u.trace ≡ d.trace) × (u.info ≡ d.info)) (is_shadowed d reg) _ _
      (λ _. (refl, refl)) (λ _. (refl, refl))

pub stored :
    {P : Dev → Type 0} → IsInert P → (reg val : ℕ) → Keeps P (modify (store_shadow reg val))
stored inert reg val = inert.spared (store_shadow reg val) (store_shadow-Spares reg val)
