-- ===== src/Exec/Yields.antt =====
-- What an action leaves behind, told apart by its result: the rules for a block of the model.
use libsdrgg.Prelude.{◌≢◌, refl}
use libsdrgg.Types.{Result, ok, err, trap, Error, Host, Dev}
use libsdrgg.Exec.{M, Status, continue, caught, dropped, ◌>>=◌, attempt, ignore, return_code}
use libsdrgg.Exec.Keeps.{Keeps}
use libsdrgg.Exec.Returns.{Returns}

-- From a device that has `P`, whatever the host answers, `m` ends with `Q` of its result and of
-- the device that it leaves.
pub record Yields (P : Dev → Type 0) {A : Type 0} (m : M A) (Q : Result A → Dev → Type 0)
    : Type 0 where
  pub at : (host : Host) (d : Dev) → P d → let (r, d') = m host d in Q r d'

-- An action that may stop early: `Stop` is what holds if it does.
abbrev pub OrStop : {A : Type 0} → (A → Dev → Type 0) → (Dev → Type 0) → Result A → Dev → Type 0
OrStop Go Stop (ok a) d = Go a d
OrStop Go Stop (err e) d = Stop d
OrStop Go Stop trap d = Stop d

abbrev pub Nowhere : Dev → Type 0
Nowhere d = ⊥

module _ {A : Type 0} where
  dropped-yields :
      (Q : Dev → Type 0) (r : Result A) (d : Dev)
      → r ≢ trap
      → Q d
      → OrStop (λ _. Q) Nowhere (dropped r) d
  dropped-yields Q (ok a) d ne q = q
  dropped-yields Q (err e) d ne q = q
  dropped-yields Q trap d ne q = absurd (ne refl)

  pub ignore-yields :
      {P : Dev → Type 0} (m : M A)
      → Returns m
      → Keeps P m
      → Yields P (ignore m) (OrStop (λ _. P) Nowhere)
  unfolding ignore
  ignore-yields {P} m t k = record {
    at = λ host d h. let (r, d') = m host d in dropped-yields P r d' (t.at host d) (k.at host d h);
  }

  caught-yields :
      (Q : Result A → Dev → Type 0) (r : Result A) (d : Dev)
      → r ≢ trap
      → Q r d
      → OrStop (λ r' d'. (r' ≢ trap) × Q r' d') Nowhere (caught r) d
  caught-yields Q (ok a) d ne q = (ne, q)
  caught-yields Q (err e) d ne q = (ne, q)
  caught-yields Q trap d ne q = absurd (ne refl)

  pub attempt-yields :
      {P : Dev → Type 0} (m : M A) {Q : Result A → Dev → Type 0}
      → Returns m
      → Yields P m Q
      → Yields P (attempt m) (OrStop (λ r d. (r ≢ trap) × Q r d) Nowhere)
  unfolding attempt
  attempt-yields m {Q} t y = record {
    at = λ host d h. let (r, d') = m host d in caught-yields Q r d' (t.at host d) (y.at host d h);
  }

  kept-yields : (P : Dev → Type 0) (r : Result A) (d : Dev) → P d → OrStop (λ _. P) P r d
  kept-yields P (ok a) d h = h
  kept-yields P (err e) d h = h
  kept-yields P trap d h = h

  pub Keeps-yields : {P : Dev → Type 0} (m : M A) → Keeps P m → Yields P m (OrStop (λ _. P) P)
  Keeps-yields {P} m k = record {
    at = λ host d h. let (r, d') = m host d in kept-yields P r d' (k.at host d h);
  }

module _ {A B : Type 0} (P : Dev → Type 0) (Mid : A → Dev → Type 0) (Q : Result B → Dev → Type 0)
    (Stop : Dev → Type 0) (errs : (e : Error) (d : Dev) → Stop d → Q (err e) d)
    (traps : (d : Dev) → Stop d → Q trap d) where
  continue-yields :
      (r : Result A) (f : A → M B) (host : Host) (d : Dev)
      → ((a : A) → Yields (Mid a) (f a) Q)
      → OrStop Mid Stop r d
      → let (r', d') = continue r f host d in Q r' d'
  continue-yields (ok a) f host d k h = (k a).at host d h
  continue-yields (err e) f host d k h = errs e d h
  continue-yields trap f host d k h = traps d h

  pub Yields-bind :
      (m : M A) (f : A → M B)
      → Yields P m (OrStop Mid Stop)
      → ((a : A) → Yields (Mid a) (f a) Q)
      → Yields P (m >>= f) Q
  unfolding ◌>>=◌
  Yields-bind m f km kf = record {
    at = λ host d h. let (r, d') = m host d in continue-yields r f host d' kf (km.at host d h);
  }

-- From a stronger start.
pub weaken :
    {A : Type 0} {P P' : Dev → Type 0} {m : M A} {Q : Result A → Dev → Type 0}
    → ((d : Dev) → P' d → P d)
    → Yields P m Q
    → Yields P' m Q
weaken f y = record { at = λ host d h. y.at host d (f d h) }

module _ {A : Type 0} where
  forget :
      (Mid : A → Dev → Type 0) (Stop : Dev → Type 0) (r : Result A) (d : Dev)
      → OrStop Mid Stop r d
      → OrStop Mid (λ d. Unit {0}) r d
  forget Mid Stop (ok a) d h = h
  forget Mid Stop (err e) d h = tt
  forget Mid Stop trap d h = tt

  -- Nothing is said of an early stop.
  pub forget_stop :
      {P : Dev → Type 0} {Mid : A → Dev → Type 0} {Stop : Dev → Type 0} {m : M A}
      → Yields P m (OrStop Mid Stop)
      → Yields P m (OrStop Mid (λ d. Unit {0}))
  forget_stop {Mid} {Stop} {m} y = record {
    at = λ host d h. let (r, d') = m host d in forget Mid Stop r d' (y.at host d h);
  }

abbrev pub Anywhere : Dev → Type 0
Anywhere d = Unit

module _ {A : Type 0} {Go : A → Dev → Type 0} (c : Status) (keeps : (a : A) → Keeps (Go a) c) where
  abbrev finish : Result A → M A
  finish rc = ignore c >>= λ _. return_code rc

  finish-yields :
      (r : Result A) (host : Host) (d : Dev)
      → OrStop Go Anywhere r d
      → let (r', d') = continue (caught r) finish host d in OrStop Go Anywhere r' d'
  unfolding ◌>>=◌ ignore return_code
  finish-yields (ok a) host d h = let (r, d') = c host d in go r d' ((keeps a).at host d h)
    where
      go :
          (r : Result (Unit {0})) (d' : Dev)
          → Go a d'
          → let (r', d'') = continue (dropped r) (λ _. return_code (ok a)) host d' in
            OrStop Go Anywhere r' d''
      go (ok _) d' h = h
      go (err e) d' h = h
      go trap d' h = tt
  finish-yields (err e) host d h = let (r, d') = c host d in go r d'
    where
      go :
          (r : Result (Unit {0})) (d' : Dev)
          → let (r', d'') = continue (dropped r) (λ _. return_code {A = A} (err e)) host d' in
            OrStop Go Anywhere r' d''
      go (ok _) d' = tt
      go (err e') d' = tt
      go trap d' = tt
  finish-yields trap host d h = tt

  -- A call, and what is done after it whether it succeeded or not.
  pub cleanup-yields :
      {P : Dev → Type 0} (m : M A)
      → Yields P m (OrStop Go Anywhere)
      → Yields P (attempt m >>= finish) (OrStop Go Anywhere)
  unfolding ◌>>=◌ attempt
  cleanup-yields m y = record {
    at = λ host d h. let (r, d') = m host d in finish-yields r host d' (y.at host d h);
  }
