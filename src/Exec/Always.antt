-- ===== src/Exec/Always.antt =====
-- Actions that always return a value, neither an error code nor a trap: the rules for a block.
use libsdrgg.Prelude.{◌∷◌, ◌≢◌, refl, Bool, true, false, if◌then◌else◌}
use libsdrgg.Types.{Result, ok, err, trap, Dev, Request, Reply, io}
use libsdrgg.Exec.{
  M, Status, pure, gets, modify, caught, dropped, ◌>>=◌, attempt, ignore, ioctl, when,
}
use libsdrgg.Exec.Keeps.{Keeps}
use libsdrgg.Exec.Returns.{Returns}
use libsdrgg.Exec.Yields.{Yields, OrStop, Nowhere, Yields-bind, ignore-yields}

-- From a device that has `P`, whatever the host answers, `m` returns a value `a` and leaves a
-- device that has `Q a`.
pub record Always (P : Dev → Type 0) {A : Type 0} (m : M A) (Q : A → Dev → Type 0) : Type 0 where
  pub yields : Yields P m (OrStop Q Nowhere)

-- The result of an attempt: what holds of a success, or of a failure.
abbrev pub EitherWay : {A : Type 0} → (A → Dev → Type 0) → (Dev → Type 0) → Result A → Dev → Type 0
EitherWay Go Stop (ok a) d = Go a d
EitherWay Go Stop (err e) d = Stop d
EitherWay Go Stop trap d = ⊥

module _ {A : Type 0} where
  attempted :
      (P : Dev → Type 0) (r : Result A) (d : Dev)
      → r ≢ trap
      → P d
      → OrStop (λ (rc : Result A). P) Nowhere (caught r) d
  attempted P (ok a) d ne h = h
  attempted P (err e) d ne h = h
  attempted P trap d ne h = absurd (ne refl)

  attempted-or :
      (Go : A → Dev → Type 0) (Stop : Dev → Type 0) (r : Result A) (d : Dev)
      → r ≢ trap
      → OrStop Go Stop r d
      → OrStop (EitherWay Go Stop) Nowhere (caught r) d
  attempted-or Go Stop (ok a) d ne h = h
  attempted-or Go Stop (err e) d ne h = h
  attempted-or Go Stop trap d ne h = absurd (ne refl)

  carried :
      (F : Type 0) (Q : A → Dev → Type 0) (r : Result A) (d : Dev)
      → F
      → OrStop Q Nowhere r d
      → OrStop (λ a d'. Q a d' × F) Nowhere r d
  carried F Q (ok a) d f h = (h, f)
  carried F Q (err e) d f h = absurd h
  carried F Q trap d f h = absurd h

  dropped-always :
      (Q : Dev → Type 0) (r : Result A) (d : Dev)
      → OrStop (λ (a : A). Q) Nowhere r d
      → OrStop (λ _. Q) Nowhere (dropped r) d
  dropped-always Q (ok a) d h = h
  dropped-always Q (err e) d h = absurd h
  dropped-always Q trap d h = absurd h

module _ {P : Dev → Type 0} where
  module _ {A : Type 0} where
    -- A fact that the device has no part in stays.
    pub always-carry :
        (F : Type 0) (Q : A → Dev → Type 0) (m : M A)
        → Always P m Q
        → Always (λ d. P d × F) m (λ a d. Q a d × F)
    always-carry F Q m y = record {
      yields = record {
        at = λ host d (h, f). let (r, d') = m host d in carried F Q r d' f (y.yields.at host d h);
      };
    }

    pub always-pure :
        (Q : A → Dev → Type 0) (a : A) → ((d : Dev) → P d → Q a d) → Always P (pure a) Q
    unfolding pure
    always-pure Q a k = record { yields = record { at = λ host d h. k d h } }

    pub always-gets :
        (Q : A → Dev → Type 0) (f : Dev → A) → ((d : Dev) → P d → Q (f d) d) → Always P (gets f) Q
    unfolding gets
    always-gets Q f k = record { yields = record { at = λ host d h. k d h } }

    pub always-attempt : (m : M A) → Returns m → Keeps P m → Always P (attempt m) (λ _. P)
    unfolding attempt
    always-attempt m t k = record {
      yields = record {
        at = λ host d h. let (r, d') = m host d in attempted P r d' (t.at host d) (k.at host d h);
      };
    }

    pub always-attempt-or :
        (Go : A → Dev → Type 0) (Stop : Dev → Type 0) (m : M A)
        → Returns m
        → Yields P m (OrStop Go Stop)
        → Always P (attempt m) (EitherWay Go Stop)
    unfolding attempt
    always-attempt-or Go Stop m t y = record {
      yields = record {
        at = λ host d h.
            let (r, d') = m host d in attempted-or Go Stop r d' (t.at host d) (y.at host d h);
      };
    }

    pub always-ignored :
        (Q : Dev → Type 0) (m : M A) → Always P m (λ _. Q) → Always P (ignore m) (λ _. Q)
    unfolding ignore
    always-ignored Q m y = record {
      yields = record {
        at = λ host d h. let (r, d') = m host d in dropped-always Q r d' (y.yields.at host d h);
      };
    }

    pub always-ignore : (m : M A) → Returns m → Keeps P m → Always P (ignore m) (λ _. P)
    always-ignore m t k = record { yields = ignore-yields m t k }

    pub always-if :
        (Q : A → Dev → Type 0) (b : Bool) (m n : M A)
        → Always P m Q
        → Always P n Q
        → Always P (if b then m else n) Q
    always-if Q true m n hm hn = hm
    always-if Q false m n hm hn = hn

  pub always-when : (b : Bool) (m : Status) → Always P m (λ _. P) → Always P (when b m) (λ _. P)
  always-when true m h = h
  always-when false m h = always-pure (λ _. P) tt (λ d p. p)

  pub always-modify :
      (Q : Dev → Type 0) (f : Dev → Dev)
      → ((d : Dev) → P d → Q (f d))
      → Always P (modify f) (λ _. Q)
  unfolding modify
  always-modify Q f k = record { yields = record { at = λ host d h. k d h } }

  pub always-ioctl :
      (Q : Reply → Dev → Type 0) (req : Request)
      → ((reply : Reply) (d : Dev) → P d → Q reply (record d { trace = io req reply ∷ d.trace }))
      → Always P (ioctl req) Q
  unfolding ioctl
  always-ioctl Q req k = record {
    yields = record { at = λ host d h. k (host.ioctl d.trace req) d h };
  }

  pub always-bind :
      {A B : Type 0} (Mid : A → Dev → Type 0) (Q : B → Dev → Type 0) (m : M A) (f : A → M B)
      → Always P m Mid
      → ((a : A) → Always (Mid a) (f a) Q)
      → Always P (m >>= f) Q
  always-bind Mid Q m f hm hf = record {
    yields =
        Yields-bind P Mid (OrStop Q Nowhere) Nowhere (λ e d h. h) (λ d h. h) m f hm.yields
          (λ a. (hf a).yields);
  }

  -- What follows may end with an error.
  pub always-then :
      {A B : Type 0} (Mid : A → Dev → Type 0) (Q : Result B → Dev → Type 0) (m : M A) (f : A → M B)
      → Always P m Mid
      → ((a : A) → Yields (Mid a) (f a) Q)
      → Yields P (m >>= f) Q
  always-then Mid Q m f hm hf =
      Yields-bind P Mid Q Nowhere (λ e d h. absurd h) (λ d h. absurd h) m f hm.yields hf
