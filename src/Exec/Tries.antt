-- ===== src/Exec/Tries.antt =====
-- Actions that return a value or an error code, and what is left in each case.
use libsdrgg.Prelude.{◌≢◌, refl}
use libsdrgg.Types.{Result, ok, err, trap, Error, Dev, Host}
use libsdrgg.Exec.{M, fail, gets, modify, continue, caught, ◌>>=◌, attempt}
use libsdrgg.Exec.Keeps.{Keeps}
use libsdrgg.Exec.Returns.{Returns}
use libsdrgg.Exec.Yields.{Yields, OrStop, Nowhere}
use libsdrgg.Exec.Always.{Always, EitherWay}

-- From a device that has `P`, `m` returns: `Go` is what holds of its value, `Stop` after an error.
pub record Tries (P : Dev → Type 0) {A : Type 0} (m : M A) (Go : A → Dev → Type 0)
    (Stop : Dev → Type 0) : Type 0 where
  pub yields : Yields P m (EitherWay Go Stop)

module _ {A : Type 0} where
  caught-either :
      (Go : A → Dev → Type 0) (Stop : Dev → Type 0) (r : Result A) (d : Dev)
      → EitherWay Go Stop r d
      → OrStop (EitherWay Go Stop) Nowhere (caught r) d
  caught-either Go Stop (ok a) d h = h
  caught-either Go Stop (err e) d h = h
  caught-either Go Stop trap d h = absurd h

  kept : (P : Dev → Type 0) (r : Result A) (d : Dev) → r ≢ trap → P d → EitherWay (λ _. P) P r d
  kept P (ok a) d ne h = h
  kept P (err e) d ne h = h
  kept P trap d ne h = absurd (ne refl)

module _ {A : Type 0} {P : Dev → Type 0} where
  module _ (Go : A → Dev → Type 0) (Stop : Dev → Type 0) where
    pub tries-fail : (e : Error) → ((d : Dev) → P d → Stop d) → Tries P (fail e) Go Stop
    unfolding fail
    tries-fail e k = record { yields = record { at = λ host d h. k d h } }

    pub tries-gets : (f : Dev → A) → ((d : Dev) → P d → Go (f d) d) → Tries P (gets f) Go Stop
    unfolding gets
    tries-gets f k = record { yields = record { at = λ host d h. k d h } }

    -- The result kept as a value.
    pub always-tries : (m : M A) → Tries P m Go Stop → Always P (attempt m) (EitherWay Go Stop)
    unfolding attempt
    always-tries m t = record {
      yields = record {
        at =
            λ host d h. let (r, d') = m host d in caught-either Go Stop r d' (t.yields.at host d h);
      };
    }

  pub tries-keep : (m : M A) → Returns m → Keeps P m → Tries P m (λ _. P) P
  tries-keep m t k = record {
    yields = record {
      at = λ host d h. let (r, d') = m host d in kept P r d' (t.at host d) (k.at host d h);
    };
  }

-- A fact that the device has no part in.
pub tries-given :
    {A : Type 0} {P : Dev → Type 0} (F : Type 0) (Go : A → Dev → Type 0) (Stop : Dev → Type 0)
    (m : M A)
    → (F → Tries P m Go Stop)
    → Tries (λ d. F × P d) m Go Stop
tries-given F Go Stop m k = record {
  yields = record { at = λ host d (f, h). (k f).yields.at host d h };
}

pub tries-modify :
    {P : Dev → Type 0} (Go Stop : Dev → Type 0) (f : Dev → Dev)
    → ((d : Dev) → P d → Go (f d))
    → Tries P (modify f) (λ _. Go) Stop
unfolding modify
tries-modify Go Stop f k = record { yields = record { at = λ host d h. k d h } }

module _ {A B : Type 0} (Mid : A → Dev → Type 0) (Go : B → Dev → Type 0) (Stop : Dev → Type 0) where
  continued :
      (r : Result A) (f : A → M B) (host : Host) (d : Dev)
      → ((a : A) → Tries (Mid a) (f a) Go Stop)
      → EitherWay Mid Stop r d
      → let (r', d') = continue r f host d in EitherWay Go Stop r' d'
  continued (ok a) f host d k h = (k a).yields.at host d h
  continued (err e) f host d k h = h
  continued trap f host d k h = absurd h

module _ {A B : Type 0} {P : Dev → Type 0} (Mid : A → Dev → Type 0) (Go : B → Dev → Type 0)
    (Stop : Dev → Type 0) where
  pub tries-bind :
      (m : M A) (f : A → M B)
      → Tries P m Mid Stop
      → ((a : A) → Tries (Mid a) (f a) Go Stop)
      → Tries P (m >>= f) Go Stop
  unfolding ◌>>=◌
  tries-bind m f t k = record {
    yields = record {
      at = λ host d h.
          let (r, d') = m host d in continued Mid Go Stop r f host d' k (t.yields.at host d h);
    };
  }

module _ {A : Type 0} (Go Go' : A → Dev → Type 0) (Stop : Dev → Type 0)
    (k : (a : A) (d : Dev) → Go a d → Go' a d) where
  weaker : (r : Result A) (d : Dev) → EitherWay Go Stop r d → EitherWay Go' Stop r d
  weaker (ok a) d h = k a d h
  weaker (err e) d h = h
  weaker trap d h = h

  pub tries-weaken : {P : Dev → Type 0} (m : M A) → Tries P m Go Stop → Tries P m Go' Stop
  tries-weaken {P} m t = record {
    yields = record {
      at = λ host d h. let (r, d') = m host d in weaker r d' (t.yields.at host d h);
    };
  }
