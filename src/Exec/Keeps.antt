-- ===== src/Exec/Keeps.antt =====
-- Invariants of the device under the functions of the model: one rule for each way to build one.
use libsdrgg.Prelude.{Bool, true, false, if◌then◌else◌}
use libsdrgg.Types.{Result, ok, err, trap, Error, Host, Dev}
use libsdrgg.Exec.{
  M, Status, pure, fail, gets, modify, continue, ◌>>=◌, attempt, return_code, ignore, stuck,
  stale_byte, when,
}

-- Whatever the host answers, and with an error too, `m` leaves a device that has `P` if it had it.
pub record Keeps (P : Dev → Type 0) {A : Type 0} (m : M A) : Type 0 where
  pub at : (host : Host) (d : Dev) → P d → P (m host d).1

module _ {P : Dev → Type 0} where
  module _ {A : Type 0} where
    pub Keeps-pure : (a : A) → Keeps P (pure a)
    unfolding pure
    Keeps-pure a = record { at = λ host d h. h }

    pub Keeps-fail : (e : Error) → Keeps P (fail {A = A} e)
    unfolding fail
    Keeps-fail e = record { at = λ host d h. h }

    pub Keeps-stuck : Keeps P (stuck {A = A})
    unfolding stuck
    Keeps-stuck = record { at = λ host d h. h }

    pub Keeps-gets : (f : Dev → A) → Keeps P (gets f)
    unfolding gets
    Keeps-gets f = record { at = λ host d h. h }

    pub Keeps-return_code : (r : Result A) → Keeps P (return_code r)
    unfolding return_code
    Keeps-return_code r = record { at = λ host d h. h }

    pub Keeps-attempt : (m : M A) → Keeps P m → Keeps P (attempt m)
    unfolding attempt
    Keeps-attempt m k = record { at = λ host d h. k.at host d h }

    pub Keeps-ignore : (m : M A) → Keeps P m → Keeps P (ignore m)
    unfolding ignore
    Keeps-ignore m k = record { at = λ host d h. k.at host d h }

    pub Keeps-if : (b : Bool) (m n : M A) → Keeps P m → Keeps P n → Keeps P (if b then m else n)
    Keeps-if true m n km kn = km
    Keeps-if false m n km kn = kn

  pub Keeps-when : (b : Bool) (m : Status) → Keeps P m → Keeps P (when b m)
  Keeps-when true m k = k
  Keeps-when false m k = Keeps-pure tt

  pub Keeps-modify : (f : Dev → Dev) → ((d : Dev) → P d → P (f d)) → Keeps P (modify f)
  unfolding modify
  Keeps-modify f k = record { at = λ host d h. k d h }

  pub Keeps-stale_byte : Keeps P stale_byte
  unfolding stale_byte
  Keeps-stale_byte = record { at = λ host d h. h }

module _ {P : Dev → Type 0} {A B : Type 0} where
  continue-keeps :
      (r : Result A) (f : A → M B) (host : Host) (d : Dev)
      → ((a : A) → Keeps P (f a))
      → P d
      → P (continue r f host d).1
  continue-keeps (ok a) f host d kf h = (kf a).at host d h
  continue-keeps (err e) f host d kf h = h
  continue-keeps trap f host d kf h = h

  pub Keeps-bind :
      (m : M A) (f : A → M B) → Keeps P m → ((a : A) → Keeps P (f a)) → Keeps P (m >>= f)
  unfolding ◌>>=◌
  Keeps-bind m f km kf = record {
    at = λ host d h. let (r, d') = m host d in continue-keeps r f host d' kf (km.at host d h);
  }

pub ruleset keeps_rules = (
  Keeps-pure, Keeps-fail, Keeps-gets, Keeps-return_code, Keeps-attempt, Keeps-ignore, Keeps-if,
  Keeps-when, Keeps-stale_byte, Keeps-stuck, Keeps-bind,
)
