-- ===== src/Exec/Returns.antt =====
-- Actions that always return, with a value or an error code: no division by zero is reached and no
-- loop runs out of fuel, whatever the host answers.
use libsdrgg.Prelude.{ℕ, ◌≡◌, ◌≢◌, refl, Bool, true, false, arith, if◌then◌else◌}
use libsdrgg.Types.{Result, ok, err, trap, Error, Host, Dev, Request}
use libsdrgg.Exec.{
  M, Status, pure, fail, gets, modify, continue, caught, dropped, ◌>>=◌, attempt, return_code,
  ignore, stale_byte, ioctl, usleep, when,
}

pub record Returns {A : Type 0} (m : M A) : Type 0 where
  pub at : (host : Host) (d : Dev) → (m host d).0 ≢ trap

module _ {A : Type 0} where
  ok-ne-trap : (a : A) → ok a ≢ trap
  ok-ne-trap a e = cc

  err-ne-trap : (e : Error) → ◌≢◌ {A = Result A} (err e) trap
  err-ne-trap e p = cc

  pub Returns-pure : (a : A) → Returns (pure a)
  unfolding pure
  Returns-pure a = record { at = λ host d. ok-ne-trap a }

  pub Returns-fail : (e : Error) → Returns (fail {A = A} e)
  unfolding fail
  Returns-fail e = record { at = λ host d. err-ne-trap e }

  pub Returns-gets : (f : Dev → A) → Returns (gets f)
  unfolding gets
  Returns-gets f = record { at = λ host d. ok-ne-trap (f d) }

  pub Returns-return_code : (r : Result A) → r ≢ trap → Returns (return_code r)
  unfolding return_code
  Returns-return_code r ne = record { at = λ host d. ne }

  caught-ne-trap : (r : Result A) → r ≢ trap → caught r ≢ trap
  caught-ne-trap r ne = ground arith

  dropped-ne-trap : (r : Result A) → r ≢ trap → dropped r ≢ trap
  dropped-ne-trap r ne = ground arith

  pub Returns-attempt : (m : M A) → Returns m → Returns (attempt m)
  unfolding attempt
  Returns-attempt m k = record { at = λ host d. caught-ne-trap _ (k.at host d) }

  pub Returns-ignore : (m : M A) → Returns m → Returns (ignore m)
  unfolding ignore
  Returns-ignore m k = record { at = λ host d. dropped-ne-trap _ (k.at host d) }

  pub Returns-if : (b : Bool) (m n : M A) → Returns m → Returns n → Returns (if b then m else n)
  Returns-if true m n km kn = km
  Returns-if false m n km kn = kn

pub Returns-modify : (f : Dev → Dev) → Returns (modify f)
unfolding modify
Returns-modify f = record { at = λ host d. ok-ne-trap tt }

pub Returns-when : (b : Bool) (m : Status) → Returns m → Returns (when b m)
Returns-when true m k = k
Returns-when false m k = Returns-pure tt

pub Returns-stale_byte : Returns stale_byte
unfolding stale_byte
Returns-stale_byte = record { at = λ host d. ok-ne-trap _ }

pub Returns-ioctl : (req : Request) → Returns (ioctl req)
unfolding ioctl
Returns-ioctl req = record { at = λ host d. ok-ne-trap _ }

pub Returns-usleep : (us : ℕ) → Returns (usleep us)
unfolding usleep
Returns-usleep us = record { at = λ host d. ok-ne-trap tt }

module _ {A B : Type 0} where
  continue-ne-trap :
      (r : Result A) (f : A → M B) (host : Host) (d : Dev)
      → r ≢ trap
      → ((a : A) → r ≡ ok a → (f a host d).0 ≢ trap)
      → (continue r f host d).0 ≢ trap
  continue-ne-trap (ok a) f host d ne k = k a refl
  continue-ne-trap (err e) f host d ne k = err-ne-trap e
  continue-ne-trap trap f host d ne k = absurd (ne refl)

  pub Returns-bind :
      (m : M A) (f : A → M B) → Returns m → ((a : A) → Returns (f a)) → Returns (m >>= f)
  unfolding ◌>>=◌
  Returns-bind m f km kf = record {
    at = λ host d.
        let (r, d') = m host d in
        continue-ne-trap r f host d' (km.at host d) (λ a _. (kf a).at host d');
  }

  -- What `attempt` hands on is a result that the action returned.
  pub Returns-bind-attempt :
      (m : M A) (f : Result A → M B)
      → Returns m
      → ((r : Result A) → r ≢ trap → Returns (f r))
      → Returns (attempt m >>= f)
  unfolding ◌>>=◌ attempt
  Returns-bind-attempt m f km kf = record {
    at = λ host d. let (r, d') = m host d in elim_result r d' host (km.at host d);
  }
    where
      elim_result :
          (r : Result A) (d' : Dev) (host : Host)
          → r ≢ trap
          → (continue (caught r) f host d').0 ≢ trap
      elim_result (ok a) d' host ne = (kf (ok a) ne).at host d'
      elim_result (err e) d' host ne = (kf (err e) ne).at host d'
      elim_result trap d' host ne = absurd (ne refl)

pub ruleset returns_rules = (
  Returns-pure, Returns-fail, Returns-gets, Returns-return_code, Returns-attempt, Returns-ignore,
  Returns-if, Returns-modify, Returns-when, Returns-stale_byte, Returns-ioctl, Returns-usleep,
  Returns-bind-attempt, Returns-bind,
)
