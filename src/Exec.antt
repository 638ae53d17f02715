-- ===== src/Exec.antt =====
-- How the sources' functions run: on a device, against a host, with an error code or a value as the
-- result. What was done before an error stays done, so the device comes back in both cases.
pub mod Keeps
pub mod Returns
pub mod Yields
pub mod Always
pub mod Tries
use libsdrgg.Prelude.{ℕ, ◌∷◌, Bool, true, false}
use libsdrgg.Types.{Result, ok, err, trap, Error, Request, Reply, io, slept, Host, Dev}

abbrev pub M : Type 0 → Type 0
M A = Host → Dev → Result A × Dev

abbrev pub Status : Type 0
Status = M (Unit {0})

module _ {A : Type 0} where
  unfoldable pub pure : A → M A
  pure a host d = (ok a, d)

  unfoldable pub fail : Error → M A
  fail e host d = (err e, d)

  -- reads the device
  unfoldable pub gets : (Dev → A) → M A
  gets f host d = (ok (f d), d)

-- assigns to the device
unfoldable pub modify : (Dev → Dev) → Status
modify f host d = (ok tt, f d)

module _ {A B : Type 0} where
  abbrev pub continue : Result A → (A → M B) → M B
  continue (ok a) f host d = f a host d
  continue (err e) f host d = (err e, d)
  continue trap f host d = (trap, d)

  -- `rc = m; if( rc != SDRGG_OK ) return rc;`, then the rest
  infixl 5 ◌>>=◌ ◌>>◌
  unfoldable pub ◌>>=◌ : M A → (A → M B) → M B
  unfolding pure fail gets modify
  ◌>>=◌ m f host d = let (r, d') = m host d in continue r f host d'

  abbrev pub ◌>>◌ : M A → M B → M B
  m >> n = m >>= λ _. n

-- A call whose result code is kept as a value, or thrown away.
module _ {A : Type 0} where
  abbrev pub caught : Result A → Result (Result A)
  caught (ok a) = ok (ok a)
  caught (err e) = ok (err e)
  caught trap = trap

  unfoldable pub attempt : M A → M (Result A)
  attempt m host d = let (r, d') = m host d in (caught r, d')

  -- a result code that becomes the function's
  unfoldable pub return_code : Result A → M A
  return_code r host d = (r, d)

  abbrev pub dropped : Result A → Result (Unit {0})
  dropped (ok a) = ok tt
  dropped (err e) = ok tt
  dropped trap = trap

  unfoldable pub ignore : M A → Status
  ignore m host d = let (r, d') = m host d in (dropped r, d')

  -- no result
  unfoldable pub stuck : M A
  stuck host d = (trap, d)

-- One kernel call, and its entry in the trace.
unfoldable pub ioctl : Request → M Reply
ioctl req host d =
    let reply = host.ioctl d.trace req in (ok reply, record d { trace = io req reply ∷ d.trace })

unfoldable pub usleep : ℕ → Status
usleep us host d = (ok tt, record d { trace = slept us ∷ d.trace })

-- An uninitialised byte.
unfoldable pub stale_byte : M ℕ
stale_byte host d = (ok (host.stale d.trace), d)

-- `if( test ) { … }`
abbrev pub when : Bool → Status → Status
when b m = elim b [ true ↦ m | false ↦ pure tt ]
