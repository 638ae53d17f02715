-- ===== src/Reset/Power/Cycle.antt =====
-- The power cycle of a port.
use libsdrgg.Prelude.{
  ℕ, suc, ◌-◌, ◌≡◌, ◌⊎◌, inl, inr, refl, sym, ap, subst, ◌∙◌, arith, List, [], ◌∷◌, Bool, true,
  false, ◌==◌, by_branch,
}
use libsdrgg.Types.{Result, ok, err, trap, err_usb}
use libsdrgg.Usb.Text.{Text}
use libsdrgg.Reset.Power.{
  PortEvent, opened, wrote, closed, paused, Ports, write_port, authorize, deauthorized, cycle_port,
}

-- Whether the port has power after the events, newest first, if it has it at first.
abbrev pub is_powered : List PortEvent → Bool
is_powered [] = true
is_powered (wrote byte true ∷ t) = byte == b'1'
is_powered (wrote byte false ∷ t) = is_powered t
is_powered (opened path b ∷ t) = is_powered t
is_powered (closed ∷ t) = is_powered t
is_powered (paused us ∷ t) = is_powered t

-- The files that are open.
abbrev pub open_files : List PortEvent → ℕ
open_files [] = 0
open_files (opened path true ∷ t) = suc (open_files t)
open_files (opened path false ∷ t) = open_files t
open_files (closed ∷ t) = open_files t - 1
open_files (wrote byte b ∷ t) = open_files t
open_files (paused us ∷ t) = open_files t

-- One write: the events of the whole of it, or of its failure.
abbrev pub write_events : Text → ℕ → List PortEvent → List PortEvent
write_events path byte t = closed ∷ wrote byte true ∷ opened path true ∷ t

abbrev pub WriteFailed : Text → ℕ → List PortEvent → List PortEvent → Type 0
WriteFailed path byte t u =
    (u ≡ opened path false ∷ t) ⊎ (u ≡ closed ∷ wrote byte false ∷ opened path true ∷ t)

abbrev pub Written : Text → ℕ → List PortEvent → Bool × List PortEvent → Type 0
Written path byte t (true, u) = u ≡ write_events path byte t
Written path byte t (false, u) = WriteFailed path byte t u

write_port-Written :
    (ports : Ports) (path : Text) (byte : ℕ) (t : List PortEvent)
    → Written path byte t (write_port ports path byte t)
unfolding write_port
write_port-Written ports path byte t =
    by_branch (Written path byte t) (ports.grants_open t path) _ _
      (λ _. wrote_as (ports.grants_write (opened path true ∷ t) byte)) (λ _. inl refl)
  where
    wrote_as : (b : Bool) → Written path byte t (b, closed ∷ wrote byte b ∷ opened path true ∷ t)
    wrote_as true = refl
    wrote_as false = inr refl

-- The events once the power is cut, for 2 s.
abbrev pub cut_events : Text → List PortEvent → List PortEvent
cut_events path t = paused 2000000 ∷ write_events path b'0' t

-- What a failed write leaves: the power and the number of open files as they were.
write-failed :
    (path : Text) (byte : ℕ) (t u : List PortEvent)
    → WriteFailed path byte t u
    → (is_powered u ≡ is_powered t) × (open_files u ≡ open_files t)
write-failed path byte t u (inl e) = (ap is_powered e, ap open_files e)
write-failed path byte t u (inr e) = (ap is_powered e, ap open_files e ∙ omega arith)

-- The end of a cycle: SDRGG_OK after the power was cut and given back, with a pause after each; an
-- error, SDRGG_ERR_USB, after the first write failed, or after the power was cut and the second one
-- failed. The port's file is closed again.
abbrev pub Cycled : Text → List PortEvent → Result (Unit {0}) × List PortEvent → Type 0
Cycled path t (ok _, u) =
    (u ≡ paused 3000000 ∷ write_events path b'1' (cut_events path t))
    × (is_powered (cut_events path t) ≡ false)
    × (is_powered u ≡ true)
    × (open_files u ≡ open_files t)
Cycled path t (err e, u) =
    (e ≡ err_usb)
    × (open_files u ≡ open_files t)
    × (WriteFailed path b'0' t u × (is_powered u ≡ is_powered t)
        ⊎ WriteFailed path b'1' (cut_events path t) u × (is_powered u ≡ false))
Cycled path t (trap, u) = ⊥

pub cycle_port-Cycled :
    (ports : Ports) (path : Text) (t : List PortEvent) → Cycled path t (cycle_port ports path t)
unfolding cycle_port
cycle_port-Cycled ports path t =
    off (write_port ports path b'0' t) (write_port-Written ports path b'0' t)
  where
    on :
        (r : Bool × List PortEvent)
        → Written path b'1' (cut_events path t) r
        → Cycled path t (authorize ports path r)
    on (true, v) e =
        (ap (λ x. paused 3000000 ∷ x) e, refl, ap is_powered e, ap open_files e ∙ omega arith)
    on (false, v) failed =
        let (dark, files) = write-failed path b'1' (cut_events path t) v failed in
        (refl, files ∙ omega arith, inr (failed, dark))

    off :
        (r : Bool × List PortEvent)
        → Written path b'0' t r
        → Cycled path t (deauthorized ports path r)
    off (true, u) e =
        subst
          (λ x.
            Cycled path t (authorize ports path (write_port ports path b'1' (paused 2000000 ∷ x))))
          (sym e)
          (on (write_port ports path b'1' (cut_events path t))
            (write_port-Written ports path b'1' (cut_events path t)))
    off (false, u) failed =
        let (power, files) = write-failed path b'0' t u failed in (refl, files, inl (failed, power))
