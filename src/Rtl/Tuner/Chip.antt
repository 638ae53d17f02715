-- ===== src/Rtl/Tuner/Chip.antt =====
-- What the tuner chip was sent: the last value of each register in the trace, and which transfers
-- leave it alone.
use libsdrgg.Prelude.{
  ℕ, List, [], ◌∷◌, ◌&&◌, Option, none, some, ◌≡◌, ◌≢◌, refl, arith, ◌==◌, if◌then◌else◌,
}
use libsdrgg.Types.{
  TunerType, Request, control_out, control_in, Reply, done, failed, Errno, Event, io, slept, Dev,
}
use libsdrgg.Exec.{ioctl, usleep, modify}
use libsdrgg.Exec.Keeps.{Keeps, keeps_rules, Keeps-bind, Keeps-modify}
use libsdrgg.Usb.{note_failure, note_success, finish_control, control_write, control_read}
use libsdrgg.Rtl.Tuner.{i2c_write_index}

-- The value that a register write of two bytes carries.
abbrev pub register_write : ℕ → List ℕ → Option ℕ
register_write reg (r ∷ v ∷ []) = if r == reg then some v else none
register_write reg _ = none

-- The value that one event gives to register `reg` of the chip at bus address `addr`: only a
-- transfer that succeeded counts.
abbrev pub event_value : ℕ → ℕ → Event → Option ℕ
event_value addr reg (io (control_out value index bytes) (done _)) =
    if value == addr && index == i2c_write_index then register_write reg bytes else none
event_value addr reg _ = none

-- The last value that was sent to the register.
abbrev pub chip_value : ℕ → ℕ → List Event → Option ℕ
chip_value addr reg [] = none
chip_value addr reg (e ∷ es) = elim (event_value addr reg e) [
  | some v ↦ some v
  | none ↦ chip_value addr reg es
]

-- The device's class, address and shadow, and what its chip was sent.
pub record View (cls : TunerType) (addr : ℕ) (file : List ℕ) (sent : ℕ → Option ℕ) (d : Dev)
    : Type 0 where
  pub same_class : d.tuner_class ≡ cls
  pub same_addr : d.tuner_bus_addr ≡ addr
  pub same_file : d.r820t_file ≡ file
  pub same_sent : (reg : ℕ) → chip_value addr reg d.trace ≡ sent reg

other_index :
    (addr value index : ℕ) (bytes : List ℕ) (r : Reply) (reg : ℕ)
    → index ≢ i2c_write_index
    → event_value addr reg (io (control_out value index bytes) r) ≡ none
other_index addr value index bytes (done _) reg ne = ground arith
other_index addr value index bytes (failed _) reg ne = refl

one_byte :
    (addr value byte : ℕ) (r : Reply) (reg : ℕ)
    → event_value addr reg (io (control_out value i2c_write_index (byte ∷ [])) r) ≡ none
one_byte addr value byte (done _) reg = ground arith
one_byte addr value byte (failed _) reg = refl

module _ {cls : TunerType} {addr : ℕ} {file : List ℕ} {sent : ℕ → Option ℕ} where
  -- An event that writes no register of the chip.
  pub View-event :
      (e : Event) (d : Dev)
      → ((reg : ℕ) → event_value addr reg e ≡ none)
      → View cls addr file sent d
      → View cls addr file sent (record d { trace = e ∷ d.trace })
  View-event e d quiet v = record {
    same_class = v.same_class;
    same_addr = v.same_addr;
    same_file = v.same_file;
    same_sent = λ reg. rw (quiet reg, chip_value) (v.same_sent reg);
  }

  note_failure-View : (e : Errno) → Keeps (View cls addr file sent) (modify (note_failure e))
  unfolding note_failure
  note_failure-View e = Keeps-modify _ (λ d v. record {
    same_class = ground (arith, v.same_class);
    same_addr = ground (arith, v.same_addr);
    same_file = ground (arith, v.same_file);
    same_sent = λ reg. ground (arith, v.same_sent reg);
  })

  note_success-View : Keeps (View cls addr file sent) (modify note_success)
  unfolding note_success
  note_success-View = Keeps-modify _ (λ d v. record {
    same_class = v.same_class;
    same_addr = v.same_addr;
    same_file = v.same_file;
    same_sent = v.same_sent;
  })

  pub finish_control-View : (r : Reply) → Keeps (View cls addr file sent) (finish_control r)
  unfolding finish_control
  finish_control-View (done bytes) = search (keeps_rules, note_success-View)
  finish_control-View (failed e) = search (keeps_rules, note_failure-View)

  pub usleep-View : (us : ℕ) → Keeps (View cls addr file sent) (usleep us)
  unfolding usleep
  usleep-View us = record { at = λ host d v. View-event (slept us) d (λ reg. refl) v }

  -- A request that is no write to the tuner.
  pub ioctl-View :
      (req : Request)
      → ((r : Reply) (reg : ℕ) → event_value addr reg (io req r) ≡ none)
      → Keeps (View cls addr file sent) (ioctl req)
  unfolding ioctl
  ioctl-View req quiet = record {
    at = λ host d v.
        let reply = host.ioctl d.trace req in View-event (io req reply) d (quiet reply) v;
  }

  pub control_write-View :
      (value index : ℕ) (bytes : List ℕ)
      → index ≢ i2c_write_index
      → Keeps (View cls addr file sent) (control_write value index bytes)
  unfolding control_write
  control_write-View value index bytes ne =
      Keeps-bind _ _
        (ioctl-View (control_out value index bytes)
          (λ r reg. other_index addr value index bytes r reg ne))
        (λ r. search (keeps_rules, finish_control-View))

  pub control_read-View :
      (value index len : ℕ) → Keeps (View cls addr file sent) (control_read value index len)
  unfolding control_read
  control_read-View value index len =
      Keeps-bind _ _ (ioctl-View (control_in value index len) (λ r reg. refl)) finish_control-View

  -- A transfer of one byte is an address only.
  pub address_write-View :
      (value byte : ℕ)
      → Keeps (View cls addr file sent) (control_write value i2c_write_index (byte ∷ []))
  unfolding control_write
  address_write-View value byte =
      Keeps-bind _ _
        (ioctl-View (control_out value i2c_write_index (byte ∷ []))
          (λ r reg. one_byte addr value byte r reg))
        (λ r. search (keeps_rules, finish_control-View))
