-- ===== src/Rtl/Tuner/Mirror.antt =====
-- A register write of two bytes: the device and its chip before it and after it.
use libsdrgg.Prelude.{
  ℕ, List, [], ◌∷◌, Bool, true, false, Option, some, ◌≡◌, ◌≢◌, refl, sym, subst, arith, ◌==◌,
  bit_or, if◌then◌else◌,
}
use libsdrgg.Types.{TunerType, Result, ok, trap, Request, control_out, Reply, done, failed, io, Dev}
use libsdrgg.Exec.{pure, fail, gets, modify, attempt, return_code, ignore, ioctl, ◌>>=◌}
use libsdrgg.Exec.Keeps.{Keeps, keeps_rules}
use libsdrgg.Exec.Yields.{
  Yields, Nowhere, Yields-bind, ignore-yields, attempt-yields, Keeps-yields, weaken, OrStop,
}
use libsdrgg.Usb.{control_write, finish_control}
use libsdrgg.Rtl.Transport.{submit_demod_write}
use libsdrgg.Rtl.Tuner.{enable_i2c_repeater, tuner_write, i2c_write_index}
use libsdrgg.Rtl.Tuner.Total.{control_write-Returns, enable_i2c_repeater-Returns}
use libsdrgg.Rtl.Tuner.Chip.{
  View, View-event, usleep-View, finish_control-View, control_write-View, control_read-View,
}

module _ {cls : TunerType} {addr : ℕ} {file : List ℕ} {sent : ℕ → Option ℕ} where
  pub submit_demod_write-View :
      (page reg val len : ℕ)
      → bit_or 0x10 page ≢ i2c_write_index
      → Keeps (View cls addr file sent) (submit_demod_write page reg val len)
  unfolding submit_demod_write
  submit_demod_write-View page reg val len ne =
      search (keeps_rules, control_write-View, control_read-View, ne)

  pub page_one-View :
      (reg val len : ℕ) → Keeps (View cls addr file sent) (submit_demod_write 1 reg val len)
  page_one-View reg val len = submit_demod_write-View 1 reg val len (omega arith)

  pub page_zero-View :
      (reg val len : ℕ) → Keeps (View cls addr file sent) (submit_demod_write 0 reg val len)
  page_zero-View reg val len = submit_demod_write-View 0 reg val len (omega arith)

  pub enable_i2c_repeater-View :
      (on : Bool) → Keeps (View cls addr file sent) (enable_i2c_repeater on)
  unfolding enable_i2c_repeater
  enable_i2c_repeater-View on = search (keeps_rules, page_one-View, usleep-View) depth 9

-- The registers after a write that ended so.
abbrev pub after_write : Result (Unit {0}) → ℕ → ℕ → (ℕ → Option ℕ) → ℕ → Option ℕ
after_write (ok _) reg val sent r = if reg == r then some val else sent r
after_write _ reg val sent r = sent r

module _ (cls : TunerType) (addr : ℕ) (file : List ℕ) (sent : ℕ → Option ℕ) (reg val : ℕ) where
  abbrev Before : Dev → Type 0
  Before = View cls addr file sent

  -- The bytes went out, or they did not.
  abbrev After : Result (Unit {0}) → Dev → Type 0
  After r = View cls addr file (after_write r reg val sent)

  -- The chip right after the transfer.
  abbrev Sent : Reply → Dev → Type 0
  Sent (done _) = View cls addr file (after_write (ok tt) reg val sent)
  Sent (failed _) = Before

  abbrev transfer : Request
  transfer = control_out addr i2c_write_index (reg ∷ val ∷ [])

  transfer-Sent :
      (reply : Reply) (d : Dev)
      → Before d
      → Sent reply (record d { trace = io transfer reply ∷ d.trace })
  transfer-Sent (failed e) d v = View-event _ d (λ r. refl) v
  transfer-Sent (done bytes) d v = record {
    same_class = v.same_class;
    same_addr = v.same_addr;
    same_file = v.same_file;
    same_sent = λ r. ground (arith, v.same_sent r);
  }

  finish-After : (reply : Reply) → Yields (Sent reply) (finish_control reply >>= λ _. pure tt) After
  unfolding finish_control fail ◌>>=◌ modify pure
  finish-After (done bytes) = record {
    at = λ host d v. (finish_control-View (done bytes)).at host d v;
  }
  finish-After (failed e) = record { at = λ host d v. (finish_control-View (failed e)).at host d v }

  ioctl-Sent : Yields Before (ioctl transfer) (OrStop Sent Before)
  unfolding ioctl
  ioctl-Sent = record { at = λ host d v. transfer-Sent (host.ioctl d.trace transfer) d v }

  send-After : Yields Before (control_write addr i2c_write_index (reg ∷ val ∷ [])) After
  unfolding control_write
  send-After =
      Yields-bind Before Sent After Before (λ e d h. h) (λ d h. h) (ioctl transfer)
        (λ reply. finish_control reply >>= λ _. pure tt) ioctl-Sent finish-After

  -- The bus address that was read.
  abbrev Known : ℕ → Dev → Type 0
  Known a d = (a ≡ addr) × Before d

  address-Known : Yields Before (gets (λ d. d.tuner_bus_addr)) (OrStop Known Before)
  unfolding gets
  address-Known = record { at = λ host d v. (v.same_addr, v) }

  Known-After : (a : ℕ) → Yields (Known a) (control_write a i2c_write_index (reg ∷ val ∷ [])) After
  Known-After a = record {
    at = λ host d (eq, v).
        subst
          (λ x. let (r, d') = control_write x i2c_write_index (reg ∷ val ∷ []) host d in After r d')
          (sym eq) (send-After.at host d v);
  }

  -- The transfer's outcome, which has a result.
  abbrev Ended : Result (Unit {0}) → Dev → Type 0
  Ended r d = (r ≢ trap) × After r d

  gate_closed :
      (r : Result (Unit {0}))
      → Yields (Ended r) (ignore (enable_i2c_repeater false) >>= λ _. return_code r) After
  unfolding return_code
  gate_closed r =
      Yields-bind (Ended r) (λ _. After r) After Nowhere (λ e d n. absurd n) (λ d n. absurd n)
        (ignore (enable_i2c_repeater false)) (λ _. return_code r)
        (weaken (λ d (ne, h). h)
          (ignore-yields _ (enable_i2c_repeater-Returns false) (enable_i2c_repeater-View false)))
        (λ _. record { at = λ host d h. h })

  sent_at :
      (a : ℕ)
      → Yields
          (Known a)
          (attempt (control_write a i2c_write_index (reg ∷ val ∷ [])) >>= λ r.
            ignore (enable_i2c_repeater false) >>= λ _. return_code r)
          After
  sent_at a =
      Yields-bind (Known a) Ended After Nowhere (λ e d n. absurd n) (λ d n. absurd n)
        (attempt (control_write a i2c_write_index (reg ∷ val ∷ [])))
        (λ r. ignore (enable_i2c_repeater false) >>= λ _. return_code r)
        (attempt-yields _ (control_write-Returns a i2c_write_index (reg ∷ val ∷ []))
          (Known-After a))
        gate_closed

  addressed :
      Yields Before
        (gets (λ d. d.tuner_bus_addr) >>= λ a.
          attempt (control_write a i2c_write_index (reg ∷ val ∷ [])) >>= λ r.
          ignore (enable_i2c_repeater false) >>= λ _. return_code r)
        After
  addressed =
      Yields-bind Before Known After Before (λ e d h. h) (λ d h. h) (gets (λ d. d.tuner_bus_addr))
        (λ a. attempt (control_write a i2c_write_index (reg ∷ val ∷ [])) >>= λ r.
          ignore (enable_i2c_repeater false) >>= λ _. return_code r)
        address-Known sent_at

  pub tuner_write-After : Yields Before (tuner_write (reg ∷ val ∷ [])) After
  unfolding tuner_write
  tuner_write-After =
      Yields-bind Before (λ _. Before) After Before (λ e d h. h) (λ d h. h)
        (enable_i2c_repeater true) _ (Keeps-yields _ (enable_i2c_repeater-View true))
        (λ _. addressed)
