-- ===== src/R820t/Mirror.antt =====
-- The operations of the R820T codec and the mirror of its registers, for sdrgg_r820t.cpp.
use libsdrgg.Prelude.{ℕ, zero, suc, ◌+◌, List, [], ◌∷◌, Option, inl, inr, Option-cases}
use libsdrgg.Types.{TunerType, Host, Dev, ok, err, trap}
use libsdrgg.Exec.{modify, usleep, fail, stuck}
use libsdrgg.Exec.Keeps.{
  Keeps, keeps_rules, Keeps-bind, Keeps-modify, Keeps-fail, Keeps-stuck, Keeps-gets,
}
use libsdrgg.Rtl.Transport.{submit_demod_write}
use libsdrgg.Rtl.Tuner.{read_two_phase, read_sequential, tuner_read, rmw, read_reg, current_value}
use libsdrgg.Rtl.Tuner.Chip.{View, usleep-View, control_read-View, address_write-View}
use libsdrgg.Rtl.Tuner.Mirror.{enable_i2c_repeater-View, page_one-View}
use libsdrgg.Rtl.Tuner.Mirrored.{IsMirrored, write_reg-IsMirrored, View-IsMirrored}
use libsdrgg.Rtl.Nco.{set_if_freq, store_if_offset}
use libsdrgg.R820t.Intents.{
  IntentKind, settle_delay, assign_full, set_field, RegIntent, lower_intent, lower_intents,
}
use libsdrgg.Prelude.Int.{ℤ, pos, negsuc}
use libsdrgg.R820t.Gain.{apply_assignment, set_lna_gain, set_mixer_gain, set_vga_gain}
use libsdrgg.R820t.Bandwidth.{set_bandwidth}
use libsdrgg.R820t.Pll.{PllSolution, reference_khz, pack_pll_solution}
use libsdrgg.R820t.Codec.{
  standby, set_mux, choose_solution, emit_solution, set_pll, acquire_lock, escalate_lock,
  probe_lock_status, apply_reception_profile, set_freq,
}

module _ {cls : TunerType} {addr : ℕ} {file : List ℕ} {sent : ℕ → Option ℕ} where
  -- The address write of the two-phase read carries no value.
  read_two_phase-View :
      (value reg n : ℕ) → Keeps (View cls addr file sent) (read_two_phase value reg n)
  unfolding read_two_phase
  read_two_phase-View value reg zero = search keeps_rules
  read_two_phase-View value reg (suc n) = Keeps-bind _ _ (address_write-View _ _) λ _.
      Keeps-bind _ _ (control_read-View _ _ _)
        λ _. Keeps-bind _ _ (read_two_phase-View value (reg + 1) n) λ _. search keeps_rules

  read_sequential-View :
      (c : TunerType) (value reg n : ℕ)
      → Keeps (View cls addr file sent) (read_sequential c value reg n)
  unfolding read_sequential
  read_sequential-View c value reg n = search (keeps_rules, control_read-View) depth 9

  tuner_read-View : (reg len : ℕ) → Keeps (View cls addr file sent) (tuner_read reg len)
  unfolding tuner_read
  tuner_read-View reg len =
      search (keeps_rules, enable_i2c_repeater-View, read_two_phase-View, read_sequential-View)
        depth 12

pub tuner_read-IsMirrored : (reg len : ℕ) → Keeps IsMirrored (tuner_read reg len)
tuner_read-IsMirrored reg len =
    View-IsMirrored (tuner_read reg len) (λ _ _ _ _. tuner_read-View reg len)

pub usleep-IsMirrored : (us : ℕ) → Keeps IsMirrored (usleep us)
usleep-IsMirrored us = View-IsMirrored (usleep us) (λ _ _ _ _. usleep-View us)

pub rmw-IsMirrored : (reg val mask : ℕ) → Keeps IsMirrored (rmw reg val mask)
unfolding rmw current_value read_reg
rmw-IsMirrored reg val mask =
    search (keeps_rules, tuner_read-IsMirrored, write_reg-IsMirrored) depth 9

lower_intent-IsMirrored : (k : IntentKind) (ri : RegIntent) → Keeps IsMirrored (lower_intent k ri)
unfolding lower_intent
lower_intent-IsMirrored settle_delay ri = search keeps_rules
lower_intent-IsMirrored assign_full ri = write_reg-IsMirrored ri.target ri.value
lower_intent-IsMirrored set_field ri = search (keeps_rules, rmw-IsMirrored, write_reg-IsMirrored)

pub lower_intents-IsMirrored : (s : List RegIntent) → Keeps IsMirrored (lower_intents s)
unfolding lower_intents
lower_intents-IsMirrored [] = search keeps_rules
lower_intents-IsMirrored (ri ∷ s) =
    Keeps-bind _ _ (lower_intent-IsMirrored ri.action ri) λ _. lower_intents-IsMirrored s

store_if_offset-IsMirrored : (f : ℕ) → Keeps IsMirrored (modify (store_if_offset f))
store_if_offset-IsMirrored f =
    Keeps-modify _ λ d m. record { family = m.family; whole = m.whole; mirrors = m.mirrors }

pub page_one-IsMirrored : (reg val len : ℕ) → Keeps IsMirrored (submit_demod_write 1 reg val len)
page_one-IsMirrored reg val len =
    View-IsMirrored (submit_demod_write 1 reg val len) (λ _ _ _ _. page_one-View reg val len)

pub set_if_freq-IsMirrored : (f : ℕ) → Keeps IsMirrored (set_if_freq f)
unfolding set_if_freq
set_if_freq-IsMirrored f =
    search (keeps_rules, page_one-IsMirrored, store_if_offset-IsMirrored) depth 12

pub set_bandwidth-IsMirrored : (bw : ℕ) → Keeps IsMirrored (set_bandwidth bw)
unfolding set_bandwidth
set_bandwidth-IsMirrored bw =
    search (keeps_rules, lower_intents-IsMirrored, set_if_freq-IsMirrored) depth 9

probe-IsMirrored : Keeps IsMirrored probe_lock_status
unfolding probe_lock_status
probe-IsMirrored = search (keeps_rules, tuner_read-IsMirrored)

escalate-IsMirrored : Keeps IsMirrored escalate_lock
unfolding escalate_lock
escalate-IsMirrored =
    search (keeps_rules, rmw-IsMirrored, usleep-IsMirrored, probe-IsMirrored) depth 12

acquire-IsMirrored : Keeps IsMirrored acquire_lock
unfolding acquire_lock
acquire-IsMirrored =
    search (keeps_rules, rmw-IsMirrored, usleep-IsMirrored, probe-IsMirrored, escalate-IsMirrored)
      depth 12

emit-IsMirrored : (ref : ℕ) (sol : PllSolution) → Keeps IsMirrored (emit_solution ref sol)
unfolding emit_solution
emit-IsMirrored ref sol = elim (Option-cases (pack_pll_solution sol ref)) [
  | inl e ↦ rw (e, emit_solution) Keeps-stuck
  | inr (enc, e) ↦
      rw (e, emit_solution) (Keeps-bind _ _ (lower_intents-IsMirrored _) λ _. acquire-IsMirrored)
]

pub set_pll-IsMirrored : (f : ℕ) → Keeps IsMirrored (set_pll f)
unfolding set_pll
set_pll-IsMirrored f = Keeps-bind _ _ (Keeps-gets _) λ req.
    elim (choose_solution req)
      as (λ r. Keeps IsMirrored {A = Unit {0}} (elim r [
        | ok sol ↦ emit_solution (reference_khz req) sol
        | err e ↦ fail e
        | trap ↦ stuck
      ])) [ ok sol ↦ emit-IsMirrored _ sol | err e ↦ Keeps-fail _ | trap ↦ Keeps-stuck ]

pub set_freq-IsMirrored : (freq if_freq : ℕ) → Keeps IsMirrored (set_freq freq if_freq)
unfolding set_freq set_mux apply_reception_profile
set_freq-IsMirrored freq if_freq =
    search (keeps_rules, lower_intents-IsMirrored, set_pll-IsMirrored) depth 9

pub standby-IsMirrored : Keeps IsMirrored standby
unfolding standby
standby-IsMirrored = lower_intents-IsMirrored _

pub set_lna_gain-IsMirrored : (index : ℤ) → Keeps IsMirrored (set_lna_gain index)
unfolding set_lna_gain apply_assignment
set_lna_gain-IsMirrored index = rmw-IsMirrored _ _ _

pub set_mixer_gain-IsMirrored : (index : ℤ) → Keeps IsMirrored (set_mixer_gain index)
unfolding set_mixer_gain
set_mixer_gain-IsMirrored (negsuc n) = rmw-IsMirrored _ _ _
set_mixer_gain-IsMirrored (pos n) = rmw-IsMirrored _ _ _

pub set_vga_gain-IsMirrored : (index : ℤ) → Keeps IsMirrored (set_vga_gain index)
unfolding set_vga_gain
set_vga_gain-IsMirrored (negsuc n) = rmw-IsMirrored _ _ _
set_vga_gain-IsMirrored (pos n) = rmw-IsMirrored _ _ _

-- On any host, whether they succeed or fail, tuning, standby, the filter and the three gain stages
-- keep it that the shadow holds for every register of the R820T the last value that the chip took.
pub operations-IsMirrored :
    (freq if_freq bw : ℕ) (index : ℤ) (host : Host) (d : Dev)
    → IsMirrored d
    → IsMirrored (set_freq freq if_freq host d).1
      × IsMirrored (standby host d).1
      × IsMirrored (set_bandwidth bw host d).1
      × IsMirrored (set_lna_gain index host d).1
      × IsMirrored (set_mixer_gain index host d).1
      × IsMirrored (set_vga_gain index host d).1
operations-IsMirrored freq if_freq bw index host d m = (
  (set_freq-IsMirrored freq if_freq).at host d m,
  standby-IsMirrored.at host d m,
  (set_bandwidth-IsMirrored bw).at host d m,
  (set_lna_gain-IsMirrored index).at host d m,
  (set_mixer_gain-IsMirrored index).at host d m,
  (set_vga_gain-IsMirrored index).at host d m,
)
