-- ===== src/R820t/Frame.antt =====
-- What a frame keeps that storing in the shadow keeps too, the register accesses and the intents of
-- the R820T keep.
use libsdrgg.Prelude.{ℕ, List, [], ◌∷◌}
use libsdrgg.Types.{Dev}
use libsdrgg.Exec.{modify}
use libsdrgg.Exec.Keeps.{Keeps, keeps_rules, Keeps-bind}
use libsdrgg.Rtl.Frame.{IsFrame, tuner_write-frame, tuner_read-frame}
use libsdrgg.Rtl.Tuner.{write_reg, store_shadow, rmw, current_value, read_reg}
use libsdrgg.R820t.Intents.{
  IntentKind, settle_delay, assign_full, set_field, RegIntent, lower_intent, lower_intents,
}

module _ {P : Dev → Type 0} (frame : IsFrame P)
    (stored : (reg val : ℕ) → Keeps P (modify (store_shadow reg val))) where
  pub write_reg-frame : (reg val : ℕ) → Keeps P (write_reg reg val)
  unfolding write_reg
  write_reg-frame reg val = search (keeps_rules, tuner_write-frame frame, stored)

  pub rmw-frame : (reg val mask : ℕ) → Keeps P (rmw reg val mask)
  unfolding rmw current_value read_reg
  rmw-frame reg val mask = search (keeps_rules, tuner_read-frame frame, write_reg-frame) depth 9

  intent-frame : (k : IntentKind) (ri : RegIntent) → Keeps P (lower_intent k ri)
  unfolding lower_intent
  intent-frame settle_delay ri = search keeps_rules
  intent-frame assign_full ri = write_reg-frame ri.target ri.value
  intent-frame set_field ri = search (keeps_rules, rmw-frame, write_reg-frame)

  pub intents-frame : (s : List RegIntent) → Keeps P (lower_intents s)
  unfolding lower_intents
  intents-frame [] = search keeps_rules
  intents-frame (ri ∷ s) = Keeps-bind _ _ (intent-frame ri.action ri) (λ _. intents-frame s)
