-- ===== src/R820t/Intents.antt =====
-- Intents, their bounded sequence and their lowering to bus operations.
use libsdrgg.Prelude.{ℕ, List, [], ◌∷◌, ◌++◌, length, ltb, ◌==◌, if◌then◌else◌}
use libsdrgg.Exec.{Status, pure, ◌>>◌}
use libsdrgg.Rtl.Tuner.{write_reg, rmw}

pub data IntentKind : Type 0 where
  set_field assign_full settle_delay : IntentKind

pub record RegIntent : Type 0 where
  pub action : IntentKind
  pub target : ℕ
  pub value : ℕ
  pub field_mask : ℕ

abbrev pub intent_seq_capacity : ℕ
intent_seq_capacity = 32

-- A full sequence takes no more; the callers do not look at the flag that says so.
unfoldable pub iseq_push : List RegIntent → IntentKind → ℕ → ℕ → ℕ → List RegIntent
iseq_push s action target value mask =
    if ltb (length s) intent_seq_capacity
    then s ++ record { action = action; target = target; value = value; field_mask = mask } ∷ []
    else s

unfoldable pub iseq_push_full : List RegIntent → ℕ → ℕ → List RegIntent
unfolding iseq_push
iseq_push_full s target value = iseq_push s assign_full target value 0xFF

unfoldable pub iseq_push_field : List RegIntent → ℕ → ℕ → ℕ → List RegIntent
unfolding iseq_push
iseq_push_field s target value mask = iseq_push s set_field target value mask

-- One round of the lowering loop: a field under a mask is a read-modify-write.
unfoldable pub lower_intent : IntentKind → RegIntent → Status
lower_intent settle_delay ri = pure tt
lower_intent assign_full ri = write_reg ri.target ri.value
lower_intent set_field ri =
    if ri.field_mask == 0xFF
    then write_reg ri.target ri.value
    else rmw ri.target ri.value ri.field_mask

unfoldable pub lower_intents : List RegIntent → Status
lower_intents [] = pure tt
lower_intents (ri ∷ s) = do lower_intent ri.action ri; lower_intents s
