-- ===== src/Core/Attach/Quiet.antt =====
-- What the trace shows is kept by the functions that open and close a device use: those that transfer,
-- sleep and call the hot-plug callback, and no other.
use libsdrgg.Prelude.{ℕ, refl, zero, suc, ◌+◌}
use libsdrgg.Prelude.Int.{ℤ, pos, negsuc}
use libsdrgg.Types.{TunerType, Dev}
use libsdrgg.Exec.{modify}
use libsdrgg.Exec.Keeps.{Keeps, keeps_rules, Keeps-bind, Keeps-gets}
use libsdrgg.Rtl.Frame.{tuner_read-frame}
use libsdrgg.Core.Attach.Inert.{IsInert, stored}
use libsdrgg.R820t.Gain.{apply_assignment, set_lna_gain, set_mixer_gain, set_vga_gain}
use libsdrgg.R820t.Codec
use libsdrgg.R820t.Frame.{write_reg-frame, rmw-frame, intents-frame}

module _ {P : Dev → Type 0} (quiet : IsInert P) where
  pub standby-quiet : Keeps P Codec.standby
  unfolding Codec.standby
  standby-quiet = intents-frame quiet.base (stored quiet) _

  pub class-quiet : (c : TunerType) → Keeps P (modify (λ d. record d { tuner_class = c }))
  class-quiet c = quiet.spared _ (λ d. (refl, refl))

  pub detect-quiet : Keeps P Codec.detect
  unfolding Codec.detect
  detect-quiet = search (keeps_rules, tuner_read-frame quiet.base, class-quiet)

  flush-quiet : (n i : ℕ) → Keeps P (Codec.flush_file n i)
  unfolding Codec.flush_file
  flush-quiet zero i = search keeps_rules
  flush-quiet (suc n) i = Keeps-bind _ _ (Keeps-gets _) λ val.
      Keeps-bind _ _ (write_reg-frame quiet.base (stored quiet) _ val) λ _. flush-quiet n (i + 1)

  lna-quiet : (index : ℤ) → Keeps P (set_lna_gain index)
  unfolding set_lna_gain apply_assignment
  lna-quiet index = rmw-frame quiet.base (stored quiet) _ _ _

  mixer-quiet : (index : ℤ) → Keeps P (set_mixer_gain index)
  unfolding set_mixer_gain
  mixer-quiet (negsuc n) = rmw-frame quiet.base (stored quiet) _ _ _
  mixer-quiet (pos n) = rmw-frame quiet.base (stored quiet) _ _ _

  vga-quiet : (index : ℤ) → Keeps P (set_vga_gain index)
  unfolding set_vga_gain
  vga-quiet (negsuc n) = rmw-frame quiet.base (stored quiet) _ _ _
  vga-quiet (pos n) = rmw-frame quiet.base (stored quiet) _ _ _

  pub init-quiet : Keeps P Codec.init
  unfolding Codec.init
  init-quiet =
      Keeps-bind _ _ (quiet.spared _ (λ d. (refl, refl)))
        (λ _. search (keeps_rules, flush-quiet, lna-quiet, mixer-quiet, vga-quiet) depth 9)
