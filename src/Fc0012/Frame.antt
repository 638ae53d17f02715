-- ===== src/Fc0012/Frame.antt =====
-- What a frame keeps, the accesses of the FC0012 and the GPIO pins keep.
use libsdrgg.Prelude.{ℕ, List, [], ◌∷◌, Bool}
use libsdrgg.Types.{Result, ok, err, trap, Error, Dev}
use libsdrgg.Exec.{M, stuck}
use libsdrgg.Exec.Keeps.{Keeps, keeps_rules, Keeps-bind, Keeps-attempt, Keeps-stuck, Keeps-pure}
use libsdrgg.Rtl.Frame.{
  IsFrame, control_write-frame, control_read-frame, block_write-frame, block_read-frame,
  repeater-frame,
}
use libsdrgg.Rtl.Gpio.{read_or_keep, set_gpio_output, set_gpio_bit}
use libsdrgg.Fc0012.Wire

-- The cases of a result that was kept.
pub Keeps-result :
    {P : Dev → Type 0} {A B : Type 0} (r : Result A) (f : A → M B) (g : Error → M B)
    → ((a : A) → Keeps P (f a))
    → ((e : Error) → Keeps P (g e))
    → Keeps P (elim r [ ok a ↦ f a | err e ↦ g e | trap ↦ stuck ])
Keeps-result (ok a) f g kf kg = kf a
Keeps-result (err e) f g kf kg = kg e
Keeps-result trap f g kf kg = Keeps-stuck

module _ {P : Dev → Type 0} (frame : IsFrame P) where
  pub wire_write-frame : (l c : ℕ) → Keeps P (Wire.wire_write l c)
  unfolding Wire.wire_write
  wire_write-frame l c =
      search (keeps_rules, repeater-frame frame, control_write-frame frame) depth 9

  pub wire_read-frame : (l : ℕ) → Keeps P (Wire.wire_read l)
  unfolding Wire.wire_read
  wire_read-frame l =
      search
        (keeps_rules, repeater-frame frame, control_write-frame frame, control_read-frame frame)
        depth 9

  pub commands-frame : (cmds : List (ℕ × ℕ)) → Keeps P (Wire.dispatch_commands cmds)
  unfolding Wire.dispatch_commands
  commands-frame [] = search keeps_rules
  commands-frame ((l, c) ∷ cmds) = Keeps-bind _ _ (wire_write-frame l c) (λ _. commands-frame cmds)

  pub read_or_keep-frame : (addr old : ℕ) → Keeps P (read_or_keep addr old)
  unfolding read_or_keep
  read_or_keep-frame addr old =
      Keeps-bind _ _ (Keeps-attempt _ (block_read-frame frame _ _))
        (λ r. Keeps-result r _ _ (λ a. Keeps-pure a) (λ e. Keeps-pure old))

  pub gpio_output-frame : (gpio : ℕ) → Keeps P (set_gpio_output gpio)
  unfolding set_gpio_output
  gpio_output-frame gpio =
      search (keeps_rules, read_or_keep-frame, block_write-frame frame) depth 12

  pub gpio_bit-frame : (gpio : ℕ) (val : Bool) → Keeps P (set_gpio_bit gpio val)
  unfolding set_gpio_bit
  gpio_bit-frame gpio val =
      search (keeps_rules, read_or_keep-frame, block_write-frame frame) depth 12
