-- ===== src/Core/Attach/Parts.antt =====
-- The same for the baseband's boot and shutdown and for the FC0012.
use libsdrgg.Prelude.{ℕ, refl, ◌+◌, List, [], ◌∷◌, Bool, true, false}
use libsdrgg.Types.{Result, ok, err, trap, Dev, reset_device, claim_interface}
use libsdrgg.Exec.{M, modify, ioctl, stuck, pure}
use libsdrgg.Exec.Keeps.{
  Keeps, keeps_rules, Keeps-bind, Keeps-attempt, Keeps-pure, Keeps-if, Keeps-when,
}
use libsdrgg.Rtl.Frame.{
  control_write-frame, block_write-frame, page_write-frame, descriptors-frame, repeater-frame,
}
use libsdrgg.Rtl.Nco.{set_if_freq, store_if_offset, stop_bulk}
use libsdrgg.Rtl.Boot
use libsdrgg.Fc0012.Wire
use libsdrgg.Fc0012.Frame.{
  Keeps-result, wire_write-frame, wire_read-frame, commands-frame, gpio_output-frame,
  gpio_bit-frame,
}
use libsdrgg.Core.Attach.Inert.{IsInert}

module _ {P : Dev → Type 0} (quiet : IsInert P) where
  deploy-quiet : (reg : ℕ) (bs : List ℕ) → Keeps P (Boot.deploy_from reg bs)
  unfolding Boot.deploy_from
  deploy-quiet reg [] = search keeps_rules
  deploy-quiet reg (b ∷ bs) =
      Keeps-bind _ _ (page_write-frame quiet.base _ _ _ _) (λ _. deploy-quiet (reg + 1) bs)

  filter-quiet : Keeps P Boot.deploy_filter_coefficients
  unfolding Boot.deploy_filter_coefficients
  filter-quiet = deploy-quiet _ _

  -- The retry of phase 0 resets the device and claims the interface again.
  module _ (reset : Keeps P (ioctl reset_device)) (again : Keeps P (ioctl claim_interface)) where
    attach_usb-quiet : Keeps P Boot.attach_usb
    unfolding Boot.attach_usb
    attach_usb-quiet =
        let attached = descriptors-frame quiet.base Boot.spec_usb_attach in
        Keeps-bind _ _ (Keeps-attempt _ attached) λ rc. Keeps-when _ _ (
          Keeps-bind _ _ reset λ _.
            Keeps-bind _ _ again λ _. Keeps-bind _ _ (quiet.base.on_sleep 100000) λ _. attached)

    oscillator-quiet : (f : ℕ) → Keeps P (modify (λ d. record d { oscillator_hz = f }))
    oscillator-quiet f = quiet.spared _ (λ d. (refl, refl))

    pub boot-quiet : Keeps P Boot.init
    unfolding Boot.init
    boot-quiet =
        search
          (
            keeps_rules,
            attach_usb-quiet,
            descriptors-frame quiet.base,
            filter-quiet,
            oscillator-quiet,
          )
          depth 12

  offset-quiet : (f : ℕ) → Keeps P (modify (store_if_offset f))
  offset-quiet f = quiet.spared _ (λ d. (refl, refl))

  if_freq-quiet : (f : ℕ) → Keeps P (set_if_freq f)
  unfolding set_if_freq
  if_freq-quiet f = search (keeps_rules, page_write-frame quiet.base, offset-quiet) depth 12

  pub configure_r820t-quiet : Keeps P Boot.configure_r820t
  unfolding Boot.configure_r820t
  configure_r820t-quiet = search (keeps_rules, descriptors-frame quiet.base, if_freq-quiet) depth 9

  pub configure_fc0012-quiet : Keeps P Boot.configure_fc0012
  unfolding Boot.configure_fc0012
  configure_fc0012-quiet = search (keeps_rules, descriptors-frame quiet.base, if_freq-quiet) depth 9

  pub deinit-quiet : Keeps P Boot.deinit
  unfolding Boot.deinit stop_bulk
  deinit-quiet = search (keeps_rules, block_write-frame quiet.base) depth 9

  capabilities-quiet : (blocks : List (List (ℕ × ℕ))) → Keeps P (Wire.apply_capabilities blocks)
  unfolding Wire.apply_capabilities
  capabilities-quiet [] = search keeps_rules
  capabilities-quiet (block ∷ blocks) =
      Keeps-bind _ _ (commands-frame quiet.base block) (λ _. capabilities-quiet blocks)

  probe_end-quiet :
      (r : Result ℕ) (k : ℕ → M Bool)
      → ((n : ℕ) → Keeps P (k n))
      → Keeps P (elim r [ ok n ↦ k n | err e ↦ pure false | trap ↦ stuck ])
  probe_end-quiet r k kk = Keeps-result r k (λ e. pure false) kk (λ e. Keeps-pure false)

  probe_gpio-quiet : (gpio : ℕ) → Keeps P (Wire.probe_gpio gpio)
  unfolding Wire.probe_gpio
  probe_gpio-quiet gpio = Keeps-bind _ _ (gpio_output-frame quiet.base gpio) λ _.
      Keeps-bind _ _ (gpio_bit-frame quiet.base gpio true) λ _.
        Keeps-bind _ _ (quiet.base.on_sleep 1000) λ _.
          Keeps-bind _ _ (gpio_bit-frame quiet.base gpio false) λ _.
            Keeps-bind _ _ (quiet.base.on_sleep 1000) λ _.
              Keeps-bind _ _ (Keeps-attempt _ (wire_read-frame quiet.base 0x00))
                (λ r. probe_end-quiet r _ (λ n. Keeps-pure _))

  gpios-quiet : (gpios : List ℕ) → Keeps P (Wire.try_gpios gpios)
  unfolding Wire.try_gpios
  gpios-quiet [] = search keeps_rules
  gpios-quiet (gpio ∷ gpios) =
      Keeps-bind _ _ (probe_gpio-quiet gpio)
        (λ found. Keeps-if found _ _ (Keeps-pure tt) (gpios-quiet gpios))

  pub fc0012_detect-quiet : Keeps P Wire.detect
  unfolding Wire.detect
  fc0012_detect-quiet =
      search (keeps_rules, repeater-frame quiet.base, control_write-frame quiet.base, gpios-quiet)
        depth 12

  pub fc0012_init-quiet : Keeps P Wire.init
  unfolding Wire.init
  fc0012_init-quiet =
      search
        (keeps_rules, gpio_output-frame quiet.base, capabilities-quiet, wire_write-frame quiet.base)
        depth 12

  pub auto_gain-quiet : Keeps P Wire.set_auto_gain
  unfolding Wire.set_auto_gain
  auto_gain-quiet =
      search (keeps_rules, wire_read-frame quiet.base, wire_write-frame quiet.base) depth 9
