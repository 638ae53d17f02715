-- ===== src/Core/Attach/Total.antt =====
-- The functions that open and close a device return, whatever the host answers.
use libsdrgg.Prelude.{ℕ, zero, suc, ◌+◌, List, [], ◌∷◌, Bool, true, false, ◌≢◌, refl}
use libsdrgg.Prelude.Int.{ℤ, pos, negsuc}
use libsdrgg.Types.{Result, ok, err, trap, Error, Reply, done, failed, disconnect_driver, err_busy}
use libsdrgg.Exec.{M, ioctl, stuck, pure, fail, ◌>>◌}
use libsdrgg.Exec.Returns.{
  Returns, returns_rules, Returns-bind, Returns-bind-attempt, Returns-pure, Returns-if,
  Returns-usleep, Returns-ioctl, Returns-when, Returns-gets,
}
use libsdrgg.Usb.{claim, release}
use libsdrgg.Rtl.Transport.{
  RegDomain, usb_fabric, system_fabric, demod_internal, RegDescriptor, submit_descriptor,
  apply_descriptors,
}
use libsdrgg.Rtl.Tuner.Total.{
  control_write-Returns, control_read-Returns, submit_block_write-Returns,
  submit_block_read-Returns, submit_demod_write-Returns, enable_i2c_repeater-Returns,
  tuner_read-Returns, write_reg-Returns, rmw-Returns,
}
use libsdrgg.Rtl.Nco.{set_if_freq, stop_bulk}
use libsdrgg.Rtl.Gpio.{read_or_keep, set_gpio_output, set_gpio_bit}
use libsdrgg.Rtl.Boot
use libsdrgg.R820t.Intents.{
  IntentKind, settle_delay, assign_full, set_field, RegIntent, lower_intent, lower_intents,
}
use libsdrgg.R820t.Gain.{apply_assignment, set_lna_gain, set_mixer_gain, set_vga_gain}
use libsdrgg.R820t.Codec
use libsdrgg.Fc0012.Wire

-- The cases of a result that was kept.
pub Returns-result :
    {A B : Type 0} (r : Result A) (f : A → M B) (g : Error → M B)
    → r ≢ trap
    → ((a : A) → Returns (f a))
    → ((e : Error) → Returns (g e))
    → Returns (elim r [ ok a ↦ f a | err e ↦ g e | trap ↦ stuck ])
Returns-result (ok a) f g ne kf kg = kf a
Returns-result (err e) f g ne kf kg = kg e
Returns-result trap f g ne kf kg = absurd (ne refl)

descriptor-Returns :
    (domain : RegDomain) (rd : RegDescriptor) → Returns (submit_descriptor domain rd)
descriptor-Returns usb_fabric rd = submit_block_write-Returns _ _ _ _
descriptor-Returns system_fabric rd = submit_block_write-Returns _ _ _ _
descriptor-Returns demod_internal rd = submit_demod_write-Returns _ _ _ _

descriptors-Returns : (ds : List RegDescriptor) → Returns (apply_descriptors ds)
unfolding apply_descriptors
descriptors-Returns [] = search returns_rules
descriptors-Returns (rd ∷ ds) =
    Returns-bind _ _ (descriptor-Returns rd.domain rd) (λ _. descriptors-Returns ds)

deploy-Returns : (reg : ℕ) (bs : List ℕ) → Returns (Boot.deploy_from reg bs)
unfolding Boot.deploy_from
deploy-Returns reg [] = search returns_rules
deploy-Returns reg (b ∷ bs) =
    Returns-bind _ _ (submit_demod_write-Returns _ _ _ _) (λ _. deploy-Returns (reg + 1) bs)

filter-Returns : Returns Boot.deploy_filter_coefficients
unfolding Boot.deploy_filter_coefficients
filter-Returns = deploy-Returns _ _

attach_usb-Returns : Returns Boot.attach_usb
unfolding Boot.attach_usb
attach_usb-Returns =
    let attached = descriptors-Returns Boot.spec_usb_attach in
    Returns-bind-attempt _ _ attached λ rc ne. Returns-when _ _ (
      Returns-bind _ _ (Returns-ioctl _) λ _.
        Returns-bind _ _ (Returns-ioctl _)
          λ _. Returns-bind _ _ (Returns-usleep 100000) λ _. attached)

pub boot-Returns : Returns Boot.init
unfolding Boot.init
boot-Returns =
    search (returns_rules, attach_usb-Returns, descriptors-Returns, filter-Returns) depth 12

pub if_freq-Returns : (f : ℕ) → Returns (set_if_freq f)
unfolding set_if_freq
if_freq-Returns f = search (returns_rules, submit_demod_write-Returns) depth 12

pub configure_r820t-Returns : Returns Boot.configure_r820t
unfolding Boot.configure_r820t
configure_r820t-Returns = search (returns_rules, descriptors-Returns, if_freq-Returns) depth 9

pub configure_fc0012-Returns : Returns Boot.configure_fc0012
unfolding Boot.configure_fc0012
configure_fc0012-Returns = search (returns_rules, descriptors-Returns, if_freq-Returns) depth 9

pub deinit-Returns : Returns Boot.deinit
unfolding Boot.deinit stop_bulk
deinit-Returns = search (returns_rules, submit_block_write-Returns) depth 9

pub wire_write-Returns : (l c : ℕ) → Returns (Wire.wire_write l c)
unfolding Wire.wire_write
wire_write-Returns l c =
    search (returns_rules, enable_i2c_repeater-Returns, control_write-Returns) depth 9

pub wire_read-Returns : (l : ℕ) → Returns (Wire.wire_read l)
unfolding Wire.wire_read
wire_read-Returns l =
    search (returns_rules, enable_i2c_repeater-Returns, control_write-Returns, control_read-Returns)
      depth 9

pub commands-Returns : (cmds : List (ℕ × ℕ)) → Returns (Wire.dispatch_commands cmds)
unfolding Wire.dispatch_commands
commands-Returns [] = search returns_rules
commands-Returns ((l, c) ∷ cmds) =
    Returns-bind _ _ (wire_write-Returns l c) (λ _. commands-Returns cmds)

capabilities-Returns : (blocks : List (List (ℕ × ℕ))) → Returns (Wire.apply_capabilities blocks)
unfolding Wire.apply_capabilities
capabilities-Returns [] = search returns_rules
capabilities-Returns (block ∷ blocks) =
    Returns-bind _ _ (commands-Returns block) (λ _. capabilities-Returns blocks)

read_or_keep-Returns : (addr old : ℕ) → Returns (read_or_keep addr old)
unfolding read_or_keep
read_or_keep-Returns addr old =
    Returns-bind-attempt _ _ (submit_block_read-Returns _ _)
      (λ r ne. Returns-result r _ _ ne (λ a. Returns-pure a) (λ e. Returns-pure old))

gpio_output-Returns : (gpio : ℕ) → Returns (set_gpio_output gpio)
unfolding set_gpio_output
gpio_output-Returns gpio =
    search (returns_rules, read_or_keep-Returns, submit_block_write-Returns) depth 12

pub gpio_bit-Returns : (gpio : ℕ) (val : Bool) → Returns (set_gpio_bit gpio val)
unfolding set_gpio_bit
gpio_bit-Returns gpio val =
    search (returns_rules, read_or_keep-Returns, submit_block_write-Returns) depth 12

probe_gpio-Returns : (gpio : ℕ) → Returns (Wire.probe_gpio gpio)
unfolding Wire.probe_gpio
probe_gpio-Returns gpio = Returns-bind _ _ (gpio_output-Returns gpio) λ _.
    Returns-bind _ _ (gpio_bit-Returns gpio true) λ _. Returns-bind _ _ (Returns-usleep 1000) λ _.
      Returns-bind _ _ (gpio_bit-Returns gpio false) λ _.
        Returns-bind _ _ (Returns-usleep 1000) λ _.
          Returns-bind-attempt _ _ (wire_read-Returns 0x00)
            (λ r ne. Returns-result r _ _ ne (λ n. Returns-pure _) (λ e. Returns-pure false))

gpios-Returns : (gpios : List ℕ) → Returns (Wire.try_gpios gpios)
unfolding Wire.try_gpios
gpios-Returns [] = search returns_rules
gpios-Returns (gpio ∷ gpios) =
    Returns-bind _ _ (probe_gpio-Returns gpio)
      (λ found. Returns-if found _ _ (Returns-pure tt) (gpios-Returns gpios))

pub fc0012_detect-Returns : Returns Wire.detect
unfolding Wire.detect
fc0012_detect-Returns =
    search (returns_rules, enable_i2c_repeater-Returns, control_write-Returns, gpios-Returns) depth
      12

pub fc0012_init-Returns : Returns Wire.init
unfolding Wire.init
fc0012_init-Returns =
    search (returns_rules, gpio_output-Returns, capabilities-Returns, wire_write-Returns) depth 12

pub auto_gain-Returns : Returns Wire.set_auto_gain
unfolding Wire.set_auto_gain
auto_gain-Returns = search (returns_rules, wire_read-Returns, wire_write-Returns) depth 9

intent-Returns : (k : IntentKind) (ri : RegIntent) → Returns (lower_intent k ri)
unfolding lower_intent
intent-Returns settle_delay ri = search returns_rules
intent-Returns assign_full ri = write_reg-Returns ri.target ri.value
intent-Returns set_field ri = search (returns_rules, rmw-Returns, write_reg-Returns)

pub intents-Returns : (s : List RegIntent) → Returns (lower_intents s)
unfolding lower_intents
intents-Returns [] = search returns_rules
intents-Returns (ri ∷ s) = Returns-bind _ _ (intent-Returns ri.action ri) (λ _. intents-Returns s)

pub standby-Returns : Returns Codec.standby
unfolding Codec.standby
standby-Returns = intents-Returns _

pub detect-Returns : Returns Codec.detect
unfolding Codec.detect
detect-Returns = search (returns_rules, tuner_read-Returns)

pub flush-Returns : (n i : ℕ) → Returns (Codec.flush_file n i)
unfolding Codec.flush_file
flush-Returns zero i = search returns_rules
flush-Returns (suc n) i =
    Returns-bind _ _ (Returns-gets _)
      λ val. Returns-bind _ _ (write_reg-Returns _ val) λ _. flush-Returns n (i + 1)

lna-Returns : (index : ℤ) → Returns (set_lna_gain index)
unfolding set_lna_gain apply_assignment
lna-Returns index = rmw-Returns _ _ _

mixer-Returns : (index : ℤ) → Returns (set_mixer_gain index)
unfolding set_mixer_gain
mixer-Returns (negsuc n) = rmw-Returns _ _ _
mixer-Returns (pos n) = rmw-Returns _ _ _

vga-Returns : (index : ℤ) → Returns (set_vga_gain index)
unfolding set_vga_gain
vga-Returns (negsuc n) = rmw-Returns _ _ _
vga-Returns (pos n) = rmw-Returns _ _ _

pub init-Returns : Returns Codec.init
unfolding Codec.init
init-Returns =
    search (returns_rules, flush-Returns, lna-Returns, mixer-Returns, vga-Returns) depth 9

driver-Returns :
    (r : Reply)
    → Returns (elim r [ done _ ↦ ioctl disconnect_driver >> pure tt | failed _ ↦ pure tt ])
driver-Returns (done _) = search returns_rules
driver-Returns (failed _) = search returns_rules

claimed-Returns : (r : Reply) → Returns (elim r [ done _ ↦ pure tt | failed _ ↦ fail err_busy ])
claimed-Returns (done _) = search returns_rules
claimed-Returns (failed _) = search returns_rules

pub claim-Returns : Returns claim
unfolding claim
claim-Returns = Returns-bind _ _ (Returns-ioctl _) λ _. Returns-bind _ _ (Returns-ioctl _) λ driver.
    Returns-bind _ _ (driver-Returns driver)
      λ _. Returns-bind _ _ (Returns-ioctl _) λ reply. claimed-Returns reply

pub release-Returns : Returns release
unfolding release
release-Returns = search returns_rules
