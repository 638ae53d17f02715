-- ===== src/Fc0012/Wire.antt =====
-- Wire access, cold start, detection, and gain of the FC0012. The repeater gate is opened before
-- each access, whatever that returns, and left open.
use libsdrgg.Prelude.{
  ℕ, List, [], ◌∷◌, Bool, true, false, bit_and, bit_or, not8, ◌==◌, if◌then◌else◌, get_or,
}
use libsdrgg.Prelude.Int.{ℤ, pos, negsuc, leb_ℤ}
use libsdrgg.Types.{ok, err, trap, err_io}
use libsdrgg.Exec.{M, Status, pure, fail, stuck, ◌>>=◌, ◌>>◌, attempt, ignore, usleep, when}
use libsdrgg.Usb.{control_write, control_read}
use libsdrgg.Rtl.Tuner.{enable_i2c_repeater, i2c_write_index, i2c_read_index}
use libsdrgg.Rtl.Gpio.{set_gpio_output, set_gpio_bit}
use libsdrgg.Fc0012.Loc

abbrev pub wire_addr : ℕ
wire_addr = 0xC6

abbrev pub chip_id_expect : ℕ
chip_id_expect = 0xA1

unfoldable pub wire_write : ℕ → ℕ → Status
wire_write location content = do
  ignore (enable_i2c_repeater true)
  control_write wire_addr i2c_write_index (location ∷ content ∷ [])

unfoldable pub wire_read : ℕ → M ℕ
wire_read location = do
  ignore (enable_i2c_repeater true)
  control_write wire_addr i2c_write_index (location ∷ [])
  bytes ← control_read wire_addr i2c_read_index 1
  pure (get_or bytes 0 0)

unfoldable pub dispatch_commands : List (ℕ × ℕ) → Status
dispatch_commands [] = pure tt
dispatch_commands ((location, content) ∷ cmds) = do
  wire_write location content
  dispatch_commands cmds

abbrev pub rf_frontend_cmds : List (ℕ × ℕ)
rf_frontend_cmds =
    (Loc.rf_amp, 0x05) ∷ (Loc.rf_mix, 0x10) ∷ (Loc.frac_hi, 0x00) ∷ (Loc.frac_lo, 0x00) ∷ []

abbrev pub synthesizer_idle_cmds : List (ℕ × ℕ)
synthesizer_idle_cmds =
    (Loc.out_div, 0x0F)
    ∷ (Loc.vco_bw, 0x00)
    ∷ (Loc.xtal_cfg, 0x20)
    ∷ (Loc.lo_diag, 0xB8)
    ∷ (Loc.vco_cal, 0x00)
    ∷ []

abbrev pub agc_loop_cmds : List (ℕ × ℕ)
agc_loop_cmds =
    (Loc.agc_ceil, 0xFF)
    ∷ (Loc.loop_path, 0x6E)
    ∷ (Loc.agc_ctrl, 0xFE)
    ∷ (Loc.lna_override, 0x02)
    ∷ []

abbrev pub output_routing_cmds : List (ℕ × ℕ)
output_routing_cmds =
    (Loc.clk_out, 0x82)
    ∷ (0x0F, 0x00)
    ∷ (0x10, 0x00)
    ∷ (0x11, 0x00)
    ∷ (Loc.gain_ceil, 0x1F)
    ∷ (Loc.lna_gain, 0x00)
    ∷ (0x14, 0x00)
    ∷ (Loc.lna_comp, 0x04)
    ∷ []

abbrev pub init_capabilities : List (List (ℕ × ℕ))
init_capabilities =
    rf_frontend_cmds ∷ synthesizer_idle_cmds ∷ agc_loop_cmds ∷ output_routing_cmds ∷ []

unfoldable pub apply_capabilities : List (List (ℕ × ℕ)) → Status
apply_capabilities [] = pure tt
apply_capabilities (block ∷ blocks) = do dispatch_commands block; apply_capabilities blocks

-- One reset pin: the chip is held in reset and asked for its identity.
unfoldable pub probe_gpio : ℕ → M Bool
probe_gpio gpio = do
  set_gpio_output gpio
  set_gpio_bit gpio true
  usleep 1000
  set_gpio_bit gpio false
  usleep 1000
  rc ← attempt (wire_read 0x00)
  elim rc [ ok chip_id ↦ pure (chip_id == chip_id_expect) | err e ↦ pure false | trap ↦ stuck ]

unfoldable pub try_gpios : List ℕ → Status
try_gpios [] = fail err_io
try_gpios (gpio ∷ gpios) = do found ← probe_gpio gpio; if found then pure tt else try_gpios gpios

-- A dummy write to address 0 first, to clear the firmware's address cache.
unfoldable pub detect : Status
detect = do
  ignore (enable_i2c_repeater true)
  ignore (control_write 0x00 i2c_write_index (0 ∷ []))
  ignore (enable_i2c_repeater false)
  try_gpios (4 ∷ 7 ∷ [])

-- The two writes that prime the gain latch are not checked.
unfoldable pub init : Status
init = do
  set_gpio_output 6
  apply_capabilities init_capabilities
  ignore (wire_write Loc.lna_override 0x0A)
  ignore (wire_write Loc.lna_gain 0x02)

-- `gain_capability`: the level in 0.1 dB and the code; the state's name is its place in the table.
pub record GainCapability : Type 0 where
  pub floor_tenth_db : ℤ
  pub hw_code : ℕ

abbrev pub gain_capability : ℤ → ℕ → GainCapability
gain_capability floor code = record { floor_tenth_db = floor; hw_code = code }

abbrev pub attenuation : GainCapability
attenuation = gain_capability (negsuc 98) 0x02

abbrev pub higher_gain_states : List GainCapability
higher_gain_states =
    gain_capability (negsuc 39) 0x00
    ∷ gain_capability (pos 71) 0x08
    ∷ gain_capability (pos 179) 0x17
    ∷ gain_capability (pos 192) 0x10
    ∷ []

unfoldable pub resolve_from : ℤ → GainCapability → List GainCapability → GainCapability
resolve_from requested selected [] = selected
resolve_from requested selected (g ∷ gs) =
    let higher = resolve_from requested g gs in
    if leb_ℤ g.floor_tenth_db requested then higher else selected

unfoldable pub resolve_gain_state : ℤ → GainCapability
unfolding resolve_from
resolve_gain_state requested = resolve_from requested attenuation higher_gain_states

unfoldable pub set_gain : ℤ → Status
set_gain gain_tenth_db = do
  lna_ovr ← wire_read Loc.lna_override
  when (bit_and lna_ovr 0x08 == 0) (wire_write Loc.lna_override (bit_or lna_ovr 0x08))
  current ← wire_read Loc.lna_gain
  wire_write Loc.lna_gain (bit_or (bit_and current 0xE0) (resolve_gain_state gain_tenth_db).hw_code)

unfoldable pub set_auto_gain : Status
set_auto_gain = do
  lna_ovr ← wire_read Loc.lna_override
  wire_write Loc.lna_override (bit_and lna_ovr (not8 0x08))
