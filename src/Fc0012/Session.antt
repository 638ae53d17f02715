-- ===== src/Fc0012/Session.antt =====
-- The calibration policy and the tuning session of the FC0012.
use libsdrgg.Prelude.{
  Option, none, some, ℕ, ◌/◌, List, [], ◌∷◌, Bool, true, false, bit_and, bit_or, not8, ltb, ◌==◌,
  if◌then◌else◌,
}
use libsdrgg.Types.{ok, err, trap, err_param, Dev}
use libsdrgg.Exec.{M, Status, pure, fail, stuck, gets, modify, ◌>>=◌, ◌>>◌, attempt, ignore, usleep}
use libsdrgg.Rtl.Transport.{demod_write}
use libsdrgg.Rtl.Gpio.{set_gpio_bit}
use libsdrgg.Fc0012.Loc
use libsdrgg.Fc0012.Ratio.{
  MultiplierSelection, RatioSolution, derive_multiplier, compute_raw_ratio, normalize_ratio,
  pack_ratio, derive_divider_encoding, derive_bandwidth_base,
}
use libsdrgg.Fc0012.Wire.{wire_write, wire_read, dispatch_commands}

-- `calibration_verdict`
pub data Verdict : Type 0 where
  locked over_ceiling under_floor : Verdict

unfoldable pub classify_calibration : ℕ → Verdict
classify_calibration raw_code =
    if ltb 0x3C raw_code then over_ceiling else if ltb raw_code 0x02 then under_floor else locked

-- The corrected `*bw_reg`, where a correction is due.
abbrev pub corrected_bandwidth : Bool → Verdict → ℕ → Option ℕ
corrected_bandwidth true over_ceiling bw_reg = some (bit_and bw_reg (not8 0x08))
corrected_bandwidth false under_floor bw_reg = some (bit_or bw_reg 0x08)
corrected_bandwidth _ _ _ = none

-- Trigger, release and settle; the results of the writes are not looked at.
unfoldable pub trigger_calibration : Status
trigger_calibration = do
  ignore (wire_write Loc.vco_cal 0x80)
  ignore (wire_write Loc.vco_cal 0x00)
  usleep 10000

-- `raw` keeps its initial 0 if the read fails.
unfoldable pub read_calibration : M ℕ
read_calibration = do
  rc ← attempt (wire_read Loc.vco_cal)
  elim rc [ ok raw ↦ pure (bit_and raw 0x3F) | err e ↦ pure 0 | trap ↦ stuck ]

unfoldable pub apply_correction : Option ℕ → Status
apply_correction none = pure tt
apply_correction (some bw_reg) = do ignore (wire_write Loc.vco_bw bw_reg); trigger_calibration

-- The outcome record is written to the session and not read again, so it is left out.
unfoldable pub run_calibration_policy : ℕ → Bool → Status
run_calibration_policy bw_reg elevated_bias = do
  trigger_calibration
  raw_code ← read_calibration
  apply_correction (corrected_bandwidth elevated_bias (classify_calibration raw_code) bw_reg)

unfoldable pub compose_bandwidth : MultiplierSelection → ℕ
compose_bandwidth plan =
    let base = derive_bandwidth_base plan.multiplier_index in
    let biased = if plan.elevated_bias then bit_or base 0x08 else base in
    bit_or (bit_and (bit_or biased 0x20) 0x3F) 0x80

unfoldable pub tuning_commands : MultiplierSelection → RatioSolution → List (ℕ × ℕ)
tuning_commands plan solution =
    let packed = pack_ratio solution in
    (Loc.rf_amp, packed.reg_remainder)
    ∷ (Loc.rf_mix, packed.reg_quotient)
    ∷ (Loc.frac_hi, packed.reg_frac_msb)
    ∷ (Loc.frac_lo, packed.reg_frac_lsb)
    ∷ (Loc.out_div, bit_or (derive_divider_encoding plan.multiplier_index) 0x07)
    ∷ (Loc.vco_bw, compose_bandwidth plan)
    ∷ []

unfoldable pub solve_ratio : MultiplierSelection → ℕ → RatioSolution
solve_ratio plan half_xtal =
    normalize_ratio (compute_raw_ratio plan.vco_hz half_xtal) plan.vco_hz half_xtal

unfoldable pub run_session : MultiplierSelection → RatioSolution → Status
run_session plan solution = do
  dispatch_commands (tuning_commands plan solution)
  run_calibration_policy (compose_bandwidth plan) plan.elevated_bias

-- The phases after the plan. They divide by `half_xtal` and by `half_xtal / 1000`: with one of
-- them 0, the process dies.
unfoldable pub run_planned : MultiplierSelection → ℕ → Status
run_planned plan half_xtal =
    let solution = solve_ratio plan half_xtal in
    if half_xtal / 1000 == 0
    then stuck
    else if solution.feasible
    then run_session plan solution
    else fail err_param

unfoldable pub execute_tuning_session : ℕ → Status
execute_tuning_session freq_hz = do
  half_xtal ← gets (λ d. d.oscillator_hz / 2)
  let plan = derive_multiplier freq_hz
  if plan.valid then run_planned plan half_xtal else fail err_param

abbrev pub band_split_hz : ℕ
band_split_hz = 300000000

abbrev pub store_center : ℕ → Dev → Dev
store_center f d = record d { tuning = record (d.tuning) { center_freq_hz = f } }

unfoldable pub set_freq : ℕ → Status
set_freq freq_hz = do
  ignore (demod_write 1 0xB1 0x1B)
  ignore (demod_write 0 0x08 0xCD)
  ignore (demod_write 1 0x15 0x00)
  set_gpio_bit 6 (ltb band_split_hz freq_hz)
  execute_tuning_session freq_hz
  modify (store_center freq_hz)
