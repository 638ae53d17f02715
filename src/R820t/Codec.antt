-- ===== src/R820t/Codec.antt =====
-- The operations of the codec: detection, cold start, dormancy, tuning and readback.
use libsdrgg.Prelude.{
  ℕ, zero, suc, ◌+◌, List, [], Bool, not, ◌&&◌, Option, none, some, u32, shr, bit_and, ◌==◌,
  if◌then◌else◌, get_or,
}
use libsdrgg.Prelude.Int.{pos, negsuc}
use libsdrgg.Types.{Result, ok, err, trap, err_nodev, err_pll, tuner_r820t, Dev}
use libsdrgg.Exec.{M, Status, pure, fail, stuck, gets, modify, ◌>>=◌, ◌>>◌, usleep, when}
use libsdrgg.Rtl.Tuner.{tuner_read, write_reg, rmw, r820t_reg_start, r820t_num_regs}
use libsdrgg.R820t.Addr
use libsdrgg.R820t.Intents.{RegIntent, iseq_push_full, iseq_push_field, lower_intents}
use libsdrgg.R820t.Powerup.{compose_powerup_image, compose_dormancy_intents}
use libsdrgg.R820t.Path.{classify_rf_path, lower_routing_plan, compose_path_intents}
use libsdrgg.R820t.Pll.{
  SynthRequest, PllSolution, reference_khz, enumerate_candidates, normalize_spur_avoidance,
  rank_and_select, pack_pll_solution, compose_synth_intents,
}
use libsdrgg.R820t.Gain.{set_lna_gain, set_mixer_gain, set_vga_gain, auto_vga_index}

-- `analog_profile`, lowered field by field to `analog_encoding`.
pub record AnalogProfile : Type 0 where
  pub detector_sensitivity : ℕ
  pub rf_ceiling_policy : ℕ
  pub pump_drive_mode : ℕ
  pub drain_routing_mode : ℕ
  pub filter_current_mode : ℕ
  pub lna_headroom : ℕ
  pub tail_control : ℕ
  pub lna_agc_threshold : ℕ
  pub mixer_agc_threshold : ℕ

abbrev pub sdr_reception_profile : AnalogProfile
sdr_reception_profile = record {
  detector_sensitivity = 0xE5;
  rf_ceiling_policy = 0x24;
  pump_drive_mode = 0x38;
  drain_routing_mode = 0x30;
  filter_current_mode = 0x40;
  lna_headroom = 0x00;
  tail_control = 0x00;
  lna_agc_threshold = 0x53;
  mixer_agc_threshold = 0x75;
}

pub record AnalogEncoding : Type 0 where
  pub detect_bw_field : ℕ
  pub rf_top_field : ℕ
  pub pump_field : ℕ
  pub drain_field : ℕ
  pub filt_bias_field : ℕ
  pub lna_head_field : ℕ
  pub tail_field : ℕ
  pub lna_thresh_field : ℕ
  pub mixer_thresh_field : ℕ

unfoldable pub lower_analog_profile : AnalogProfile → AnalogEncoding
lower_analog_profile profile = record {
  detect_bw_field = profile.detector_sensitivity;
  rf_top_field = profile.rf_ceiling_policy;
  pump_field = profile.pump_drive_mode;
  drain_field = profile.drain_routing_mode;
  filt_bias_field = profile.filter_current_mode;
  lna_head_field = profile.lna_headroom;
  tail_field = profile.tail_control;
  lna_thresh_field = profile.lna_agc_threshold;
  mixer_thresh_field = profile.mixer_agc_threshold;
}

unfoldable pub compose_analog_intents : AnalogEncoding → List RegIntent
unfolding iseq_push_full iseq_push_field
compose_analog_intents enc =
    let s0 = iseq_push_field [] Addr.detect_bw enc.detect_bw_field 0xC7 in
    let s1 = iseq_push_field s0 Addr.rf_top enc.rf_top_field 0xF8 in
    let s2 = iseq_push_field s1 Addr.charge_pump enc.pump_field 0x38 in
    let s3 = iseq_push_field s2 Addr.drain_path enc.drain_field 0x30 in
    let s4 = iseq_push_field s3 Addr.filt_bias enc.filt_bias_field 0x60 in
    let s5 = iseq_push_field s4 Addr.lna_bias enc.lna_head_field 0x80 in
    let s6 = iseq_push_field s5 Addr.tail_atten enc.tail_field 0x80 in
    let s7 = iseq_push_full s6 Addr.lna_threshold enc.lna_thresh_field in
    iseq_push_full s7 Addr.mix_threshold enc.mixer_thresh_field

unfoldable pub probe_lock_status : M Bool
probe_lock_status = do
  readback ← tuner_read 0x00 3
  pure (not (bit_and (get_or readback 2 0) 0x40 == 0))

-- The second attempt, with the drive current raised.
unfoldable pub escalate_lock : Status
escalate_lock = do
  rmw Addr.vco_drive 0x60 0xE0
  usleep 10000
  locked ← probe_lock_status
  if locked then pure tt else fail err_pll

unfoldable pub acquire_lock : Status
acquire_lock = do
  usleep 10000
  locked ← probe_lock_status
  when (not locked) escalate_lock
  rmw Addr.mux_routing 0x08 0x08

unfoldable pub detect : Status
detect = do
  probe ← tuner_read 0x00 5
  if get_or probe 0 0 == 0 && get_or probe 1 0 == 0 && get_or probe 2 0 == 0
      then fail err_nodev
      else modify (λ d. record d { tuner_class = tuner_r820t })

-- Registers `i`, `i + 1`, … of the file, as many as the first number says.
unfoldable pub flush_file : ℕ → ℕ → Status
flush_file zero i = pure tt
flush_file (suc n) i = do
  val ← gets (λ d. get_or d.r820t_file i 0)
  write_reg (r820t_reg_start + i) val
  flush_file n (i + 1)

unfoldable pub init : Status
init = do
  modify (λ d. record d { r820t_file = compose_powerup_image })
  flush_file r820t_num_regs 0
  set_lna_gain (negsuc 0)
  set_mixer_gain (negsuc 0)
  set_vga_gain (pos auto_vga_index)

unfoldable pub standby : Status
standby = lower_intents compose_dormancy_intents

unfoldable pub set_mux : ℕ → Status
set_mux freq_hz =
    lower_intents (compose_path_intents (lower_routing_plan (classify_rf_path freq_hz)))

abbrev pub request_for : ℕ → Dev → SynthRequest
request_for freq_hz d = record {
  target_hz = freq_hz;
  reference_hz = d.oscillator_hz;
  correction_ppm = d.freq_offset_ppm;
}

abbrev pub selected : Option PllSolution → Result PllSolution
selected none = err err_pll
selected (some sol) = ok sol

-- From the candidates on: `count == 0` and a null `chosen` are both `none` of `rank_and_select`.
abbrev pub select_from : ℕ → Option (List PllSolution) → Result PllSolution
select_from ref none = trap
select_from ref (some candidates) =
    selected (rank_and_select (normalize_spur_avoidance candidates ref))

-- The candidate that `set_pll` tunes to; `trap` is the division by zero.
unfoldable pub choose_solution : SynthRequest → Result PllSolution
choose_solution req = select_from (reference_khz req) (enumerate_candidates req)

unfoldable pub emit_solution : ℕ → PllSolution → Status
emit_solution ref sol = elim (pack_pll_solution sol ref) [
  | none ↦ stuck
  | some enc ↦ lower_intents (compose_synth_intents enc) >> acquire_lock
]

unfoldable pub set_pll : ℕ → Status
set_pll freq_hz = do
  req ← gets (request_for freq_hz)
  elim (choose_solution req) [
    | ok sol ↦ emit_solution (reference_khz req) sol
    | err e ↦ fail e
    | trap ↦ stuck
  ]

unfoldable pub apply_reception_profile : Status
apply_reception_profile =
    lower_intents (compose_analog_intents (lower_analog_profile sdr_reception_profile))

unfoldable pub set_freq : ℕ → ℕ → Status
set_freq freq_hz if_freq_hz = do
  set_mux (u32 (freq_hz + if_freq_hz))
  set_pll (u32 (freq_hz + if_freq_hz))
  apply_reception_profile

-- `*lna_idx` and `*mixer_idx`
unfoldable pub read_signal : M (ℕ × ℕ)
read_signal = do
  readback ← tuner_read 0x00 4
  let level = get_or readback 3 0
  pure (bit_and (shr level 4) 0x0F, bit_and level 0x0F)

unfoldable pub pll_locked : M Bool
pll_locked = probe_lock_status
