-- ===== src/Core.antt =====
-- sdrgg_core.cpp, the configuration functions: what they record, the pause of the bulk endpoint
-- that a streaming FC0012 or FC0013 needs, and the gain policy of the two tuner families. The lock
-- of the device is held from their first step to the last, so a call is one step for other threads.
pub mod Commit
pub mod Attach
pub mod Close
pub mod Destroy
pub mod Select
pub mod Queries
use libsdrgg.Prelude.{ℕ, zero, suc, Bool, true, false, ◌&&◌, Option, none, some, u8, if◌then◌else◌}
use libsdrgg.Prelude.Int.{ℤ, pos, negsuc}
use libsdrgg.Types.{
  TunerType, tuner_r820t, tuner_fc0012, Result, ok, err, trap, err_param, Dev, is_fc001x_family,
}
use libsdrgg.Exec.{
  M, Status, pure, fail, gets, modify, ◌>>=◌, ◌>>◌, attempt, ignore, return_code, usleep, when,
}
use libsdrgg.Rtl.Nco.{start_bulk, stop_bulk}
use libsdrgg.Rtl.Rate
use libsdrgg.Rtl.Transport.{demod_write}
use libsdrgg.R820t.Codec
use libsdrgg.R820t.Gain.{
  GainProfile, select_gain_profile, set_lna_gain, set_mixer_gain, set_vga_gain, auto_vga_index,
}
use libsdrgg.Fc0012.Session
use libsdrgg.Fc0012.Wire

abbrev pub needs_bulk_pause : Dev → Bool
needs_bulk_pause d = d.stream_active && is_fc001x_family d.tuner_class

unfoldable pub pause_bulk : Status
pause_bulk = do ignore stop_bulk; usleep 5000

unfoldable pub resume_bulk : Status
resume_bulk = do usleep 5000; ignore start_bulk

unfoldable pub retune : TunerType → ℕ → ℕ → Status
retune tuner_fc0012 freq_hz if_offset_hz = Session.set_freq freq_hz
retune _ freq_hz if_offset_hz = Codec.set_freq freq_hz if_offset_hz

abbrev pub request_freq : ℕ → Dev → Dev
request_freq f d = record d { tuning = record (d.tuning) { requested_freq_hz = f } }

-- `last_freq_result`, and `center_freq_hz` if the tuner took the frequency.
abbrev pub commit_freq : ℕ → Result (Unit {0}) → Dev → Dev
commit_freq f (ok _) d = record d {
  tuning = record (d.tuning) { center_freq_hz = f; last_freq_result = ok tt };
}
commit_freq f rc d = record d { tuning = record (d.tuning) { last_freq_result = rc } }

unfoldable pub set_frequency : ℕ → Status
set_frequency freq_hz = do
  modify (request_freq freq_hz)
  paused ← gets needs_bulk_pause
  when paused pause_bulk
  cls ← gets (λ d. d.tuner_class)
  offset ← gets (λ d. d.tuning.if_offset_hz)
  rc ← attempt (retune cls freq_hz offset)
  modify (commit_freq freq_hz rc)
  when paused resume_bulk
  return_code rc

abbrev pub request_rate : ℕ → Dev → Dev
request_rate r d = record d { tuning = record (d.tuning) { requested_rate_hz = r } }

abbrev pub commit_rate_result : Result (Unit {0}) → Dev → Dev
commit_rate_result rc d = record d { tuning = record (d.tuning) { last_rate_result = rc } }

-- `*actual_hz`
unfoldable pub set_sample_rate : ℕ → M ℕ
set_sample_rate rate_hz = do
  modify (request_rate rate_hz)
  rc ← attempt (Rate.set_sample_rate rate_hz)
  modify (commit_rate_result rc)
  return_code rc
  gets (λ d. d.tuning.sampling_rate_hz)

unfoldable pub apply_profile : Option GainProfile → Status
apply_profile none = fail err_param
apply_profile (some p) = do
  set_lna_gain (pos p.lna_index)
  set_mixer_gain (pos p.mixer_index)
  set_vga_gain (pos p.vga_index)

unfoldable pub r820t_apply_gain : ℤ → Status
r820t_apply_gain gain_tenth_db = apply_profile (select_gain_profile gain_tenth_db)

unfoldable pub r820t_apply_auto : Status
r820t_apply_auto = do
  set_lna_gain (negsuc 0)
  set_mixer_gain (negsuc 0)
  set_vga_gain (pos auto_vga_index)

unfoldable pub set_freq_correction : ℤ → Status
set_freq_correction ppm = modify (λ d. record d { freq_offset_ppm = ppm })

unfoldable pub set_digital_agc : Bool → Status
set_digital_agc enable = demod_write 0 0x0019 (if enable then 0x25 else 0x05)

-- `active_contract`: an R820T2 and an FC0013 have none.
abbrev pub has_contract : TunerType → Bool
has_contract tuner_r820t = true
has_contract tuner_fc0012 = true
has_contract _ = false

-- SDRGG_GAIN_AUTO is -1.
unfoldable pub apply_gain_policy : TunerType → ℤ → Status
apply_gain_policy tuner_r820t (negsuc zero) = r820t_apply_auto
apply_gain_policy tuner_r820t gain_tenth_db = r820t_apply_gain gain_tenth_db
apply_gain_policy tuner_fc0012 (negsuc zero) = Wire.set_auto_gain
apply_gain_policy tuner_fc0012 gain_tenth_db = Wire.set_gain gain_tenth_db
apply_gain_policy _ gain_tenth_db = fail err_param

abbrev pub commit_gain : ℤ → Result (Unit {0}) → Dev → Dev
commit_gain g (ok _) d = record d { tuning = record (d.tuning) { gain_policy = g } }
commit_gain g _ d = d

unfoldable pub run_gain_policy : ℤ → Status
run_gain_policy gain_tenth_db = do
  paused ← gets needs_bulk_pause
  when paused pause_bulk
  cls ← gets (λ d. d.tuner_class)
  rc ← attempt (apply_gain_policy cls gain_tenth_db)
  modify (commit_gain gain_tenth_db rc)
  when paused resume_bulk
  return_code rc

unfoldable pub set_gain : ℤ → Status
set_gain gain_tenth_db = do
  known ← gets (λ d. has_contract d.tuner_class)
  if known then run_gain_policy gain_tenth_db else fail err_param

unfoldable pub get_gain : M ℤ
get_gain = gets (λ d. d.tuning.gain_policy)
