-- ===== src/Rtl/Rate.antt =====
-- `rtl::set_sample_rate` of sdrgg_rtl.cpp.
use libsdrgg.Prelude.{
  ℕ, ◌*◌, ◌/◌, ◌^◌, Bool, ◌&&◌, u32, bit_and, bit_or, shl, shr, ltb, leb, ◌==◌, if◌then◌else◌,
}
use libsdrgg.Types.{err_param, Dev, is_r820t_family}
use libsdrgg.Exec.{Status, fail, stuck, gets, modify, ◌>>=◌, ◌>>◌, when}
use libsdrgg.Rtl.Ppm.{correct_ppm}
use libsdrgg.Rtl.Transport.{submit_demod_write}
use libsdrgg.Rtl.Nco.{set_if_freq}
use libsdrgg.R820t.Bandwidth.{set_bandwidth}

abbrev pub rate_accepted : ℕ → Bool
rate_accepted rate_hz = leb 225000 rate_hz && leb rate_hz 3200000

-- `ratio`, after its mask
unfoldable pub resampler_ratio : ℕ → ℕ → ℕ
resampler_ratio xtal rate_hz = bit_and (u32 (xtal * 2 ^ 22 / rate_hz)) 0x0FFFFFFC

unfoldable pub effective_ratio : ℕ → ℕ
effective_ratio ratio = bit_or ratio (u32 (shl (bit_and ratio 0x08000000) 1))

unfoldable pub achieved_rate : ℕ → ℕ → ℕ
achieved_rate xtal ratio = u32 (xtal * 2 ^ 22 / effective_ratio ratio)

abbrev pub store_rate : ℕ → Dev → Dev
store_rate rate d = record d { tuning = record (d.tuning) { sampling_rate_hz = rate } }

abbrev pub corrected_xtal : Dev → ℕ
corrected_xtal d = correct_ppm d.oscillator_hz d.freq_offset_ppm

-- The division: by zero, the process dies.
unfoldable pub commit_rate : ℕ → ℕ → Status
commit_rate xtal ratio =
    if effective_ratio ratio == 0 then stuck else modify (store_rate (achieved_rate xtal ratio))

unfoldable pub update_bandwidth : Status
update_bandwidth = do
  rate ← gets (λ d. d.tuning.sampling_rate_hz)
  is_r820t ← gets (λ d. is_r820t_family d.tuner_class)
  when (is_r820t && leb 2000000 rate) (set_bandwidth (rate / 1000))

unfoldable pub emit_ratio : ℕ → Status
emit_ratio ratio = do
  submit_demod_write 1 0x9F (bit_and (shr ratio 16) 0xFFFF) 2
  submit_demod_write 1 0xA1 (bit_and ratio 0xFFFF) 2
  submit_demod_write 1 0x01 0x14 1
  submit_demod_write 1 0x01 0x10 1

unfoldable pub program_rate : ℕ → ℕ → Status
program_rate xtal ratio = do
  commit_rate xtal ratio
  update_bandwidth
  emit_ratio ratio
  offset ← gets (λ d. d.tuning.if_offset_hz)
  when (ltb 0 offset) (set_if_freq offset)

unfoldable pub set_sample_rate : ℕ → Status
set_sample_rate rate_hz = do
  xtal ← gets corrected_xtal
  if rate_accepted rate_hz then program_rate xtal (resampler_ratio xtal rate_hz) else fail err_param
