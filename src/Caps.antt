-- ===== src/Caps.antt =====
-- The capability tables of the tuners, sdrgg_tuner_caps.cpp and the ends of sdrgg_r820t.cpp and
-- sdrgg_fc0012.cpp, and their lookup in sdrgg_core.cpp. The names of chips and stages are left out.
pub mod Consistent
use libsdrgg.Prelude.{ℕ, List, [], ◌∷◌, Bool, true, false, Option, none, some, map}
use libsdrgg.Prelude.Int.{ℤ, pos, negsuc}
use libsdrgg.Types.{
  TunerType, tuner_unknown, tuner_r820t, tuner_r820t2, tuner_fc0012, tuner_fc0013, tuner_fc2580,
  tuner_e4000, err_nodev,
}
use libsdrgg.Exec.{M, pure, fail, gets, ◌>>=◌}
use libsdrgg.R820t.Gain.{lna_db, mixer_db}
use libsdrgg.Fc0012.Wire.{GainCapability, attenuation, higher_gain_states}

-- `gain_stage_info`; a NULL step table is an empty list.
pub record GainStage : Type 0 where
  pub min_tenth_db : ℤ
  pub max_tenth_db : ℤ
  pub num_steps : ℕ
  pub step_db : List ℤ

abbrev pub gain_stage : ℤ → ℤ → ℕ → List ℤ → GainStage
gain_stage lo hi n steps = record {
  min_tenth_db = lo;
  max_tenth_db = hi;
  num_steps = n;
  step_db = steps;
}

pub record FreqGap : Type 0 where
  pub start_hz : ℕ
  pub stop_hz : ℕ

-- `sdrgg_mixer_arch_t`
pub data MixerArch : Type 0 where
  mixer_low_if mixer_zero_if : MixerArch

-- `tuner_caps`; a NULL table is an empty list.
pub record TunerCaps : Type 0 where
  pub tuner_type : TunerType
  pub i2c_addr : ℕ
  pub i2c_reg_count : ℕ
  pub freq_min_hz : ℕ
  pub freq_max_hz : ℕ
  pub num_freq_gaps : ℕ
  pub freq_gaps : List FreqGap
  pub mixer_arch : MixerArch
  pub if_freq_hz : ℕ
  pub num_gain_stages : ℕ
  pub gain_stages : List GainStage
  pub total_gain_min_tenth_db : ℤ
  pub total_gain_max_tenth_db : ℤ
  pub has_separate_lna_control : Bool
  pub has_agc : Bool
  pub num_bw_options : ℕ
  pub bw_options : List ℕ
  pub default_bw_khz : ℕ
  pub pll_step_hz : ℕ
  pub has_fractional_pll : Bool
  pub xtal_freq_hz : ℕ
  pub implemented : Bool

abbrev pub r820t_gain_stages : List GainStage
r820t_gain_stages =
    gain_stage (pos 0) (pos 336) 16 lna_db
    ∷ gain_stage (pos 0) (pos 151) 16 mixer_db
    ∷ gain_stage (pos 0) (pos 525) 16 []
    ∷ []

abbrev pub r820t_bw_options : List ℕ
r820t_bw_options = 200 ∷ 300 ∷ 500 ∷ 1000 ∷ 1500 ∷ 2000 ∷ 3000 ∷ 5000 ∷ 7000 ∷ 8000 ∷ []

unfoldable pub r820t_caps : TunerCaps
r820t_caps = record {
  tuner_type = tuner_r820t;
  i2c_addr = 0x34;
  i2c_reg_count = 27;
  freq_min_hz = 24000000;
  freq_max_hz = 1766000000;
  num_freq_gaps = 0;
  freq_gaps = [];
  mixer_arch = mixer_low_if;
  if_freq_hz = 3570000;
  num_gain_stages = 3;
  gain_stages = r820t_gain_stages;
  total_gain_min_tenth_db = pos 0;
  total_gain_max_tenth_db = pos 496;
  has_separate_lna_control = true;
  has_agc = true;
  num_bw_options = 10;
  bw_options = r820t_bw_options;
  default_bw_khz = 6000;
  pll_step_hz = 1;
  has_fractional_pll = true;
  xtal_freq_hz = 28800000;
  implemented = true;
}

abbrev pub fc0012_gain_stages : List GainStage
fc0012_gain_stages = gain_stage (negsuc 98) (pos 192) 5 [] ∷ []

unfoldable pub fc0012_caps : TunerCaps
fc0012_caps = record {
  tuner_type = tuner_fc0012;
  i2c_addr = 0xC6;
  i2c_reg_count = 22;
  freq_min_hz = 22000000;
  freq_max_hz = 948600000;
  num_freq_gaps = 0;
  freq_gaps = [];
  mixer_arch = mixer_low_if;
  if_freq_hz = 0;
  num_gain_stages = 1;
  gain_stages = fc0012_gain_stages;
  total_gain_min_tenth_db = negsuc 98;
  total_gain_max_tenth_db = pos 192;
  has_separate_lna_control = false;
  has_agc = true;
  num_bw_options = 0;
  bw_options = [];
  default_bw_khz = 6000;
  pll_step_hz = 1;
  has_fractional_pll = true;
  xtal_freq_hz = 28800000;
  implemented = true;
}

abbrev pub fc0013_gain_stages : List GainStage
fc0013_gain_stages = gain_stage (negsuc 98) (pos 197) 6 [] ∷ []

unfoldable pub fc0013_caps : TunerCaps
fc0013_caps = record {
  tuner_type = tuner_fc0013;
  i2c_addr = 0xC6;
  i2c_reg_count = 21;
  freq_min_hz = 22000000;
  freq_max_hz = 1100000000;
  num_freq_gaps = 0;
  freq_gaps = [];
  mixer_arch = mixer_low_if;
  if_freq_hz = 0;
  num_gain_stages = 1;
  gain_stages = fc0013_gain_stages;
  total_gain_min_tenth_db = negsuc 98;
  total_gain_max_tenth_db = pos 197;
  has_separate_lna_control = false;
  has_agc = true;
  num_bw_options = 0;
  bw_options = [];
  default_bw_khz = 6000;
  pll_step_hz = 1;
  has_fractional_pll = true;
  xtal_freq_hz = 28800000;
  implemented = false;
}

abbrev pub fc2580_gain_stages : List GainStage
fc2580_gain_stages =
    gain_stage (pos 0) (pos 195) 5 []
    ∷ gain_stage (pos 0) (pos 120) 4 []
    ∷ gain_stage (pos 0) (pos 240) 16 []
    ∷ []

abbrev pub fc2580_bw_options : List ℕ
fc2580_bw_options = 1530 ∷ 6000 ∷ 7000 ∷ 8000 ∷ []

abbrev pub fc2580_gaps : List FreqGap
fc2580_gaps = record { start_hz = 308000000; stop_hz = 438000000 } ∷ []

unfoldable pub fc2580_caps : TunerCaps
fc2580_caps = record {
  tuner_type = tuner_fc2580;
  i2c_addr = 0xAC;
  i2c_reg_count = 46;
  freq_min_hz = 146000000;
  freq_max_hz = 924000000;
  num_freq_gaps = 1;
  freq_gaps = fc2580_gaps;
  mixer_arch = mixer_low_if;
  if_freq_hz = 0;
  num_gain_stages = 3;
  gain_stages = fc2580_gain_stages;
  total_gain_min_tenth_db = pos 0;
  total_gain_max_tenth_db = pos 555;
  has_separate_lna_control = true;
  has_agc = true;
  num_bw_options = 4;
  bw_options = fc2580_bw_options;
  default_bw_khz = 6000;
  pll_step_hz = 1;
  has_fractional_pll = true;
  xtal_freq_hz = 28800000;
  implemented = false;
}

abbrev pub e4000_gain_stages : List GainStage
e4000_gain_stages =
    gain_stage (negsuc 49) (pos 300) 14 []
    ∷ gain_stage (pos 0) (pos 120) 2 []
    ∷ gain_stage (pos 0) (pos 90) 2 []
    ∷ gain_stage (pos 0) (pos 90) 2 []
    ∷ gain_stage (pos 0) (pos 90) 2 []
    ∷ gain_stage (pos 0) (pos 90) 2 []
    ∷ gain_stage (pos 0) (pos 30) 2 []
    ∷ gain_stage (pos 0) (pos 30) 2 []
    ∷ []

abbrev pub e4000_bw_options : List ℕ
e4000_bw_options =
    2400 ∷ 4800 ∷ 5300 ∷ 7200 ∷ 8700 ∷ 10000 ∷ 12400 ∷ 14000 ∷ 17200 ∷ 20000 ∷ 22400 ∷ 28000 ∷ []

abbrev pub e4000_gaps : List FreqGap
e4000_gaps = record { start_hz = 1100000000; stop_hz = 1250000000 } ∷ []

unfoldable pub e4000_caps : TunerCaps
e4000_caps = record {
  tuner_type = tuner_e4000;
  i2c_addr = 0xC8;
  i2c_reg_count = 80;
  freq_min_hz = 52000000;
  freq_max_hz = 2200000000;
  num_freq_gaps = 1;
  freq_gaps = e4000_gaps;
  mixer_arch = mixer_zero_if;
  if_freq_hz = 0;
  num_gain_stages = 8;
  gain_stages = e4000_gain_stages;
  total_gain_min_tenth_db = negsuc 49;
  total_gain_max_tenth_db = pos 840;
  has_separate_lna_control = true;
  has_agc = true;
  num_bw_options = 12;
  bw_options = e4000_bw_options;
  default_bw_khz = 5300;
  pll_step_hz = 1;
  has_fractional_pll = true;
  xtal_freq_hz = 28800000;
  implemented = false;
}

unfoldable pub get_caps_by_type : TunerType → Option TunerCaps
get_caps_by_type tuner_r820t = some r820t_caps
get_caps_by_type tuner_r820t2 = some r820t_caps
get_caps_by_type tuner_fc0012 = some fc0012_caps
get_caps_by_type tuner_fc0013 = some fc0013_caps
get_caps_by_type tuner_fc2580 = some fc2580_caps
get_caps_by_type tuner_e4000 = some e4000_caps
get_caps_by_type tuner_unknown = none

abbrev pub known_caps : Option TunerCaps → M TunerCaps
known_caps (some c) = pure c
known_caps none = fail err_nodev

unfoldable pub get_tuner_caps : M TunerCaps
get_tuner_caps = do cls ← gets (λ d. d.tuner_class); known_caps (get_caps_by_type cls)

-- `fc0012::get_gains`
unfoldable pub get_gains : List ℤ
get_gains = map (λ g. g.floor_tenth_db) (attenuation ∷ higher_gain_states)
