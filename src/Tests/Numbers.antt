-- ===== src/Tests/Numbers.antt =====
-- The synthesis arithmetic at concrete inputs.
use libsdrgg.Prelude.{refl, [], ℕ, ◌+◌, ◌*◌, ◌/◌, ◌%◌, ◌≤◌, ◌<◌, true, some, ◌≡◌, ◌↔◌, ◌⊎◌, arith}
use libsdrgg.Prelude.Int.{pos, negsuc}
use libsdrgg.Types.{trap}
use libsdrgg.R820t.Codec.{choose_solution}
use libsdrgg.R820t.Pll.{
  enumerate_candidates, divided, enumerate_from, reference_khz, SynthRequest, PllSolution,
  PllEncoding, make_candidate, avoid_spurs, pack_pll_solution,
}
use libsdrgg.R820t.Synth.{make_candidate-sum, Decides, choose_solution-Decides, avoid_spurs-Steers}
use libsdrgg.R820t.Sdm.{pack_pll_solution-Unpacks}
use libsdrgg.R820t.Gain.{manual_gain_profiles, first_reaching}
use libsdrgg.R820t.GainLaw.{manual_gain-IsLeast, total_at, AddsUp}
use libsdrgg.Rtl.Nco.{set_if_freq}
use libsdrgg.Rtl.Exact.{IsComplement, write_nco, set_if_freq-bytes}
use libsdrgg.Tests.Devices.{quiet_host, device}
use libsdrgg.Fc0012.Ratio.{derive_multiplier, multiplier_set, normalize_ratio}
use libsdrgg.Fc0012.Law.{IsFirst, derive_multiplier-IsFirst, normalize_ratio-Splits}

-- 100 MHz with an IF of 3.57 MHz.
abbrev request : SynthRequest
request = record { target_hz = 103570000; reference_hz = 28800000; correction_ppm = pos 0 }

abbrev candidate : PllSolution
candidate = make_candidate 28800 5 3314240

make_candidate-sum_example :
    (candidate.n_integer * candidate.fractional_denom + candidate.fractional_num ≡ 3314240)
    × (candidate.fractional_num < candidate.fractional_denom)
make_candidate-sum_example =
    make_candidate-sum 28800 5 3314240 (omega arith) (omega arith) (omega arith)

choose_solution-Decides_example : Decides request
choose_solution-Decides_example = choose_solution-Decides request

abbrev fine : PllSolution
fine = record {
  divider_order = 1;
  vco_hz = 0;
  n_integer = 60;
  fractional_num = 28799;
  fractional_denom = 57600;
  is_fractional = true;
  in_vco_range = true;
  quality_score = 90;
}

avoid_spurs-Steers_example :
    ((avoid_spurs 28800 fine).0 * (2 * 28800) + (avoid_spurs 28800 fine).1
      ≤ 60 * (2 * 28800) + 28799 + 28800 / 64 + 1)
    × (60 * (2 * 28800) + 28799
        ≤ (avoid_spurs 28800 fine).0 * (2 * 28800) + (avoid_spurs 28800 fine).1 + 28800 / 64 + 1)
    × (((avoid_spurs 28800 fine).1 ≡ 0)
        ⊎ ((avoid_spurs 28800 fine).1 ≡ 28800)
        ⊎ (28800 / 64 ≤ (avoid_spurs 28800 fine).1)
          × ((avoid_spurs 28800 fine).1 ≤ 28800 * 127 / 128)
        ⊎ (28800 * 129 / 128 ≤ (avoid_spurs 28800 fine).1)
          × ((avoid_spurs 28800 fine).1 ≤ 28800 * 127 / 64))
avoid_spurs-Steers_example =
    avoid_spurs-Steers 28800 fine (omega arith) (omega arith) (omega arith) (omega arith)

pack_pll_solution-Unpacks_example :
    (enc : PllEncoding) × (pack_pll_solution fine 28800 ≡ some enc)
    × ((60 < 13) ⊎ (269 ≤ 60) ⊎ (4 * (enc.ni_si_packed % 64) + enc.ni_si_packed / 64 + 13 ≡ 60))
pack_pll_solution-Unpacks_example = pack_pll_solution-Unpacks fine 28800 (omega arith)

manual_gain-IsLeast_example :
    let p = first_reaching (pos 300) manual_gain_profiles in
    (300 ≤ p.total_tenth_db) × (p.total_tenth_db ≤ total_at manual_gain_profiles 20) × AddsUp p
manual_gain-IsLeast_example = manual_gain-IsLeast 300 20 (omega arith) (omega arith)

set_if_freq-bytes_example :
    (high : ℕ) × (mid : ℕ) × (low : ℕ) × IsComplement 28800000 3570000 high mid low
    × (set_if_freq 3570000 quiet_host (device [])
        ≡ write_nco high mid low 3570000 quiet_host (device []))
set_if_freq-bytes_example = set_if_freq-bytes 3570000 quiet_host (device []) (omega arith)

derive_multiplier-IsFirst_example :
    (j : ℕ) × IsFirst 100000000 0 multiplier_set (derive_multiplier 100000000) j
derive_multiplier-IsFirst_example = derive_multiplier-IsFirst 100000000 (omega arith)

normalize_ratio-Splits_example :
    (8 * (normalize_ratio 166 2400000000 14400000).n_quotient
        + (normalize_ratio 166 2400000000 14400000).a_remainder
      ≡ 166)
    × ((normalize_ratio 166 2400000000 14400000).n_quotient ≤ 31)
    × (2 ≤ (normalize_ratio 166 2400000000 14400000).a_remainder)
    × (((normalize_ratio 166 2400000000 14400000).feasible ≡ true) ↔ ((90 ≤ 166) × (166 ≤ 263)))
normalize_ratio-Splits_example =
    normalize_ratio-Splits 166 2400000000 14400000 (omega arith) (omega arith)

-- A correction of -1000000 leaves no reference, and the process dies.
no_reference : choose_solution (record request { correction_ppm = negsuc 999999 }) ≡ trap
unfolding choose_solution enumerate_candidates divided enumerate_from reference_khz
no_reference = refl
