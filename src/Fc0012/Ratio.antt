-- ===== src/Fc0012/Ratio.antt =====
-- Multiplier selection and the three stages of the PLL ratio.
use libsdrgg.Prelude.{
  ℕ, ◌+◌, ◌-◌, ◌*◌, ◌/◌, List, [], ◌∷◌, Bool, true, ◌&&◌, u8, u16, u32, sub64, bit_and, shl, shr,
  ltb, leb, ◌==◌, if◌then◌else◌, get_or,
}

abbrev pub multiplier_set : List ℕ
multiplier_set = 96 ∷ 64 ∷ 48 ∷ 32 ∷ 24 ∷ 16 ∷ 12 ∷ 8 ∷ 6 ∷ 4 ∷ []

abbrev pub num_multipliers : ℕ
num_multipliers = 10

abbrev pub vco_ceil_hz : ℕ
vco_ceil_hz = 3060000000

abbrev pub vco_bias_threshold : ℕ
vco_bias_threshold = 0xB6630B80

-- `multiplier_selection`
pub record MultiplierSelection : Type 0 where
  pub multiplier : ℕ
  pub multiplier_index : ℕ
  pub vco_hz : ℕ
  pub elevated_bias : Bool
  pub valid : Bool

abbrev pub lowest_multiplier : ℕ → MultiplierSelection
lowest_multiplier freq_hz = record {
  multiplier = 4;
  multiplier_index = num_multipliers - 1;
  vco_hz = freq_hz * 4;
  elevated_bias = true;
  valid = true;
}

-- The loop from index `i` on, and the fallback behind it.
unfoldable pub first_multiplier : ℕ → ℕ → List ℕ → MultiplierSelection
first_multiplier freq_hz i [] = lowest_multiplier freq_hz
first_multiplier freq_hz i (m ∷ ms) =
    let later = first_multiplier freq_hz (i + 1) ms in
    let vco = freq_hz * m in
    if ltb vco vco_ceil_hz
    then record {
      multiplier = m;
      multiplier_index = i;
      vco_hz = vco;
      elevated_bias = leb vco_bias_threshold vco;
      valid = true;
    }
    else later

unfoldable pub derive_multiplier : ℕ → MultiplierSelection
unfolding first_multiplier
derive_multiplier freq_hz = first_multiplier freq_hz 0 multiplier_set

abbrev pub div_base : List ℕ
div_base = 0x82 ∷ 0x82 ∷ 0x42 ∷ 0x42 ∷ 0x22 ∷ 0x22 ∷ 0x12 ∷ 0x12 ∷ 0x0A ∷ 0x0A ∷ []

unfoldable pub derive_divider_encoding : ℕ → ℕ
derive_divider_encoding mult_index =
    if ltb mult_index num_multipliers then get_or div_base mult_index 0 else 0x0A

unfoldable pub derive_bandwidth_base : ℕ → ℕ
derive_bandwidth_base mult_index = if bit_and mult_index 1 == 0 then 0x00 else 0x02

-- Stage 1.
-- `half_xtal` is not 0: `run_planned` tests it.
unfoldable pub compute_raw_ratio : ℕ → ℕ → ℕ
compute_raw_ratio vco_hz half_xtal =
    let total = u16 (vco_hz / half_xtal) in
    if leb (half_xtal / 2) (sub64 vco_hz (total * half_xtal)) then u16 (total + 1) else total

-- `pll_ratio_solution`
pub record RatioSolution : Type 0 where
  pub total_divider : ℕ
  pub n_quotient : ℕ
  pub a_remainder : ℕ
  pub frac_word : ℕ
  pub feasible : Bool

-- `n` and `a` after the minimum remainder; all are `uint8_t`.
unfoldable pub split_ratio : ℕ → ℕ × ℕ
split_ratio raw_total =
    let n = u8 (raw_total / 8) in
    let a = u8 (raw_total + 2048 - 8 * n) in if ltb a 2 then (u8 (n + 255), u8 (a + 8)) else (n, a)

unfoldable pub clamp_ratio : ℕ × ℕ → ℕ × ℕ
clamp_ratio (n, a) = if ltb 0x1F n then (0x1F, u8 (a + 8 * (n - 0x1F))) else (n, a)

-- `half_xtal / 1000` is not 0: `run_planned` tests it.
unfoldable pub frac_word_of : ℕ → ℕ → ℕ
frac_word_of vco_hz half_xtal =
    let integer_hz = vco_hz / half_xtal * half_xtal in
    let khz = u16 ((vco_hz - integer_hz) / 1000) in
    let frac_raw = u16 (u32 (shl khz 15) / (half_xtal / 1000)) in
    if leb 0x4000 frac_raw then u16 (frac_raw + 0x8000) else frac_raw

-- Stage 2.
unfoldable pub normalize_ratio : ℕ → ℕ → ℕ → RatioSolution
unfolding split_ratio clamp_ratio frac_word_of
normalize_ratio raw_total vco_hz half_xtal =
    let (n, a) = clamp_ratio (split_ratio raw_total) in
    record {
      total_divider = raw_total;
      n_quotient = n;
      a_remainder = a;
      frac_word = frac_word_of vco_hz half_xtal;
      feasible = leb a 0x0F && leb 0x0B n;
    }

-- `packed_pll_regs`, stage 3
pub record PackedPllRegs : Type 0 where
  pub reg_remainder : ℕ
  pub reg_quotient : ℕ
  pub reg_frac_msb : ℕ
  pub reg_frac_lsb : ℕ

unfoldable pub pack_ratio : RatioSolution → PackedPllRegs
pack_ratio sol = record {
  reg_remainder = sol.a_remainder;
  reg_quotient = sol.n_quotient;
  reg_frac_msb = u8 (shr sol.frac_word 8);
  reg_frac_lsb = bit_and sol.frac_word 0xFF;
}
