-- ===== src/R820t/Pll.antt =====
-- PLL synthesis: candidates, spur avoidance, ranking and packing.
use libsdrgg.Prelude.{
  ℕ, zero, suc, ◌+◌, ◌-◌, ◌*◌, ◌/◌, ◌^◌, List, [], ◌∷◌, ◌++◌, map, Bool, true, not, ◌&&◌, Option,
  none, some, length, u8, u16, u32, sub32, sub64, shl, shr, bit_and, bit_or, ltb, leb, ◌==◌,
  if◌then◌else◌,
}
use libsdrgg.Prelude.Int.{ℤ}
use libsdrgg.Rtl.Ppm.{correct_ppm}
use libsdrgg.R820t.Addr
use libsdrgg.R820t.Intents.{RegIntent, iseq_push_full, iseq_push_field}

-- `synth_request`
pub record SynthRequest : Type 0 where
  pub target_hz : ℕ
  pub reference_hz : ℕ
  pub correction_ppm : ℤ

-- `pll_solution`; `quality_score` is never negative here.
pub record PllSolution : Type 0 where
  pub divider_order : ℕ
  pub vco_hz : ℕ
  pub n_integer : ℕ
  pub fractional_num : ℕ
  pub fractional_denom : ℕ
  pub is_fractional : Bool
  pub in_vco_range : Bool
  pub quality_score : ℕ

abbrev pub max_pll_candidates : ℕ
max_pll_candidates = 6

abbrev pub vco_floor_khz : ℕ
vco_floor_khz = 1770000

abbrev pub vco_ceil_khz : ℕ
vco_ceil_khz = 3540000

-- The reference in kHz after correction, as `enumerate_candidates` and `set_pll` compute it.
unfoldable pub reference_khz : SynthRequest → ℕ
unfolding correct_ppm
reference_khz req = correct_ppm (req.reference_hz / 1000) req.correction_ppm

-- One candidate, with a divisor that is not 0: `enumerate_candidates` tests it.
unfoldable pub make_candidate : ℕ → ℕ → ℕ → PllSolution
make_candidate pll_ref_khz order vco_khz =
    let twice = u32 (2 * pll_ref_khz) in
    let n = u32 (vco_khz / twice) in
    let frac = u32 (sub64 vco_khz (2 * pll_ref_khz * n)) in
    record {
      divider_order = order;
      vco_hz = u32 (vco_khz * 1000);
      n_integer = n;
      fractional_num = frac;
      fractional_denom = twice;
      is_fractional = not (frac == 0);
      in_vco_range = true;
      quality_score = 100 - order * 10;
    }

abbrev pub in_window : ℕ → Bool
in_window vco_khz = leb vco_floor_khz vco_khz && ltb vco_khz vco_ceil_khz

-- The rounds `order`, `order + 1`, …, as many as the first number says, after `found`.
unfoldable pub enumerate_from : ℕ → ℕ → ℕ → ℕ → List PllSolution → List PllSolution
enumerate_from zero pll_ref_khz target_khz order found = found
enumerate_from (suc rounds) pll_ref_khz target_khz order found =
    let vco_khz = target_khz * 2 ^ order in
    let more = found ++ make_candidate pll_ref_khz order vco_khz ∷ [] in
    let after_hit = enumerate_from rounds pll_ref_khz target_khz (order + 1) more in
    let after_miss = enumerate_from rounds pll_ref_khz target_khz (order + 1) found in
    if in_window vco_khz
    then (if leb max_pll_candidates (length more) then more else after_hit)
    else after_miss

-- `2 * pll_ref_khz`, which the code divides by: 0 where the correction leaves no reference.
abbrev pub divisor_of : SynthRequest → ℕ
divisor_of req = u32 (2 * reference_khz req)

-- A list of candidates needs a division for each: `none` is a division by zero.
unfoldable pub divided : ℕ → List PllSolution → Option (List PllSolution)
divided twice [] = some []
divided twice (c ∷ cs) = if twice == 0 then none else some (c ∷ cs)

-- Divider orders 1 to 6. The code divides in the first round that is in the window; a round outside
-- it divides by nothing.
unfoldable pub enumerate_candidates : SynthRequest → Option (List PllSolution)
unfolding divided
enumerate_candidates req =
    divided (divisor_of req) (enumerate_from 6 (reference_khz req) (req.target_hz / 1000) 1 [])

-- `zone_near`, `zone_far`, `zone_below` and `zone_above`.
unfoldable pub avoid_spurs : ℕ → PllSolution → ℕ × ℕ
avoid_spurs ref sol =
    let frac = sol.fractional_num in
    let zone_near = ref / 64 in
    let zone_far = u32 (ref * 127) / 64 in
    let zone_below = u32 (ref * 127) / 128 in
    let zone_above = u32 (ref * 129) / 128 in
    if ltb frac zone_near
    then (sol.n_integer, 0)
    else if ltb zone_far frac
    then (u32 (sol.n_integer + 1), 0)
    else if ltb zone_below frac && ltb frac ref
    then (sol.n_integer, zone_below)
    else if ltb ref frac && ltb frac zone_above
    then (sol.n_integer, zone_above)
    else (sol.n_integer, frac)

unfoldable pub normalize_candidate : ℕ → PllSolution → PllSolution
unfolding avoid_spurs
normalize_candidate ref sol =
    let (n, frac) = avoid_spurs ref sol in
    record sol {
      n_integer = n;
      fractional_num = frac;
      is_fractional = not (frac == 0);
      quality_score = if frac == 0 then sol.quality_score + 20 else sol.quality_score;
    }

unfoldable pub normalize_spur_avoidance : List PllSolution → ℕ → List PllSolution
normalize_spur_avoidance candidates ref = map (normalize_candidate ref) candidates

unfoldable pub best_of : PllSolution → List PllSolution → PllSolution
best_of best [] = best
best_of best (c ∷ cs) = best_of (if ltb best.quality_score c.quality_score then c else best) cs

unfoldable pub rank_and_select : List PllSolution → Option PllSolution
unfolding best_of
rank_and_select [] = none
rank_and_select (c ∷ cs) = some (best_of c cs)

-- The SDM loop: `accumulator`, `weight` and `residual`. `none` is a division by zero (`weight` is a
-- `uint16_t` and can be shifted out), or the end of the fuel.
unfoldable pub sdm_loop : ℕ → ℕ → ℕ → ℕ → ℕ → Option ℕ
sdm_loop zero ref acc weight residual = none
sdm_loop (suc fuel) ref acc weight residual =
    let part = u32 (2 * ref) / weight in
    let taken = u16 (acc + 0x8000 / (weight / 2)) in
    let next = u16 (shl weight 1) in
    let after_take = sdm_loop fuel ref taken next (residual - part) in
    let after_skip = sdm_loop fuel ref acc next residual in
    if leb residual 1
    then some acc
    else if weight == 0
    then none
    else if ltb part residual
    then (if leb 0x8000 weight then some taken else after_take)
    else after_skip

-- `pll_encoding`
pub record PllEncoding : Type 0 where
  pub div_field : ℕ
  pub ni_si_packed : ℕ
  pub mode_field : ℕ
  pub sdm_hi : ℕ
  pub sdm_lo : ℕ

unfoldable pub pack_ni_si : ℕ → ℕ
pack_ni_si n_integer =
    let ni = u8 (sub32 n_integer 13 / 4) in
    let si = u8 (sub32 (sub32 n_integer (4 * ni)) 13) in bit_or ni (u8 (shl si 6))

abbrev pub sdm_word : PllSolution → ℕ → Option ℕ
sdm_word sol ref = if sol.is_fractional then sdm_loop 17 ref 0 2 sol.fractional_num else some 0

-- The encoding of a solution, once the loop has given its word.
abbrev pub pack_with : PllSolution → ℕ → PllEncoding
pack_with sol accumulator = record {
  div_field = u8 (shl (sol.divider_order - 1) 5);
  ni_si_packed = pack_ni_si sol.n_integer;
  mode_field = if sol.is_fractional then 0x00 else 0x08;
  sdm_hi = u8 (shr accumulator 8);
  sdm_lo = bit_and accumulator 0xFF;
}

unfoldable pub pack_pll_solution : PllSolution → ℕ → Option PllEncoding
pack_pll_solution sol ref = elim (sdm_word sol ref) [
  | none ↦ none
  | some accumulator ↦ some (pack_with sol accumulator)
]

unfoldable pub compose_synth_intents : PllEncoding → List RegIntent
unfolding iseq_push_full iseq_push_field
compose_synth_intents enc =
    let s0 = iseq_push_field [] Addr.mux_routing 0x00 0x0C in
    let s1 = iseq_push_field s0 Addr.vco_drive 0x80 0xE0 in
    let s2 = iseq_push_field s1 Addr.xdiv_pll enc.div_field 0xE0 in
    let s3 = iseq_push_full s2 Addr.pll_word enc.ni_si_packed in
    let s4 = iseq_push_field s3 Addr.vco_drive enc.mode_field 0x08 in
    let s5 = iseq_push_full s4 Addr.sdm_frac_hi enc.sdm_hi in
    iseq_push_full s5 Addr.sdm_frac_lo enc.sdm_lo
