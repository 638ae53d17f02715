-- ===== src/R820t/Synth.antt =====
-- The PLL synthesis of the R820T against independent descriptions.
use libsdrgg.Prelude.{
  ℕ, ◌+◌, ◌-◌, ◌*◌, ◌/◌, ◌%◌, ◌^◌, ◌≤◌, ◌<◌, [], ◌∷◌, ◌≡◌, ◌≢◌, refl, ◌∙◌, ap, ◌⊎◌, inl, inr, arith,
  u8, u32, sub32, sub64, shl, or_shl, le_or_lt, false, ◌==◌, List, none, some, if◌then◌else◌,
}
use libsdrgg.Types.{Result, ok, err, trap, err_pll}
use libsdrgg.R820t.Pll.{
  SynthRequest, PllSolution, make_candidate, enumerate_from, enumerate_candidates, divided,
  divisor_of, reference_khz, avoid_spurs, normalize_candidate, pack_ni_si, rank_and_select, best_of,
  normalize_spur_avoidance, vco_floor_khz, vco_ceil_khz,
}
use libsdrgg.R820t.Codec.{select_from, choose_solution}
use native.Mathlib.Nat.{mul_comm, mul-add, div-add-mod, div-add-mod', mod-lt, div-le_self}

-- For an integer part from 13 to 268, the two fields of the packed byte give it back as 4 NI + SI
-- + 13.
pub pack_ni_si-unpacks :
    (n : ℕ) → 13 ≤ n → n < 269 → 4 * (pack_ni_si n % 64) + pack_ni_si n / 64 + 13 ≡ n
unfolding pack_ni_si
pack_ni_si-unpacks n low high =
    let ni : ℕ = (n - 13) / 4 in
    let si : ℕ = n - 13 - 4 * ni in
    let lows : u8 (sub32 n 13 / 4) ≡ ni = omega arith in
    let highs : u8 (shl (u8 (sub32 (sub32 n (4 * ni)) 13)) 6) ≡ si * 2 ^ 6 = omega arith in
    let packed : pack_ni_si n ≡ ni + si * 2 ^ 6 =
      rw (lows, highs, pack_ni_si) (or_shl 6 ni si (omega arith)) in
    omega (arith, packed)

-- For a reference above 0 and below 2^31 kHz and a VCO below 2^32 kHz, a candidate's integer part
-- times its denominator and its fraction add up to the VCO frequency, and the fraction is below
-- the denominator.
pub make_candidate-sum :
    (ref order vco : ℕ)
    → 0 < ref
    → ref < 2 ^ 31
    → vco < 2 ^ 32
    → let c = make_candidate ref order vco in
      (c.n_integer * c.fractional_denom + c.fractional_num ≡ vco)
      × (c.fractional_num < c.fractional_denom)
unfolding make_candidate
make_candidate-sum ref order vco pos small bound =
    let twice : u32 (2 * ref) ≡ 2 * ref = omega arith in
    let quotient : u32 (vco / (2 * ref)) ≡ vco / (2 * ref) =
      omega (arith, div-le_self vco (2 * ref)) in
    let whole : 2 * ref * (vco / (2 * ref)) + vco % (2 * ref) ≡ vco = div-add-mod vco (2 * ref) in
    let less : vco % (2 * ref) < 2 * ref = mod-lt vco (omega arith) in
    let rest : u32 (sub64 vco (2 * ref * (vco / (2 * ref)))) ≡ vco % (2 * ref) = omega arith in
    rw (twice, quotient, rest) (div-add-mod' vco (2 * ref), less)

-- One divider order in 1, …, 6 brings the target into the VCO's window, and it is the one
-- candidate.
pub enumerate-one :
    (ref t : ℕ)
    → 27657 ≤ t
    → t < 1770000
    → (order : ℕ) × (1 ≤ order)
      × (order ≤ 6)
      × (vco_floor_khz ≤ t * 2 ^ order)
      × (t * 2 ^ order < vco_ceil_khz)
      × (enumerate_from 6 ref t 1 [] ≡ make_candidate ref order (t * 2 ^ order) ∷ [])
unfolding enumerate_from
enumerate-one ref t low high = elim (le_or_lt 885000 t) [
  | inl h ↦ (1, omega arith, omega arith, omega arith, omega arith, ground arith)
  | inr h1 ↦ elim (le_or_lt 442500 t) [
    | inl h ↦ (2, omega arith, omega arith, omega arith, omega arith, ground arith)
    | inr h2 ↦ elim (le_or_lt 221250 t) [
      | inl h ↦ (3, omega arith, omega arith, omega arith, omega arith, ground arith)
      | inr h3 ↦ elim (le_or_lt 110625 t) [
        | inl h ↦ (4, omega arith, omega arith, omega arith, omega arith, ground arith)
        | inr h4 ↦ elim (le_or_lt 55313 t) [
          | inl h ↦ (5, omega arith, omega arith, omega arith, omega arith, ground arith)
          | inr h5 ↦ (6, omega arith, omega arith, omega arith, omega arith, ground arith)
        ]
      ]
    ]
  ]
]

pub enumerate-none : (ref t : ℕ) → (t < 27657) ⊎ (1770000 ≤ t) → enumerate_from 6 ref t 1 [] ≡ []
unfolding enumerate_from
enumerate-none ref t (inl h) = ground arith
enumerate-none ref t (inr h) = ground arith

mul_plus_one : (n m : ℕ) → (n + 1) * m ≡ n * m + m
mul_plus_one n m = omega (arith, mul_comm (n + 1) m, mul_comm n m, mul-add m n 1)

-- The integer part stays, or the fraction is rounded up to the next integer.
avoid_spurs-cases :
    (ref : ℕ) (sol : PllSolution)
    → 128 ≤ ref
    → ref < 2 ^ 24
    → sol.n_integer < 2 ^ 31
    → sol.fractional_num < 2 * ref
    → let (n, frac) = avoid_spurs ref sol in
      (n ≡ sol.n_integer)
        × (frac ≤ sol.fractional_num + ref / 64 + 1)
        × (sol.fractional_num ≤ frac + ref / 64 + 1)
      ⊎ (n ≡ sol.n_integer + 1) × (frac ≡ 0) × (2 * ref ≤ sol.fractional_num + ref / 64 + 1)
unfolding avoid_spurs
avoid_spurs-cases ref sol low high small frac = ground arith

-- For a reference from 128 to below 2^24 kHz, an integer part below 2^31 and a fraction below
-- twice the reference, spur avoidance moves the VCO by at most a 64th of the reference and 1 kHz.
avoid_spurs-near :
    (ref : ℕ) (sol : PllSolution)
    → 128 ≤ ref
    → ref < 2 ^ 24
    → sol.n_integer < 2 ^ 31
    → sol.fractional_num < 2 * ref
    → let before = sol.n_integer * (2 * ref) + sol.fractional_num in
      let (n, frac) = avoid_spurs ref sol in
      (n * (2 * ref) + frac ≤ before + ref / 64 + 1)
      × (before ≤ n * (2 * ref) + frac + ref / 64 + 1)
avoid_spurs-near ref sol low high small frac =
    let next : (n : ℕ) → (n + 1) * (2 * ref) ≡ n * (2 * ref) + 2 * ref =
      λ n. mul_plus_one n (2 * ref) in
    elim (avoid_spurs-cases ref sol low high small frac) [
      | inl (same, lo, hi) ↦
          let product : (avoid_spurs ref sol).0 * (2 * ref) ≡ sol.n_integer * (2 * ref) =
            ap (λ n. n * (2 * ref)) same in
          (omega arith, omega arith)
      | inr (up, gone, lo) ↦
          let product : (avoid_spurs ref sol).0 * (2 * ref) ≡ sol.n_integer * (2 * ref) + 2 * ref =
            ap (λ n. n * (2 * ref)) up ∙ next sol.n_integer in
          (omega arith, omega arith)
    ]

-- Under the same bounds, the fraction that spur avoidance leaves is 0, is the reference itself, or
-- lies outside the zones round 0, the reference and its double.
avoid_spurs-clear :
    (ref : ℕ) (sol : PllSolution)
    → 128 ≤ ref
    → ref < 2 ^ 24
    → sol.fractional_num < 2 * ref
    → let (n, frac) = avoid_spurs ref sol in
      (frac ≡ 0)
      ⊎ (frac ≡ ref)
      ⊎ (ref / 64 ≤ frac) × (frac ≤ ref * 127 / 128)
      ⊎ (ref * 129 / 128 ≤ frac) × (frac ≤ ref * 127 / 64)
unfolding avoid_spurs
avoid_spurs-clear ref sol low high frac = ground arith

-- For a reference from 128 to below 2^24 kHz, an integer part below 2^31 and a fraction below
-- twice the reference, spur avoidance moves the VCO by at most a 64th of the reference and 1 kHz,
-- and the fraction that it leaves is 0, is the reference itself, or lies outside the zones round
-- 0, the reference and its double.
pub avoid_spurs-Steers :
    (ref : ℕ) (sol : PllSolution)
    → 128 ≤ ref
    → ref < 2 ^ 24
    → sol.n_integer < 2 ^ 31
    → sol.fractional_num < 2 * ref
    → let before = sol.n_integer * (2 * ref) + sol.fractional_num in
      let (n, frac) = avoid_spurs ref sol in
      (n * (2 * ref) + frac ≤ before + ref / 64 + 1)
      × (before ≤ n * (2 * ref) + frac + ref / 64 + 1)
      × ((frac ≡ 0)
          ⊎ (frac ≡ ref)
          ⊎ (ref / 64 ≤ frac) × (frac ≤ ref * 127 / 128)
          ⊎ (ref * 129 / 128 ≤ frac) × (frac ≤ ref * 127 / 64))
avoid_spurs-Steers ref sol low high small frac =
    let (above, below) = avoid_spurs-near ref sol low high small frac in
    (above, below, avoid_spurs-clear ref sol low high frac)

not_zero : (n : ℕ) → 0 < n → (n == 0) ≡ false
not_zero n pos = ground arith

-- The candidate of a divider order from 1 to 6 that brings the VCO into its window.
abbrev pub OneOrder : ℕ → ℕ → (PllSolution → Type 0) → Type 0
OneOrder ref lo P =
    (order : ℕ) × (1 ≤ order)
    × (order ≤ 6)
    × (vco_floor_khz ≤ lo * 2 ^ order)
    × (lo * 2 ^ order < vco_ceil_khz)
    × P (normalize_candidate ref (make_candidate ref order (lo * 2 ^ order)))

-- The choice from a list of hits.
abbrev from_list : SynthRequest → List PllSolution → Result PllSolution
from_list req cs = select_from (reference_khz req) (divided (divisor_of req) cs)

from_list-one :
    (req : SynthRequest) (c : PllSolution)
    → 0 < divisor_of req
    → from_list req (c ∷ []) ≡ ok (normalize_candidate (reference_khz req) c)
unfolding divided normalize_spur_avoidance rank_and_select best_of
from_list-one req c pos =
    ap (λ b. select_from (reference_khz req) (if b then none else some (c ∷ []))) (not_zero _ pos)

from_list-zero :
    (req : SynthRequest) (c : PllSolution) → divisor_of req ≡ 0 → from_list req (c ∷ []) ≡ trap
unfolding divided
from_list-zero req c e =
    ap (λ n. select_from (reference_khz req) (if n == 0 then none else some (c ∷ []))) e

choose_solution_lem :
    (req : SynthRequest)
    → choose_solution req
      ≡ from_list req (enumerate_from 6 (reference_khz req) (req.target_hz / 1000) 1 [])
unfolding choose_solution enumerate_candidates
choose_solution_lem req = refl

-- For an LO from 27657 kHz to below 1770000 kHz and a divisor that is not 0, the synthesis chooses
-- the candidate of a divider order from 1 to 6 that brings the VCO into its window, normalised.
choose_solution-found :
    (req : SynthRequest)
    → 27657 ≤ req.target_hz / 1000
    → req.target_hz / 1000 < 1770000
    → 0 < divisor_of req
    → OneOrder (reference_khz req) (req.target_hz / 1000) (λ sol. choose_solution req ≡ ok sol)
choose_solution-found req low high pos =
    let (order, at_least, at_most, above, below, one) =
      enumerate-one (reference_khz req) (req.target_hz / 1000) low high in
    (
      order,
      at_least,
      at_most,
      above,
      below,
      choose_solution_lem req ∙ ap (from_list req) one ∙ from_list-one req _ pos,
    )

-- With a divisor of 0 the process dies there.
choose_solution-dies :
    (req : SynthRequest)
    → 27657 ≤ req.target_hz / 1000
    → req.target_hz / 1000 < 1770000
    → divisor_of req ≡ 0
    → choose_solution req ≡ trap
choose_solution-dies req low high zero_divisor =
    let (order, at_least, at_most, above, below, one) =
      enumerate-one (reference_khz req) (req.target_hz / 1000) low high in
    choose_solution_lem req ∙ ap (from_list req) one ∙ from_list-zero req _ zero_divisor

-- For an LO below 27657 kHz or from 1770000 kHz on, the synthesis finds no solution, and does not
-- divide.
choose_solution-none :
    (req : SynthRequest)
    → (req.target_hz / 1000 < 27657) ⊎ (1770000 ≤ req.target_hz / 1000)
    → choose_solution req ≡ err err_pll
unfolding divided normalize_spur_avoidance rank_and_select
choose_solution-none req out =
    choose_solution_lem req
    ∙ ap (from_list req) (enumerate-none (reference_khz req) (req.target_hz / 1000) out)

-- What the synthesis gives.
abbrev pub Decides : SynthRequest → Type 0
Decides req =
    let lo = req.target_hz / 1000 in
    ((27657 ≤ lo)
      × (lo < 1770000)
      × (0 < divisor_of req)
      × OneOrder (reference_khz req) lo (λ sol. choose_solution req ≡ ok sol))
    ⊎ ((27657 ≤ lo) × (lo < 1770000) × (divisor_of req ≡ 0) × (choose_solution req ≡ trap))
    ⊎ ((lo < 27657) ⊎ (1770000 ≤ lo)) × (choose_solution req ≡ err err_pll)

-- For an LO from 27657 kHz to below 1770000 kHz the synthesis finds a solution if twice the
-- corrected reference in kHz is not 0 modulo 2^32, the candidate of a divider order from 1 to 6
-- that brings the VCO into its window, normalised; if it is 0, the process dies of a division by
-- zero. For any other LO the result is SDRGG_ERR_PLL.
pub choose_solution-Decides : (req : SynthRequest) → Decides req
choose_solution-Decides req = elim (le_or_lt 27657 (req.target_hz / 1000)) [
  | inl low ↦ elim (le_or_lt 1770000 (req.target_hz / 1000)) [
    | inl above ↦ inr (inr (inr above, choose_solution-none req (inr above)))
    | inr high ↦ elim (le_or_lt 1 (divisor_of req)) [
      | inl pos ↦ inl (low, high, pos, choose_solution-found req low high pos)
      | inr least ↦
          let gone : divisor_of req ≡ 0 = omega arith in
          inr (inl (low, high, gone, choose_solution-dies req low high gone))
    ]
  ]
  | inr under ↦ inr (inr (inl under, choose_solution-none req (inl under)))
]

-- With a divisor above 0 the synthesis does not divide by zero.
pub choose_solution-returns : (req : SynthRequest) → 0 < divisor_of req → choose_solution req ≢ trap
choose_solution-returns req pos dies = elim (choose_solution-Decides req) [
  | inl (low, high, live, hit) ↦
      let (order, at_least, at_most, above, below, found) = hit in absurd (cc)
  | inr (inl (low, high, gone, same)) ↦ absurd (omega arith)
  | inr (inr (out, missed)) ↦ absurd (cc)
]
