-- ===== src/R820t/Sdm.antt =====
-- The loop of the sigma-delta word in `pack_pll_solution`.
use libsdrgg.Prelude.{
  ℕ, zero, suc, ◌+◌, ◌-◌, ◌*◌, ◌/◌, ◌%◌, ◌^◌, ◌≤◌, ◌<◌, ◌≡◌, refl, ◌∙◌, sym, ap, ◌⊎◌, inl, inr,
  arith, u16, u32, shl, pow_pos, Bool-cases, le_or_lt, some,
}
use libsdrgg.R820t.Pll.{
  PllSolution, PllEncoding, sdm_loop, sdm_word, pack_with, pack_pll_solution, pack_ni_si,
}
use libsdrgg.R820t.Synth.{pack_ni_si-unpacks}
use native.Mathlib.Nat.{pow-suc, mul-le-mul_left, mul-one}

-- One round of the SDM loop at a power of two, and what it goes on with.
sdm_round :
    (fuel ref acc w residual : ℕ)
    → 0 < w
    → (sdm_loop (suc fuel) ref acc w residual ≡ some acc)
      ⊎ (sdm_loop (suc fuel) ref acc w residual ≡ some (u16 (acc + 0x8000 / (w / 2))))
      ⊎ (w < 0x8000)
        × (sdm_loop (suc fuel) ref acc w residual
            ≡ sdm_loop fuel ref
                (u16 (acc + 0x8000 / (w / 2)))
                (u16 (shl w 1))
                (residual - u32 (2 * ref) / w))
      ⊎ (1 < residual)
        × (residual ≤ u32 (2 * ref) / w)
        × (sdm_loop (suc fuel) ref acc w residual ≡ sdm_loop fuel ref acc (u16 (shl w 1)) residual)
unfolding sdm_loop
sdm_round fuel ref acc w residual live = ground arith

left_pos : (a b : ℕ) → 0 < a * b → 0 < a
left_pos zero b h = absurd (omega arith)
left_pos (suc a) b h = omega arith

double_fits : (j w : ℕ) → w * 2 * 2 ^ j ≡ 0x8000 → u16 (shl w 1) ≡ w * 2
double_fits j w h = omega (arith, mul-le-mul_left (w * 2) (pow_pos j), mul-one (w * 2))

-- With fuel for the shifts that are left, the loop gives a word: at the last weight it always takes.
sdm_loop-returns :
    (j fuel ref acc w residual : ℕ)
    → j < fuel
    → w * 2 ^ j ≡ 0x8000
    → ref < 2 ^ 15
    → (word : ℕ) × (sdm_loop fuel ref acc w residual ≡ some word)
sdm_loop-returns j zero ref acc w residual run weight small = absurd (omega arith)
sdm_loop-returns zero (suc fuel) ref acc w residual run weight small =
    elim (sdm_round fuel ref acc w residual (omega arith)) [
      | inl done ↦ (_, done)
      | inr (inl taken) ↦ (_, taken)
      | inr (inr (inl (less, go))) ↦ absurd (omega arith)
      | inr (inr (inr (more, under, go))) ↦
          let top : w ≡ 0x8000 = omega arith in
          let part : u32 (2 * ref) / w ≡ u32 (2 * ref) / 0x8000 = ap (λ x. u32 (2 * ref) / x) top in
          absurd (omega arith)
    ]
sdm_loop-returns (suc j) (suc fuel) ref acc w residual run weight small =
    let power : w * 2 ^ suc j ≡ w * 2 * 2 ^ j =
      omega (arith, ap (λ (t : ℕ). w * t) (pow-suc 2 j)) in
    let next : u16 (shl w 1) * 2 ^ j ≡ 0x8000 =
      ap (λ x. x * 2 ^ j) (double_fits j w (sym power ∙ weight)) ∙ sym power ∙ weight in
    elim (sdm_round fuel ref acc w residual (left_pos w (2 ^ suc j) (omega arith))) [
      | inl done ↦ (_, done)
      | inr (inl taken) ↦ (_, taken)
      | inr (inr (inl (less, go))) ↦
          let (word, found) = sdm_loop-returns j fuel ref _ _ _ (omega arith) next small in
          (word, go ∙ found)
      | inr (inr (inr (more, under, go))) ↦
          let (word, found) = sdm_loop-returns j fuel ref _ _ _ (omega arith) next small in
          (word, go ∙ found)
    ]

sdm_word-returns :
    (sol : PllSolution) (ref : ℕ) → ref < 2 ^ 15 → (word : ℕ) × (sdm_word sol ref ≡ some word)
sdm_word-returns sol ref small = elim (Bool-cases (sol.is_fractional)) [
  | inl frac ↦
      let (word, found) =
        sdm_loop-returns 14 17 ref 0 2 sol.fractional_num (omega arith) (omega arith) small in
      (word, rw (frac, sdm_word) found)
  | inr whole ↦ (0, rw (whole, sdm_word) refl)
]

-- With a reference below 2^15 kHz, every solution is packed: the loop of the sigma-delta word ends
-- and its division is never by zero.
pub pack_pll_solution-returns :
    (sol : PllSolution) (ref : ℕ)
    → ref < 2 ^ 15
    → (enc : PllEncoding) × (pack_pll_solution sol ref ≡ some enc)
unfolding pack_pll_solution
pack_pll_solution-returns sol ref small =
    let (word, found) = sdm_word-returns sol ref small in
    (pack_with sol word, rw (found, pack_pll_solution) refl)

-- With a reference below 2^15 kHz, every solution is packed: the loop of the sigma-delta word ends
-- and its division is never by zero; and an integer part from 13 to 268 is 4 NI + SI + 13 of the
-- two fields of its packed byte.
pub pack_pll_solution-Unpacks :
    (sol : PllSolution) (ref : ℕ)
    → ref < 2 ^ 15
    → (enc : PllEncoding) × (pack_pll_solution sol ref ≡ some enc)
      × ((sol.n_integer < 13)
          ⊎ (269 ≤ sol.n_integer)
          ⊎ (4 * (enc.ni_si_packed % 64) + enc.ni_si_packed / 64 + 13 ≡ sol.n_integer))
unfolding pack_pll_solution
pack_pll_solution-Unpacks sol ref small =
    let (word, found) = sdm_word-returns sol ref small in
    (pack_with sol word, rw (found, pack_pll_solution) refl, unpacked)
  where
    unpacked :
        (sol.n_integer < 13)
        ⊎ (269 ≤ sol.n_integer)
        ⊎ (4 * (pack_ni_si sol.n_integer % 64) + pack_ni_si sol.n_integer / 64 + 13 ≡ sol.n_integer)
    unpacked = elim (le_or_lt 13 sol.n_integer) [
      | inl low ↦ elim (le_or_lt 269 sol.n_integer) [
        | inl above ↦ inr (inl above)
        | inr high ↦ inr (inr (pack_ni_si-unpacks sol.n_integer low high))
      ]
      | inr under ↦ inl under
    ]
