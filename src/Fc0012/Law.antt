-- ===== src/Fc0012/Law.antt =====
-- The multiplier and the ratio of the FC0012 against independent descriptions.
use libsdrgg.Prelude.{
  ℕ, zero, suc, get_or, length, Bool-cases, ltb→lt, lt→ltb, ◌+◌, ◌*◌, ◌≤◌, ◌<◌, List, [], ◌∷◌, true,
  ◌≡◌, refl, ◌↔◌, inl, inr, arith, ltb,
}
use libsdrgg.Fc0012.Ratio.{
  MultiplierSelection, first_multiplier, derive_multiplier, multiplier_set, vco_ceil_hz,
  split_ratio, clamp_ratio, normalize_ratio,
}

-- The quotient and the remainder make up the ratio.
pub split_ratio-sum :
    (raw : ℕ)
    → 16 ≤ raw
    → raw < 2048
    → let (n, a) = split_ratio raw in (8 * n + a ≡ raw) × (2 ≤ a) × (a ≤ 9)
unfolding split_ratio
split_ratio-sum raw low high = ground arith

-- For a ratio from 16 to 503, 8 times the quotient and the remainder make up the ratio, the
-- quotient is at most 31 and the remainder at least 2.
normalize_ratio-sum :
    (raw vco half : ℕ)
    → 16 ≤ raw
    → raw < 504
    → let sol = normalize_ratio raw vco half in
      (8 * sol.n_quotient + sol.a_remainder ≡ raw) × (sol.n_quotient ≤ 31) × (2 ≤ sol.a_remainder)
unfolding normalize_ratio split_ratio clamp_ratio
normalize_ratio-sum raw vco half low high = ground arith

-- A ratio from 16 to 503 is marked feasible if and only if it is from 90 to 263.
normalize_ratio-feasible :
    (raw vco half : ℕ)
    → 16 ≤ raw
    → raw < 504
    → ((normalize_ratio raw vco half).feasible ≡ true) ↔ ((90 ≤ raw) × (raw ≤ 263))
unfolding normalize_ratio split_ratio clamp_ratio
normalize_ratio-feasible raw vco half low high = ground arith

-- For a ratio from 16 to 503, 8 times the quotient and the remainder make up the ratio, the
-- quotient is at most 31 and the remainder at least 2, and the ratio is marked feasible if and
-- only if it is from 90 to 263.
pub normalize_ratio-Splits :
    (raw vco half : ℕ)
    → 16 ≤ raw
    → raw < 504
    → let sol = normalize_ratio raw vco half in
      (8 * sol.n_quotient + sol.a_remainder ≡ raw)
      × (sol.n_quotient ≤ 31)
      × (2 ≤ sol.a_remainder)
      × ((sol.feasible ≡ true) ↔ ((90 ≤ raw) × (raw ≤ 263)))
normalize_ratio-Splits raw vco half low high =
    let (whole, quotient, remainder) = normalize_ratio-sum raw vco half low high in
    (whole, quotient, remainder, normalize_ratio-feasible raw vco half low high)

-- The selection took entry `j` of the list: the first whose VCO is below the ceiling.
pub record IsFirst (f i : ℕ) (ms : List ℕ) (plan : MultiplierSelection) (j : ℕ) : Type 0 where
  pub listed : j < length ms
  pub index : plan.multiplier_index ≡ i + j
  pub entry : plan.multiplier ≡ get_or ms j 0
  pub vco : plan.vco_hz ≡ f * get_or ms j 0
  pub below : plan.vco_hz < vco_ceil_hz
  pub above : (k : ℕ) → k < j → vco_ceil_hz ≤ f * get_or ms k 0

above_all :
    (f m : ℕ) (ms : List ℕ) (j : ℕ)
    → vco_ceil_hz ≤ f * m
    → ((k : ℕ) → k < j → vco_ceil_hz ≤ f * get_or ms k 0)
    → (k : ℕ) → k < suc j
    → vco_ceil_hz ≤ f * get_or (m ∷ ms) k 0
above_all f m ms j head rest zero h = head
above_all f m ms j head rest (suc k) h = rest k (omega arith)

hit-IsFirst :
    (f i m : ℕ) (ms : List ℕ)
    → ltb (f * m) vco_ceil_hz ≡ true
    → (j : ℕ) × IsFirst f i (m ∷ ms) (first_multiplier f i (m ∷ ms)) j
unfolding first_multiplier
hit-IsFirst f i m ms hit = (
  0,
  rw hit record {
    listed = omega arith;
    index = omega arith;
    entry = refl;
    vco = refl;
    below = ltb→lt _ _ hit;
    above = λ k h. absurd (omega arith);
  },
)

first_multiplier-IsFirst :
    (f i : ℕ) (ms : List ℕ) (k : ℕ)
    → k < length ms
    → f * get_or ms k 0 < vco_ceil_hz
    → (j : ℕ) × IsFirst f i ms (first_multiplier f i ms) j
unfolding first_multiplier
first_multiplier-IsFirst f i [] k h fits = absurd (omega arith)
first_multiplier-IsFirst f i (m ∷ ms) zero h fits = hit-IsFirst f i m ms (lt→ltb _ _ fits)
first_multiplier-IsFirst f i (m ∷ ms) (suc k) h fits = elim (Bool-cases (ltb (f * m) vco_ceil_hz)) [
  | inl hit ↦ hit-IsFirst f i m ms hit
  | inr miss ↦
      let (j, first) = first_multiplier-IsFirst f (i + 1) ms k (omega arith) fits in
      (
        suc j,
        rw miss record {
          listed = omega (arith, first.listed);
          index = omega (arith, first.index);
          entry = first.entry;
          vco = first.vco;
          below = first.below;
          above = above_all f m ms j (ground arith) first.above;
        },
      )
]

-- Below 765 MHz the selected multiplier is an entry of the list with its index and its VCO
-- frequency, the VCO is below the ceiling, and every entry before it would put the VCO at or above
-- the ceiling.
pub derive_multiplier-IsFirst :
    (f : ℕ) → f < 765000000 → (j : ℕ) × IsFirst f 0 multiplier_set (derive_multiplier f) j
unfolding derive_multiplier
derive_multiplier-IsFirst f low =
    first_multiplier-IsFirst f 0 multiplier_set 9 (omega arith) (omega arith)
