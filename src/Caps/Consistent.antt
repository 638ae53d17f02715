-- ===== src/Caps/Consistent.antt =====
-- The capability tables and the code that they describe.
use libsdrgg.Prelude.{
  ℕ, ◌<◌, ◌≡◌, ◌⊎◌, refl, arith, List, [], ◌∷◌, true, Option, none, some, length, inl, inr,
}
use libsdrgg.Types.{
  TunerType, tuner_unknown, tuner_r820t, tuner_r820t2, tuner_fc0012, tuner_fc0013, tuner_fc2580,
  tuner_e4000,
}
use libsdrgg.Core.Attach.{Contract, family_contracts}
use libsdrgg.Caps.{
  GainStage, FreqGap, TunerCaps, r820t_caps, fc0012_caps, fc0013_caps, fc2580_caps, e4000_caps,
  get_caps_by_type,
}

-- Each gap begins above `lo`, ends after it begins, and the next one begins after it; the last ends
-- below `hi`.
abbrev AreGaps : ℕ → ℕ → List FreqGap → Type 0
AreGaps lo hi [] = lo < hi
AreGaps lo hi (g ∷ gs) = (lo < g.start_hz) × (g.start_hz < g.stop_hz) × AreGaps g.stop_hz hi gs

-- A stage's step table, if it has one, has as many entries as the stage has steps.
abbrev AreStages : List GainStage → Type 0
AreStages [] = Unit
AreStages (g ∷ gs) = ((g.step_db ≡ []) ⊎ (length g.step_db ≡ g.num_steps)) × AreStages gs

-- A contract that attaches this family, at this address.
abbrev HasContract : TunerType → ℕ → List Contract → Type 0
HasContract cls addr [] = ⊥
HasContract cls addr (c ∷ cs) = (c.family ≡ cls) × (c.bus_addr ≡ addr) ⊎ HasContract cls addr cs

pub record IsConsistent (c : TunerCaps) : Type 0 where
  pub gaps_counted : length c.freq_gaps ≡ c.num_freq_gaps
  pub stages_counted : length c.gain_stages ≡ c.num_gain_stages
  pub bandwidths_counted : length c.bw_options ≡ c.num_bw_options
  pub gaps_ordered : AreGaps c.freq_min_hz c.freq_max_hz c.freq_gaps
  pub stages_fit : AreStages c.gain_stages
  pub attachable : c.implemented ≡ true → HasContract c.tuner_type c.i2c_addr family_contracts

r820t-IsConsistent : IsConsistent r820t_caps
unfolding r820t_caps
r820t-IsConsistent = record {
  gaps_counted = refl;
  stages_counted = refl;
  bandwidths_counted = refl;
  gaps_ordered = omega arith;
  stages_fit = (inr refl, (inr refl, (inl refl, tt)));
  attachable = λ e. inl (refl, refl);
}

-- What a lookup gives: the tables of the tuner's family, or nothing for an unknown tuner.
abbrev pub Describes : TunerType → Option TunerCaps → Type 0
Describes cls none = cls ≡ tuner_unknown
Describes cls (some c) =
    IsConsistent c × ((c.tuner_type ≡ cls) ⊎ (cls ≡ tuner_r820t2) × (c.tuner_type ≡ tuner_r820t))

-- For every tuner type the lookup gives the capabilities of that tuner, of the R820T for an
-- R820T2, and none for an unknown one; in them the counts are the lengths of the tables, the gaps
-- lie in order inside the frequency range, a stage's step table has its number of steps, and a
-- tuner that is marked as implemented has a contract that attaches it at the address that they
-- give.
pub get_caps_by_type-Describes : (cls : TunerType) → Describes cls (get_caps_by_type cls)
unfolding get_caps_by_type r820t_caps fc0012_caps fc0013_caps fc2580_caps e4000_caps
get_caps_by_type-Describes tuner_unknown = refl
get_caps_by_type-Describes tuner_r820t = (r820t-IsConsistent, inl refl)
get_caps_by_type-Describes tuner_r820t2 = (r820t-IsConsistent, inr (refl, refl))
get_caps_by_type-Describes tuner_fc0012 = (
  record {
    gaps_counted = refl;
    stages_counted = refl;
    bandwidths_counted = refl;
    gaps_ordered = omega arith;
    stages_fit = (inl refl, tt);
    attachable = λ e. inr (inl (refl, refl));
  },
  inl refl,
)
get_caps_by_type-Describes tuner_fc0013 = (
  record {
    gaps_counted = refl;
    stages_counted = refl;
    bandwidths_counted = refl;
    gaps_ordered = omega arith;
    stages_fit = (inl refl, tt);
    attachable = λ e. absurd (cc);
  },
  inl refl,
)
get_caps_by_type-Describes tuner_fc2580 = (
  record {
    gaps_counted = refl;
    stages_counted = refl;
    bandwidths_counted = refl;
    gaps_ordered = (omega arith, omega arith, omega arith);
    stages_fit = (inl refl, (inl refl, (inl refl, tt)));
    attachable = λ e. absurd (cc);
  },
  inl refl,
)
get_caps_by_type-Describes tuner_e4000 = (
  record {
    gaps_counted = refl;
    stages_counted = refl;
    bandwidths_counted = refl;
    gaps_ordered = (omega arith, omega arith, omega arith);
    stages_fit = (
      inl refl,
      (inl refl, (inl refl, (inl refl, (inl refl, (inl refl, (inl refl, (inl refl, tt))))))),
    );
    attachable = λ e. absurd (cc);
  },
  inl refl,
)
