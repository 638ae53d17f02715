-- ===== src/R820t/GainLaw.antt =====
-- The gain profiles of sdrgg_r820t.cpp: their selection and their totals.
use libsdrgg.Prelude.{
  ℕ, zero, suc, ◌+◌, ◌≤◌, ◌<◌, List, [], ◌∷◌, true, false, ◌≡◌, refl, arith, ◌==◌, ==_iff, get_or,
  length, inl, inr, le_or_lt, all_below-holds, take, by_branch,
}
use libsdrgg.Prelude.Int.{ℤ, pos, leb_ℤ, pos_part}
use libsdrgg.R820t.Gain.{
  GainProfile, manual_gain_profiles, first_reaching, last_gain_profile, lna_db, mixer_db,
}

-- Each entry's total is at most the next one's.
abbrev IsAscending : List GainProfile → Type 0
IsAscending [] = Unit
IsAscending (p ∷ []) = Unit
IsAscending (p ∷ q ∷ ps) = (p.total_tenth_db ≤ q.total_tenth_db) × IsAscending (q ∷ ps)

abbrev pub total_at : List GainProfile → ℕ → ℕ
total_at ps i = (get_or ps i last_gain_profile).total_tenth_db

head_least :
    (p : GainProfile) (ps : List GainProfile) (i : ℕ)
    → IsAscending (p ∷ ps)
    → i < length (p ∷ ps)
    → p.total_tenth_db ≤ total_at (p ∷ ps) i
head_least p ps zero up h = omega arith
head_least p [] (suc i) up h = absurd (omega arith)
head_least p (q ∷ ps) (suc i) (first, up) h = omega (arith, head_least q ps i up (omega arith))

tail_ascends : (p : GainProfile) (ps : List GainProfile) → IsAscending (p ∷ ps) → IsAscending ps
tail_ascends p [] up = tt
tail_ascends p (q ∷ ps) (first, up) = up

-- The first entry that reaches the target is the least that does.
first_reaching-least :
    (t : ℕ) (ps : List GainProfile) (i : ℕ)
    → IsAscending ps
    → i < length ps
    → t ≤ total_at ps i
    → (t ≤ (first_reaching (pos t) ps).total_tenth_db)
      × ((first_reaching (pos t) ps).total_tenth_db ≤ total_at ps i)
unfolding first_reaching
first_reaching-least t [] i up h reaches = absurd (omega arith)
first_reaching-least t (p ∷ ps) zero up h reaches =
    let hit : leb_ℤ (pos t) (pos p.total_tenth_db) ≡ true = ground arith in
    rw hit (reaches, omega arith)
first_reaching-least t (p ∷ ps) (suc i) up h reaches = elim (le_or_lt t p.total_tenth_db) [
  | inl near ↦
      let hit : leb_ℤ (pos t) (pos p.total_tenth_db) ≡ true = ground arith in
      rw hit (near, head_least p ps (suc i) up h)
  | inr beyond ↦
      let miss : leb_ℤ (pos t) (pos p.total_tenth_db) ≡ false = ground arith in
      rw miss (first_reaching-least t ps i (tail_ascends p ps up) (omega arith) reaches)
]

-- If some profile reaches the target, the selected one reaches it too and is at most that profile:
-- it is the least that does.
manual_gain-least :
    (t i : ℕ)
    → i < 29
    → t ≤ total_at manual_gain_profiles i
    → (t ≤ (first_reaching (pos t) manual_gain_profiles).total_tenth_db)
      × ((first_reaching (pos t) manual_gain_profiles).total_tenth_db
          ≤ total_at manual_gain_profiles i)
manual_gain-least t i h reaches =
    first_reaching-least t manual_gain_profiles i (ground arith) h reaches

-- The steps up to an index, in 0.1 dB; the last mixer step goes down and is not used.
abbrev pub sum_steps : List ℤ → ℕ
sum_steps [] = 0
sum_steps (d ∷ ds) = pos_part d + sum_steps ds

abbrev pub steps_upto : ℕ → List ℤ → ℕ
steps_upto i steps = sum_steps (take (i + 1) steps)

abbrev pub entry : ℕ → GainProfile
entry i = get_or manual_gain_profiles i last_gain_profile

-- Each of the 29 profiles' totals is the sum of the LNA steps and the mixer steps up to its two
-- indices.
manual_gain-adds_up :
    (i : ℕ)
    → i < 29
    → let p = entry i in
      p.total_tenth_db ≡ steps_upto p.lna_index lna_db + steps_upto p.mixer_index mixer_db
manual_gain-adds_up i h =
    let p = entry i in
    (==_iff p.total_tenth_db (steps_upto p.lna_index lna_db + steps_upto p.mixer_index mixer_db)).0
      (all_below-holds 29
        (λ j.
          let q = entry j in
          q.total_tenth_db == steps_upto q.lna_index lna_db + steps_upto q.mixer_index mixer_db)
        refl i h)

-- What holds of every entry, and of the last, holds of the selected one.
first_reaching-among :
    (P : GainProfile → Type 0) (t : ℤ) (ps : List GainProfile)
    → P last_gain_profile
    → ((i : ℕ) → i < length ps → P (get_or ps i last_gain_profile))
    → P (first_reaching t ps)
unfolding first_reaching
first_reaching-among P t [] last h = last
first_reaching-among P t (p ∷ ps) last h =
    by_branch P (leb_ℤ t (pos p.total_tenth_db)) _ _ (λ _. h 0 (omega arith))
      (λ _. first_reaching-among P t ps last (λ i below. h (suc i) (omega arith)))

abbrev pub AddsUp : GainProfile → Type 0
AddsUp p = p.total_tenth_db ≡ steps_upto p.lna_index lna_db + steps_upto p.mixer_index mixer_db

-- If some profile reaches the target, the selected one reaches it too and is at most that profile,
-- and its total is the sum of the LNA steps and the mixer steps up to its two indices.
pub manual_gain-IsLeast :
    (t i : ℕ)
    → i < 29
    → t ≤ total_at manual_gain_profiles i
    → let p = first_reaching (pos t) manual_gain_profiles in
      (t ≤ p.total_tenth_db) × (p.total_tenth_db ≤ total_at manual_gain_profiles i) × AddsUp p
manual_gain-IsLeast t i h reaches =
    let (reached, least) = manual_gain-least t i h reaches in
    (
      reached,
      least,
      first_reaching-among AddsUp (pos t) manual_gain_profiles
          (manual_gain-adds_up 28 (omega arith)) manual_gain-adds_up,
    )
