-- ===== src/Rtl/Tuner/Mirrored.antt =====
-- The shadow file as a mirror of the R820T: the invariant, and register writes.
use libsdrgg.Prelude.{
  ℕ, ◌+◌, ◌-◌, ◌<◌, List, [], ◌∷◌, true, false, Option, some, ◌≡◌, refl, arith, ◌∙◌, sym, ap, subst,
  Bool-cases, inl, inr, length, get_or, set, length-set, get_or-set_self, get_or-set_ne,
  if◌then◌else◌, ◌==◌,
}
use libsdrgg.Types.{TunerType, Result, ok, err, trap, Dev, is_r820t_family}
use libsdrgg.Exec.{M, modify}
use libsdrgg.Exec.Keeps.{Keeps}
use libsdrgg.Exec.Yields.{Yields, OrStop, Yields-bind}
use libsdrgg.Rtl.Tuner.{
  tuner_write, write_reg, store_shadow, is_shadowed, in_shadow, shadow_of, r820t_reg_start,
  r820t_num_regs,
}
use libsdrgg.Rtl.Tuner.Chip.{View, chip_value}
use libsdrgg.Rtl.Tuner.Mirror.{after_write, tuner_write-After}

-- The device has an R820T-family tuner, and the value in its shadow for each register below `k` is the
-- last that the chip took.
pub record MirrorsBelow (k : ℕ) (d : Dev) : Type 0 where
  pub family : is_r820t_family d.tuner_class ≡ true
  pub whole : length d.r820t_file ≡ 27
  pub mirrors :
      (reg : ℕ)
      → in_shadow reg ≡ true
      → reg < k
      → chip_value d.tuner_bus_addr reg d.trace ≡ some (shadow_of d reg)

-- All of them.
abbrev pub IsMirrored : Dev → Type 0
IsMirrored = MirrorsBelow (r820t_reg_start + r820t_num_regs)

module _ {cls : TunerType} {addr : ℕ} {file : List ℕ} {sent : ℕ → Option ℕ} {k : ℕ} where
  -- The same facts, of what a view shows.
  MirrorsBelow-View :
      (d : Dev)
      → is_r820t_family cls ≡ true
      → length file ≡ 27
      → ((r : ℕ) → in_shadow r ≡ true → r < k → sent r ≡ some (get_or file (r - r820t_reg_start) 0))
      → View cls addr file sent d
      → MirrorsBelow k d
  MirrorsBelow-View d fam len good v = record {
    family = rw (v.same_class) fam;
    whole = rw (v.same_file) len;
    mirrors = λ r h below. rw (v.same_addr, v.same_file) (v.same_sent r ∙ good r h below);
  }

-- The file after the shadow was stored.
abbrev stored : List ℕ → ℕ → ℕ → List ℕ
stored file reg val = if in_shadow reg then set file (reg - r820t_reg_start) val else file

stored-whole : (file : List ℕ) (reg val : ℕ) → length file ≡ 27 → length (stored file reg val) ≡ 27
stored-whole file reg val len = ground (arith, length-set file (reg - r820t_reg_start) val)

module _ (file : List ℕ) (reg val : ℕ) (len : length file ≡ 27) where
  stored_self : in_shadow reg ≡ true → get_or (stored file reg val) (reg - r820t_reg_start) 0 ≡ val
  stored_self h =
      rw (h, stored) (get_or-set_self file (reg - r820t_reg_start) val 0 (ground (arith, len)))

  stored_other :
      (r : ℕ)
      → (reg == r) ≡ false
      → in_shadow r ≡ true
      → get_or (stored file reg val) (r - r820t_reg_start) 0 ≡ get_or file (r - r820t_reg_start) 0
  stored_other r ne h = elim (Bool-cases (in_shadow reg)) [
    | inl s ↦
        rw (s, stored)
          (get_or-set_ne file {i = reg - r820t_reg_start} {j = r - r820t_reg_start} val 0
            (ground arith))
    | inr s ↦ rw (s, stored) refl
  ]

  -- Both sides of a register are written together.
  stored-mirrors :
      (r : ℕ) (sent : ℕ → Option ℕ)
      → ((reg == r) ≡ false → sent r ≡ some (get_or file (r - r820t_reg_start) 0))
      → in_shadow r ≡ true
      → after_write (ok tt) reg val sent r
        ≡ some (get_or (stored file reg val) (r - r820t_reg_start) 0)
  stored-mirrors r sent good h = elim (Bool-cases (reg == r)) [
    | inl e ↦
        let same : reg ≡ r = ground arith in
        rw (e, after_write)
          (ap some (
            sym (
              subst (λ x. get_or (stored file reg val) (x - r820t_reg_start) 0 ≡ val) same
                (stored_self (rw same h)))))
    | inr ne ↦ rw (ne, after_write) (good ne ∙ ap some (sym (stored_other r ne h)))
  ]

module _ (cls : TunerType) (addr : ℕ) (file : List ℕ) (sent : ℕ → Option ℕ) (reg val : ℕ)
    (fam : is_r820t_family cls ≡ true) (len : length file ≡ 27) (k k' : ℕ)
    (grows : (r : ℕ) → r < k' → (reg == r) ≡ false → r < k)
    (good : (r : ℕ)
      → in_shadow r ≡ true
      → r < k
      → sent r ≡ some (get_or file (r - r820t_reg_start) 0)) where
  sent-OrStop :
      (r : Result (Unit {0})) (d : Dev)
      → View cls addr file (after_write r reg val sent) d
      → OrStop (λ _. View cls addr file (after_write (ok tt) reg val sent)) (MirrorsBelow k) r d
  sent-OrStop (ok _) d v = v
  sent-OrStop (err e) d v = MirrorsBelow-View d fam len good v
  sent-OrStop trap d v = MirrorsBelow-View d fam len good v

  store_shadow-View :
      (d : Dev)
      → View cls addr file (after_write (ok tt) reg val sent) d
      → View cls addr
          (stored file reg val)
          (after_write (ok tt) reg val sent)
          (store_shadow reg val d)
  unfolding store_shadow
  store_shadow-View d v =
      let shadowed : is_shadowed d reg ≡ in_shadow reg = rw (v.same_class, fam, is_shadowed) refl in
      elim (Bool-cases (in_shadow reg)) [
        | inl s ↦
            rw (shadowed ∙ s, s, stored)
              record {
                same_class = v.same_class;
                same_addr = v.same_addr;
                same_file = ap (λ f. set f (reg - r820t_reg_start) val) v.same_file;
                same_sent = v.same_sent;
              }
        | inr s ↦ rw (shadowed ∙ s, s, stored) v
      ]

  store-Mirrors :
      Yields
        (View cls addr file (after_write (ok tt) reg val sent))
        (modify (store_shadow reg val))
        (OrStop (λ _. MirrorsBelow k') (MirrorsBelow k))
  unfolding modify
  store-Mirrors = record {
    at = λ host d v.
        MirrorsBelow-View _ fam (stored-whole file reg val len)
          (λ r h below.
            stored-mirrors file reg val len r sent (λ ne. good r h (grows r below ne)) h)
          (store_shadow-View d v);
  }

  pub write_reg-Yields :
      Yields
        (View cls addr file sent)
        (write_reg reg val)
        (OrStop (λ _. MirrorsBelow k') (MirrorsBelow k))
  unfolding write_reg
  write_reg-Yields =
      Yields-bind (View cls addr file sent)
        (λ _. View cls addr file (after_write (ok tt) reg val sent))
        (OrStop (λ _. MirrorsBelow k') (MirrorsBelow k)) (MirrorsBelow k) (λ e d h. h) (λ d h. h)
        (tuner_write (reg ∷ val ∷ [])) (λ _. modify (store_shadow reg val))
        (record {
          at = λ host d v.
              let (r, d') = tuner_write (reg ∷ val ∷ []) host d in
              sent-OrStop r d' ((tuner_write-After cls addr file sent reg val).at host d v);
        })
        (λ _. store-Mirrors)

-- A write to register `k` extends the mirror; if it fails, neither side changed.
pub write_reg-extends :
    (k k' reg val : ℕ)
    → ((r : ℕ) → r < k' → (reg == r) ≡ false → r < k)
    → Yields (MirrorsBelow k) (write_reg reg val) (OrStop (λ _. MirrorsBelow k') (MirrorsBelow k))
write_reg-extends k k' reg val grows = record {
  at = λ host d m.
      (write_reg-Yields d.tuner_class d.tuner_bus_addr d.r820t_file
          (λ r. chip_value d.tuner_bus_addr r d.trace) reg val m.family m.whole k k' grows
          m.mirrors).at
        host d
        (record { same_class = refl; same_addr = refl; same_file = refl; same_sent = λ r. refl });
}

either :
    {k : ℕ} (r : Result (Unit {0})) (d : Dev)
    → OrStop (λ _. MirrorsBelow k) (MirrorsBelow k) r d
    → MirrorsBelow k d
either (ok _) d h = h
either (err e) d h = h
either trap d h = h

-- Any register write keeps the mirror, whatever the host answers.
pub write_reg-IsMirrored : (reg val : ℕ) → Keeps IsMirrored (write_reg reg val)
write_reg-IsMirrored reg val = record {
  at = λ host d m.
      let (r, d') = write_reg reg val host d in
      either r d' ((write_reg-extends 32 32 reg val (λ r below ne. below)).at host d m);
}

-- What keeps every view keeps the mirror.
pub View-IsMirrored :
    {A : Type 0} {k : ℕ} (m : M A)
    → ((cls : TunerType) (addr : ℕ) (file : List ℕ) (sent : ℕ → Option ℕ)
        → Keeps (View cls addr file sent) m)
    → Keeps (MirrorsBelow k) m
View-IsMirrored m keeps = record {
  at = λ host d mir.
      MirrorsBelow-View {cls = d.tuner_class} {addr = d.tuner_bus_addr} {file = d.r820t_file}
        {sent = λ r. chip_value d.tuner_bus_addr r d.trace} _ mir.family mir.whole mir.mirrors
        ((keeps _ _ _ _).at host d (record {
          same_class = refl;
          same_addr = refl;
          same_file = refl;
          same_sent = λ r. refl;
        }));
}
