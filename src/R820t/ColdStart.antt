-- ===== src/R820t/ColdStart.antt =====
-- `r820t::init` and the mirror of the registers.
use libsdrgg.Prelude.{ℕ, zero, suc, ◌+◌, true, ◌≡◌, refl, arith, get_or, subst, sym}
use libsdrgg.Prelude.Int.{pos, negsuc}
use libsdrgg.Types.{Result, ok, err, trap, Host, Dev, is_r820t_family}
use libsdrgg.Exec.{Status, pure, gets, modify, ◌>>=◌}
use libsdrgg.Exec.Keeps.{Keeps, keeps_rules, Keeps-gets}
use libsdrgg.Exec.Yields.{Anywhere, Yields, OrStop, Yields-bind, Keeps-yields, forget_stop}
use libsdrgg.Rtl.Tuner.{write_reg, r820t_reg_start, r820t_num_regs}
use libsdrgg.Rtl.Tuner.Mirrored.{MirrorsBelow, IsMirrored, write_reg-extends}
use libsdrgg.R820t.Powerup.{compose_powerup_image}
use libsdrgg.R820t.Gain.{set_lna_gain, set_mixer_gain, set_vga_gain, auto_vga_index}
use libsdrgg.R820t.Codec.{flush_file, init}
use libsdrgg.R820t.Mirror.{
  set_lna_gain-IsMirrored, set_mixer_gain-IsMirrored, set_vga_gain-IsMirrored,
}

abbrev pub UpTo : ℕ → Dev → Type 0
UpTo i = MirrorsBelow (r820t_reg_start + i)

-- The rest of the loop, from the value on.
abbrev write_and_go : ℕ → ℕ → ℕ → Status
write_and_go n i val = write_reg (r820t_reg_start + i) val >>= λ _. flush_file n (i + 1)

pub flush_file-Mirrors :
    (n i k : ℕ) → i + n ≡ k → Yields (UpTo i) (flush_file n i) (OrStop (λ _. UpTo k) Anywhere)
unfolding flush_file pure
flush_file-Mirrors zero i k end = record { at = λ host d m. subst (λ x. UpTo x d) (omega arith) m }
flush_file-Mirrors (suc n) i k end =
    Yields-bind (UpTo i) (λ _. UpTo i) (OrStop (λ _. UpTo k) Anywhere) Anywhere (λ e d h. h)
      (λ d h. h) (gets (λ d. get_or d.r820t_file i 0)) (write_and_go n i)
      (forget_stop (Keeps-yields (gets (λ d. get_or d.r820t_file i 0)) (Keeps-gets _)))
      (λ val.
        Yields-bind (UpTo i) (λ _. UpTo (i + 1)) (OrStop (λ _. UpTo k) Anywhere) Anywhere
          (λ e d h. h) (λ d h. h) (write_reg (r820t_reg_start + i) val) (λ _. flush_file n (i + 1))
          (forget_stop (
            write_reg-extends (r820t_reg_start + i) (r820t_reg_start + (i + 1))
              (r820t_reg_start + i) val (λ r below ne. ground arith)))
          (λ _. flush_file-Mirrors n (i + 1) k (omega arith)))

abbrev IsR820t : Dev → Type 0
IsR820t d = is_r820t_family d.tuner_class ≡ true

load_image-Mirrors :
    Yields IsR820t
      (modify (λ d. record d { r820t_file = compose_powerup_image }))
      (OrStop (λ _. UpTo 0) Anywhere)
unfolding modify compose_powerup_image
load_image-Mirrors = record {
  at = λ host d fam. record {
    family = fam;
    whole = refl;
    mirrors = λ r h below. absurd (ground arith);
  };
}

set_gains-IsMirrored : Keeps IsMirrored (
    set_lna_gain (negsuc 0) >>= λ _.
    set_mixer_gain (negsuc 0) >>= λ _. set_vga_gain (pos auto_vga_index))
set_gains-IsMirrored =
    search
      (keeps_rules, set_lna_gain-IsMirrored, set_mixer_gain-IsMirrored, set_vga_gain-IsMirrored)

init-Mirrors : Yields IsR820t init (OrStop (λ _. IsMirrored) Anywhere)
unfolding init
init-Mirrors =
    Yields-bind IsR820t (λ _. UpTo 0) (OrStop (λ _. IsMirrored) Anywhere) Anywhere (λ e d h. h)
      (λ d h. h) (modify (λ d. record d { r820t_file = compose_powerup_image })) _
      load_image-Mirrors
      (λ _.
        Yields-bind (UpTo 0) (λ _. IsMirrored) (OrStop (λ _. IsMirrored) Anywhere) Anywhere
          (λ e d h. h) (λ d h. h) (flush_file r820t_num_regs 0) _ (flush_file-Mirrors 27 0 27 refl)
          (λ _. forget_stop (Keeps-yields _ set_gains-IsMirrored)))

abbrev pub IsOk : Result (Unit {0}) → Type 0
IsOk (ok _) = Unit
IsOk _ = ⊥

pub went_on :
    (P : Dev → Type 0) (r : Result (Unit {0})) (d : Dev)
    → OrStop (λ _. P) Anywhere r d
    → IsOk r
    → P d
went_on P (ok _) d h same = h
went_on P (err e) d h same = absurd same
went_on P trap d h same = absurd same

-- After a cold start of an R820T-family device that returns SDRGG_OK, the shadow holds for every
-- register the last value that the chip took, whatever the host answered before.
pub init-IsMirrored :
    (host : Host) (d : Dev)
    → is_r820t_family d.tuner_class ≡ true
    → (init host d).0 ≡ ok tt
    → IsMirrored (init host d).1
init-IsMirrored host d fam same =
    let (r, d') = init host d in
    went_on IsMirrored r d' (init-Mirrors.at host d fam) (subst IsOk (sym same) tt)
