-- ===== src/Reset/Refresh.antt =====
-- Level 2 of the resets and the shadow of the registers.
use libsdrgg.Prelude.{
  ℕ, zero, suc, ◌+◌, ◌-◌, ◌≡◌, refl, sym, ◌∙◌, ap, arith, List, [], ◌∷◌, Bool, true, false, length,
  get_or, set, subst, by_branch,
}
use libsdrgg.Types.{tuner_r820t, ok, Host, Dev}
use libsdrgg.Exec.{modify, gets, ioctl, usleep, ◌>>=◌}
use libsdrgg.Exec.Keeps.{Keeps, Keeps-bind, Keeps-modify, keeps_rules}
use libsdrgg.Exec.Yields.{
  Yields, OrStop, Anywhere, Yields-bind, Keeps-yields, forget_stop, cleanup-yields,
}
use libsdrgg.Usb.{note_failure, note_success}
use libsdrgg.Rtl.Frame.{IsFrame, tuner_write-frame, repeater-frame}
use libsdrgg.Rtl.Tuner.{write_reg, store_shadow, is_shadowed, r820t_reg_start, enable_i2c_repeater}
use libsdrgg.Rtl.Tuner.Mirror.{enable_i2c_repeater-View}
use libsdrgg.Rtl.Tuner.Mirrored.{MirrorsBelow, IsMirrored, View-IsMirrored}
use libsdrgg.R820t.Codec.{flush_file}
use libsdrgg.R820t.ColdStart.{flush_file-Mirrors, UpTo, went_on, IsOk}
use libsdrgg.Reset.{refresh_tuner, reset_tuner_of, reset_tuner}

-- The shadow as it was.
abbrev HasFile : List ℕ → Dev → Type 0
HasFile file d = d.r820t_file ≡ file

File-frame : (file : List ℕ) → IsFrame (HasFile file)
unfolding ioctl usleep note_failure note_success
File-frame file = record {
  on_ioctl = λ req transfer. record { at = λ host d h. h };
  on_sleep = λ us. record { at = λ host d h. h };
  on_failure = λ e. Keeps-modify _ (λ d h. ground (arith, h));
  on_success = Keeps-modify _ (λ d h. h);
}

set-same : (xs : List ℕ) (i : ℕ) → set xs i (get_or xs i 0) ≡ xs
set-same [] i = refl
set-same (x ∷ xs) zero = refl
set-same (x ∷ xs) (suc i) = ap (λ ys. x ∷ ys) (set-same xs i)

store-same :
    (file : List ℕ) (i : ℕ)
    → Keeps (HasFile file) (modify (store_shadow (r820t_reg_start + i) (get_or file i 0)))
unfolding store_shadow
store-same file i = Keeps-modify _ λ d h.
    by_branch (HasFile file) (is_shadowed d (r820t_reg_start + i)) _ _
      (λ e.
        let same : r820t_reg_start + i - r820t_reg_start ≡ i = omega arith in
        rw (same, h) (set-same file i))
      (λ e. h)

write-same :
    (file : List ℕ) (i : ℕ)
    → Keeps (HasFile file) (write_reg (r820t_reg_start + i) (get_or file i 0))
unfolding write_reg
write-same file i = Keeps-bind _ _ (tuner_write-frame (File-frame file) _) (λ _. store-same file i)

flush_file-same : (file : List ℕ) (n i : ℕ) → Keeps (HasFile file) (flush_file n i)
unfolding flush_file ◌>>=◌ gets
flush_file-same file zero i = search keeps_rules
flush_file-same file (suc n) i = record {
  at = λ host d h.
      (Keeps-bind (write_reg (r820t_reg_start + i) (get_or d.r820t_file i 0))
          (λ _. flush_file n (i + 1))
          (subst (λ f. Keeps (HasFile file) (write_reg (r820t_reg_start + i) (get_or f i 0)))
            (sym h) (write-same file i))
          (λ _. flush_file-same file n (i + 1))).at
        host d h;
}

refresh-same : (file : List ℕ) → Keeps (HasFile file) refresh_tuner
unfolding refresh_tuner
refresh-same file = search (keeps_rules, repeater-frame (File-frame file), flush_file-same) depth 12

repeater-Mirrors : (k : ℕ) (on : Bool) → Keeps (MirrorsBelow k) (enable_i2c_repeater on)
repeater-Mirrors k on =
    View-IsMirrored (enable_i2c_repeater on) (λ _ _ _ _. enable_i2c_repeater-View on)

refresh-Mirrors : Yields (UpTo 0) refresh_tuner (OrStop (λ _. IsMirrored) Anywhere)
unfolding refresh_tuner
refresh-Mirrors =
    Yields-bind (UpTo 0) (λ _. UpTo 0) (OrStop (λ _. IsMirrored) Anywhere) Anywhere (λ e d h. h)
      (λ d h. h) (enable_i2c_repeater true) _
      (forget_stop (Keeps-yields _ (repeater-Mirrors 5 true)))
      (λ _.
        cleanup-yields (enable_i2c_repeater false) (λ _. repeater-Mirrors 32 false)
          (flush_file 27 0) (flush_file-Mirrors 27 0 27 refl))

-- A reset of an R820T whose shadow has its 27 registers and that returns SDRGG_OK leaves the chip
-- with the shadow in every register, and the shadow as it was, whatever the chip was sent before.
pub reset_tuner-IsMirrored :
    (host : Host) (d : Dev)
    → d.tuner_class ≡ tuner_r820t
    → length d.r820t_file ≡ 27
    → (reset_tuner host d).0 ≡ ok tt
    → IsMirrored (reset_tuner host d).1 × ((reset_tuner host d).1.r820t_file ≡ d.r820t_file)
unfolding reset_tuner reset_tuner_of ◌>>=◌ gets
reset_tuner-IsMirrored host d cls whole same =
    let refreshed : reset_tuner host d ≡ refresh_tuner host d =
      ap (λ c. reset_tuner_of c host d) cls in
    let start : UpTo 0 d = record {
      family = rw cls refl;
      whole = whole;
      mirrors = λ r h below. absurd (ground arith);
    } in
    let (r, d') = refresh_tuner host d in
    rw refreshed (
      went_on IsMirrored r d' (refresh-Mirrors.at host d start)
          (subst IsOk (sym same ∙ ap (λ rd. rd.0) refreshed) tt),
      (refresh-same d.r820t_file).at host d refl,
    )
