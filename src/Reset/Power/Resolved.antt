-- ===== src/Reset/Power/Resolved.antt =====
-- The port of an open device: the name that `resolve_usb_path` finds, and the reset of that port.
use libsdrgg.Prelude.{
  ◌≡◌, ◌<◌, ◌⊎◌, inl, inr, refl, subst, ◌∙◌, sym, ap, List, [], ◌∷◌, Bool, true, false, ◌&&◌, not,
  Option, none, some, by_branch, ltb→lt, lt→ltb, ==_iff, ltb, length, take, if◌then◌else◌,
}
use mathlib.Core.List.{Memᴰ}
use mathlib.Core.List.Memᴰ
use libsdrgg.Prelude.Int.{ℤ, pos, negsuc}
use libsdrgg.Types.{Result, ok, err, trap, err_usb}
use libsdrgg.Usb.Text.{Text, codes, until_nul, parse_path}
use libsdrgg.Usb.Sysfs.{Sysfs, is_hidden}
use libsdrgg.Reset.Power.{
  PortEvent, Ports, cycle_port, equal_ℤ, has_colon, is_hub, read_number, is_number, is_match,
  find_name, search_names, resolve_usb_path, OpenFd, target, authorized_file, cycle_target,
  reset_power,
}
use libsdrgg.Reset.Power.Cycle.{Cycled, cycle_port-Cycled}

-- The directory of a device, and not of a root hub or an interface, whose attributes give these
-- numbers.
abbrev pub IsDirOf : Sysfs → ℤ → ℤ → Text → Type 0
IsDirOf sysfs bus devnum name =
    (is_hidden name ≡ false)
    × (has_colon name ≡ false)
    × (is_hub name ≡ false)
    × (read_number sysfs name (codes "busnum") ≡ some bus)
    × (read_number sysfs name (codes "devnum") ≡ some devnum)
    × (length name < 64)

-- The port of the device that the file descriptor stands for.
abbrev pub IsPort : Sysfs → OpenFd → Text → Type 0
IsPort sysfs fd name =
    (link : Text) × (names : List Text) × (bus : ℤ) × (devnum : ℤ) × (fd.valid ≡ true)
    × (fd.link ≡ some link)
    × (parse_path (until_nul (take 255 link)) ≡ some (bus, devnum))
    × (sysfs.listing ≡ some names)
    × Memᴰ name names
    × IsDirOf sysfs bus devnum name

equal_ℤ_sound : (x y : ℤ) → equal_ℤ x y ≡ true → x ≡ y
equal_ℤ_sound (pos a) (pos b) e = ap pos ((==_iff a b).0 e)
equal_ℤ_sound (negsuc a) (negsuc b) e = ap negsuc ((==_iff a b).0 e)
equal_ℤ_sound (pos a) (negsuc b) e = absurd (cc)
equal_ℤ_sound (negsuc a) (pos b) e = absurd (cc)

equal_ℤ_refl : (x : ℤ) → equal_ℤ x x ≡ true
equal_ℤ_refl (pos a) = (==_iff a a).1 refl
equal_ℤ_refl (negsuc a) = (==_iff a a).1 refl

is_number_sound : (o : Option ℤ) (z : ℤ) → is_number o z ≡ true → o ≡ some z
is_number_sound none z e = absurd (cc)
is_number_sound (some x) z e = ap some (equal_ℤ_sound x z e)

off : (b : Bool) → not b ≡ true → b ≡ false
off false e = refl
off true e = absurd (cc)

module _ (sysfs : Sysfs) (bus devnum : ℤ) where
  is_match-IsDirOf :
      (name : Text) → is_match sysfs bus devnum name ≡ true → IsDirOf sysfs bus devnum name
  unfolding is_match
  is_match-IsDirOf name e =
      let (a, b, c, x, y, short) = all_of (is_hidden name) (has_colon name) (is_hub name) _ _ e in
      (a, b, c, is_number_sound _ bus x, is_number_sound _ devnum y, short)
    where
      all_of :
          (a b c x y : Bool)
          → (not a && not b && not c && x && y && ltb (length name) 64) ≡ true
          → (a ≡ false) × (b ≡ false) × (c ≡ false) × (x ≡ true) × (y ≡ true) × (length name < 64)
      all_of true b c x y h = absurd (cc)
      all_of false true c x y h = absurd (cc)
      all_of false false true x y h = absurd (cc)
      all_of false false false false y h = absurd (cc)
      all_of false false false true false h = absurd (cc)
      all_of false false false true true h = (refl, refl, refl, refl, refl, ltb→lt _ _ h)

  IsDirOf-is_match :
      (name : Text) → IsDirOf sysfs bus devnum name → is_match sysfs bus devnum name ≡ true
  unfolding is_match
  IsDirOf-is_match name (a, b, c, x, y, z) =
      rw (a, b, c, x, y, equal_ℤ_refl bus, equal_ℤ_refl devnum, lt→ltb _ _ z)

  -- The search: the name of such a directory, or none of the names is one.
  abbrev Found : List Text → Result Text → Type 0
  Found names (ok name) = Memᴰ name names × IsDirOf sysfs bus devnum name
  Found names (err e) =
      (e ≡ err_usb) × ¬ ((name : Text) × Memᴰ name names × IsDirOf sysfs bus devnum name)
  Found names trap = ⊥

  next :
      (name : Text) (names : List Text) (r : Result Text)
      → is_match sysfs bus devnum name ≡ false
      → Found names r
      → Found (name ∷ names) r
  next name names (ok found) other (h, is) = (Memᴰ.tail h, is)
  next name names trap other h = h
  next name names (err e) other (same, absent) = (
    same,
    λ (found, h, is). elim (Memᴰ.cases_cons h) [
      | inl at ↦
          let here : is_match sysfs bus devnum name ≡ true =
            subst (λ n. is_match sysfs bus devnum n ≡ true) at (IsDirOf-is_match found is) in
          absurd (cc)
      | inr under ↦ absent (found, under, is)
    ],
  )

  find_name-Found : (names : List Text) → Found names (find_name sysfs bus devnum names)
  unfolding find_name
  find_name-Found [] = (refl, λ (name, h, is). Memᴰ.not-nil h)
  find_name-Found (name ∷ names) =
      by_branch (Found (name ∷ names)) (is_match sysfs bus devnum name) _ _
        (λ here. (Memᴰ.head refl, is_match-IsDirOf name here))
        (λ other. next name names _ other (find_name-Found names))

-- The name of the port, or no name is one.
abbrev Resolved : Sysfs → OpenFd → Result Text → Type 0
Resolved sysfs fd (ok name) = IsPort sysfs fd name
Resolved sysfs fd (err e) = (e ≡ err_usb) × ¬ ((name : Text) × IsPort sysfs fd name)
Resolved sysfs fd trap = ⊥

some-inj : {A : Type 0} {a b : A} → some a ≡ some b → a ≡ b
some-inj e = cc

module _ (sysfs : Sysfs) (fd : OpenFd) where
  resolved :
      (link : Text) (names : List Text) (bus devnum : ℤ)
      → fd.valid ≡ true
      → fd.link ≡ some link
      → parse_path (until_nul (take 255 link)) ≡ some (bus, devnum)
      → sysfs.listing ≡ some names
      → (r : Result Text) → Found sysfs bus devnum names r
      → Resolved sysfs fd r
  resolved link names bus devnum v l p s (ok name) (h, is) =
      (link, names, bus, devnum, v, l, p, s, h, is)
  resolved link names bus devnum v l p s trap x = x
  resolved link names bus devnum v l p s (err e) (same, absent) = (
    same,
    λ (name, (link', names', bus', devnum', v', l', p', s', h, is)).
        let one_link : link' ≡ link = some-inj (sym l' ∙ l) in
        let one_list : names' ≡ names = some-inj (sym s' ∙ s) in
        let numbers : (bus', devnum') ≡ (bus, devnum) =
          some-inj (sym p' ∙ ap (λ x. parse_path (until_nul (take 255 x))) one_link ∙ p) in
        absent (
          name,
          subst (λ x. Memᴰ name x) one_list h,
          subst (λ x. IsDirOf sysfs x.0 x.1 name) numbers is,
        ),
  )

  searched :
      (link : Text)
      → fd.valid ≡ true
      → fd.link ≡ some link
      → (p : Option (ℤ × ℤ)) → parse_path (until_nul (take 255 link)) ≡ p
      → (s : Option (List Text)) → sysfs.listing ≡ s
      → Resolved sysfs fd (search_names sysfs s p)
  searched link v l (some (bus, devnum)) p (some names) s =
      resolved link names bus devnum v l p s _ (find_name-Found sysfs bus devnum names)
  searched link v l (some (bus, devnum)) p none s =
      (refl, λ (name, (link', names', bus', devnum', v', l', p', s', h, is)). absurd (cc))
  searched link v l none p s s_is = elim s as (λ s. Resolved sysfs fd (search_names sysfs s none)) [
    | none ↦ (refl, unparsed)
    | some names ↦ (refl, unparsed)
  ]
    where
      unparsed : ¬ ((name : Text) × IsPort sysfs fd name)
      unparsed (name, (link', names', bus', devnum', v', l', p', s', h, is)) =
          let one_link : link' ≡ link = some-inj (sym l' ∙ l) in
          let numbers : ◌≡◌ {A = Option (ℤ × ℤ)} (some (bus', devnum')) none =
            sym p' ∙ ap (λ x. parse_path (until_nul (take 255 x))) one_link ∙ p in
          cc

  target-Resolved :
      (b : Bool)
      → fd.valid ≡ b
      → (l : Option Text) → fd.link ≡ l
      → Resolved sysfs fd (if b then resolve_usb_path sysfs l else err err_usb)
  target-Resolved true v (some link) l = searched link v l _ refl _ refl
  target-Resolved true v none l =
      (refl, λ (name, (link', names', bus', devnum', v', l', p', s', h, is)). absurd (cc))
  target-Resolved false v l l_is =
      (refl, λ (name, (link', names', bus', devnum', v', l', p', s', h, is)). absurd (cc))

-- What a reset of the port of an open device gives: the port is not found, and nothing is done, or its
-- power is cycled.
abbrev pub Reset :
    Sysfs → Ports → OpenFd → List PortEvent → Result (Unit {0}) × List PortEvent → Type 0
Reset sysfs ports fd t r =
    ((r ≡ (err err_usb, t)) × ¬ ((name : Text) × IsPort sysfs fd name))
    ⊎ ((name : Text) × IsPort sysfs fd name
        × (r ≡ cycle_port ports (authorized_file name) t)
        × Cycled (authorized_file name) t r)

-- A reset of the port of an open device: either no directory of /sys/bus/usb/devices stands for
-- the device, and SDRGG_ERR_USB is returned with nothing done to a port; or the port of one that
-- does is cycled. With SDRGG_OK its file got exactly a 0, a pause of 2 s, a 1 and a pause of 3 s:
-- the power was cut and is back. An error is SDRGG_ERR_USB: the first write failed and the power
-- is as it was, or the power was cut, the second write failed and it is off. The port's file is
-- closed again.
pub reset_power-Reset :
    (sysfs : Sysfs) (ports : Ports) (fd : OpenFd) (t : List PortEvent)
    → Reset sysfs ports fd t (reset_power sysfs ports (some fd) none t)
unfolding reset_power
reset_power-Reset sysfs ports fd t =
    done (target sysfs (some fd) none) (target-Resolved sysfs fd fd.valid refl fd.link refl)
  where
    done : (r : Result Text) → Resolved sysfs fd r → Reset sysfs ports fd t (cycle_target ports r t)
    done (ok name) is = inr (name, is, refl, cycle_port-Cycled ports (authorized_file name) t)
    done (err e) (same, absent) = inl (ap (λ x. (err x, t)) same, absent)
    done trap is = absurd is
