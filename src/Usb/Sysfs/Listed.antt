-- ===== src/Usb/Sysfs/Listed.antt =====
-- What the enumeration lists, and that opening a listed device names the same one.
use libsdrgg.Prelude.{
  ℕ, zero, suc, ◌≤◌, ◌≡◌, refl, ap, ◌∙◌, subst, arith, List, [], ◌∷◌, Bool, true, false, Option,
  none, some, length, take, ◌++◌, ◌==◌, by_branch, if◌then◌else◌,
}
use libsdrgg.Prelude.Int.{ℤ}
use libsdrgg.Types.{DevInfo, Reply}
use libsdrgg.Usb.Text.{Text, codes, ◌>>=◌, until_nul, atoi, print_path, parse_path}
use libsdrgg.Usb.Text.Printed.{parse_path-print}
use libsdrgg.Usb.Text.Bounded.{
  IsSmall, atoi-IsSmall, print_path-whole, length-print_path, length-take, take-all,
}
use libsdrgg.Usb.Sysfs.{
  Sysfs, guard, first_bytes, read_file, read_attr, read_sysfs_attr_str, is_eol, strip, is_receiver,
  sysfs_devices, info_of, or_empty, describe, enumerate_from, enumerate_names, enumerate, path_bus,
  path_addr, identify,
}

-- What holds of a chain of steps: if the first gives nothing, and otherwise.
chained :
    {A B : Type 0} (P : Option B → Type 0) (o : Option A) (f : A → Option B)
    → P none
    → ((a : A) → o ≡ some a → P (f a))
    → P (o >>= f)
unfolding ◌>>=◌
chained P none f base step = base
chained P (some a) f base step = step a refl

guarded : (b : Bool) → guard b ≡ some tt → b ≡ true
guarded true e = refl
guarded false e = absurd (cc)

length-until_nul : (s : Text) → length (until_nul s) ≤ length s
unfolding until_nul
length-until_nul [] = omega arith
length-until_nul (c ∷ s) =
    by_branch (λ (t : Text). length t ≤ suc (length s)) (c == 0) _ _ (λ _. omega arith)
      (λ _. omega (arith, length-until_nul s))

length-strip : (s : Text) → length (strip s) ≤ length s
unfolding strip
length-strip [] = omega arith
length-strip (c ∷ s) = one_more (strip s) (length-strip s)
  where
    one_more :
        (t : Text)
        → length t ≤ length s
        → length (elim t [ [] ↦ if is_eol c then [] else c ∷ [] | d ∷ u ↦ c ∷ d ∷ u ])
          ≤ suc (length s)
    one_more [] h =
        by_branch (λ (t : Text). length t ≤ suc (length s)) (is_eol c) _ _ (λ _. omega arith)
          (λ _. omega arith)
    one_more (d ∷ u) h = omega arith

first_bytes-length :
    (n : ℕ) (o : Option Text) (bytes : Text) → first_bytes n o ≡ some bytes → length bytes ≤ n
first_bytes-length n none bytes e = absurd (cc)
first_bytes-length n (some s) bytes e = go (take n s) (length-take n s) e
  where
    go :
        (t : Text)
        → length t ≤ n
        → elim t [ [] ↦ none | c ∷ u ↦ some (c ∷ u) ] ≡ some bytes
        → length bytes ≤ n
    go [] h e' = absurd (cc)
    go (c ∷ u) h e' = let same : c ∷ u ≡ bytes = cc in subst (λ t. length t ≤ n) same h

some-inj : {A : Type 0} {a b : A} → some a ≡ some b → a ≡ b
some-inj e = cc

-- A number that is read in 8 bytes is small.
abbrev IsNumber : Option Text → Type 0
IsNumber o = (s : Text) → o ≡ some s → IsSmall 7 (atoi s)

read_sysfs_attr_str-IsNumber :
    (sysfs : Sysfs) (dir attr : Text) → IsNumber (read_sysfs_attr_str sysfs 8 dir attr)
unfolding read_sysfs_attr_str read_attr read_file
read_sysfs_attr_str-IsNumber sysfs dir attr =
    chained IsNumber _ _ (λ s e. absurd (cc))
      λ bytes given s e.
        let text : until_nul (strip bytes) ≡ s = some-inj e in
        let short : length (until_nul (strip bytes)) ≤ 7 = omega (
          arith,
          first_bytes-length 7 _ bytes given,
          length-strip bytes,
          length-until_nul (strip bytes),
        ) in
        atoi-IsSmall s (subst (λ t. length t ≤ 7) text short)

-- An entry is of a receiver, and what opening its path records, whatever the descriptor, has the same
-- path, bus and address.
abbrev pub IsListed : DevInfo → Type 0
IsListed info =
    (is_receiver info.vid info.pid ≡ true)
    × ((reply : Reply)
        → ((identify info.path reply).path ≡ info.path)
          × ((identify info.path reply).bus ≡ info.bus)
          × ((identify info.path reply).devaddr ≡ info.devaddr))

info_of-IsListed :
    (vid pid : ℕ) (busnum devnum : ℤ) (serial : Text)
    → is_receiver vid pid ≡ true
    → IsSmall 7 busnum
    → IsSmall 7 devnum
    → IsListed (info_of vid pid busnum devnum serial)
unfolding identify path_bus path_addr
info_of-IsListed vid pid busnum devnum serial known hb hd =
    let whole = print_path-whole busnum devnum hb hd in
    let parsed : parse_path (print_path busnum devnum) ≡ some (busnum, devnum) =
      ap parse_path whole ∙ parse_path-print busnum devnum in
    (
      known,
      λ reply. (
        take-all 63 _ (length-print_path busnum devnum),
        ap path_bus parsed,
        ap path_addr parsed,
      ),
    )

abbrev Lists : Option DevInfo → Type 0
Lists o = (info : DevInfo) → o ≡ some info → IsListed info

nothing : Lists none
nothing info e = absurd (cc)

describe-IsListed : (sysfs : Sysfs) (name : Text) → Lists (describe sysfs name)
unfolding describe
describe-IsListed sysfs name =
    let dir = sysfs_devices ++ name in
    chained Lists _ _ nothing λ _ _. chained Lists _ _ nothing λ vid _.
      chained Lists _ _ nothing λ pid _. chained Lists _ _ nothing λ _ known.
        chained Lists _ _ nothing λ busnum hb. chained Lists _ _ nothing λ devnum hd info e.
          subst IsListed (some-inj e) (
            info_of-IsListed vid pid (atoi busnum) (atoi devnum)
              (or_empty (read_sysfs_attr_str sysfs 64 dir (codes "serial"))) (guarded _ known)
              (read_sysfs_attr_str-IsNumber sysfs dir _ busnum hb)
              (read_sysfs_attr_str-IsNumber sysfs dir _ devnum hd))

abbrev pub AreListed : List DevInfo → Type 0
AreListed [] = Unit
AreListed (info ∷ infos) = IsListed info × AreListed infos

enumerate_from-AreListed :
    (sysfs : Sysfs) (room : ℕ) (names : List Text)
    → AreListed (enumerate_from sysfs room names)
      × (length (enumerate_from sysfs room names) ≤ room)
unfolding enumerate_from
enumerate_from-AreListed sysfs zero names = (tt, omega arith)
enumerate_from-AreListed sysfs (suc room) [] = (tt, omega arith)
enumerate_from-AreListed sysfs (suc room) (name ∷ names) =
    next (describe sysfs name) (describe-IsListed sysfs name)
      (enumerate_from-AreListed sysfs (suc room) names) (enumerate_from-AreListed sysfs room names)
  where
    next :
        (o : Option DevInfo)
        → ((info : DevInfo) → o ≡ some info → IsListed info)
        → AreListed (enumerate_from sysfs (suc room) names)
          × (length (enumerate_from sysfs (suc room) names) ≤ suc room)
        → AreListed (enumerate_from sysfs room names)
          × (length (enumerate_from sysfs room names) ≤ room)
        → let infos : List DevInfo = elim o [
          | none ↦ enumerate_from sysfs (suc room) names
          | some info ↦ info ∷ enumerate_from sysfs room names
        ] in
          AreListed infos × (length infos ≤ suc room)
    next none h skipped taken = skipped
    next (some info) h skipped (listed, fits) = ((h info refl, listed), omega (arith, fits))

names-AreListed :
    (sysfs : Sysfs) (max_devs : ℕ) (o : Option (List Text))
    → AreListed (enumerate_names sysfs max_devs o)
      × (length (enumerate_names sysfs max_devs o) ≤ max_devs)
names-AreListed sysfs max_devs none = (tt, omega arith)
names-AreListed sysfs max_devs (some names) = enumerate_from-AreListed sysfs max_devs names

-- The enumeration lists at most as many devices as asked for, and each is a receiver, whose path,
-- when it is opened, is parsed to the bus and the address of the entry, whatever the descriptor
-- request gives.
pub enumerate-AreListed :
    (sysfs : Sysfs) (max_devs : ℕ)
    → AreListed (enumerate sysfs max_devs) × (length (enumerate sysfs max_devs) ≤ max_devs)
unfolding enumerate
enumerate-AreListed sysfs max_devs = names-AreListed sysfs max_devs sysfs.listing
