-- ===== src/Reset/Power.antt =====
-- sdrgg_reset.cpp, level 4: `resolve_usb_path` and `reset_power`. The files under /sys are read as
-- in the enumeration, and leave no event, since each is closed again; what the writes to a port's
-- `authorized` file give may depend on what was done before.
pub mod Cycle
pub mod Resolved
use libsdrgg.Prelude.{
  ℕ, List, [], ◌∷◌, ◌++◌, Bool, true, false, ◌&&◌, not, Option, none, some, ltb, ◌==◌,
  if◌then◌else◌, length, take,
}
use libsdrgg.Prelude.Int.{ℤ, pos, negsuc}
use libsdrgg.Types.{Result, ok, err, trap, err_usb, err_param}
use libsdrgg.Usb.Text.{Text, codes, ◌>>=◌, until_nul, atoi, parse_path}
use libsdrgg.Usb.Sysfs.{Sysfs, read_file, is_hidden, sysfs_devices}

-- What is done to a port, with its success: opening its file, writing a byte, closing, a pause.
pub data PortEvent : Type 0 where
  opened : Text → Bool → PortEvent
  wrote : ℕ → Bool → PortEvent
  closed : PortEvent
  paused : ℕ → PortEvent

pub record Ports : Type 0 where
  pub grants_open : List PortEvent → Text → Bool
  pub grants_write : List PortEvent → ℕ → Bool

-- `open`, `write` of one byte and `close`.
unfoldable pub write_port : Ports → Text → ℕ → List PortEvent → Bool × List PortEvent
write_port ports path byte t =
    if ports.grants_open t path
    then (let done = ports.grants_write (opened path true ∷ t) byte in
        (done, closed ∷ wrote byte done ∷ opened path true ∷ t))
    else (false, opened path false ∷ t)

abbrev pub authorize : Ports → Text → Bool × List PortEvent → Result (Unit {0}) × List PortEvent
authorize ports path (false, t) = (err err_usb, t)
authorize ports path (true, t) = (ok tt, paused 3000000 ∷ t)

abbrev pub deauthorized : Ports → Text → Bool × List PortEvent → Result (Unit {0}) × List PortEvent
deauthorized ports path (false, t) = (err err_usb, t)
deauthorized ports path (true, t) =
    authorize ports path (write_port ports path b'1' (paused 2000000 ∷ t))

-- The port's cycle, once its name is known.
unfoldable pub cycle_port : Ports → Text → List PortEvent → Result (Unit {0}) × List PortEvent
cycle_port ports path t = deauthorized ports path (write_port ports path b'0' t)

abbrev pub equal_ℤ : ℤ → ℤ → Bool
equal_ℤ (pos a) (pos b) = a == b
equal_ℤ (negsuc a) (negsuc b) = a == b
equal_ℤ _ _ = false

abbrev pub has_colon : Text → Bool
has_colon [] = false
has_colon (c ∷ s) = if c == b':' then true else has_colon s

abbrev pub is_hub : Text → Bool
is_hub (a ∷ b ∷ c ∷ s) = a == b'u' && b == b's' && c == b'b'
is_hub _ = false

-- The number in an attribute of the directory of this name.
unfoldable pub read_number : Sysfs → Text → Text → Option ℤ
read_number sysfs name attr =
    read_file sysfs 15 (take 319 (sysfs_devices ++ (name ++ (b'/' ∷ attr)))) >>= λ bytes.
    some (atoi (until_nul bytes))

abbrev pub is_number : Option ℤ → ℤ → Bool
is_number none z = false
is_number (some x) z = equal_ℤ x z

-- Whether the loop stops at this name.
unfoldable pub is_match : Sysfs → ℤ → ℤ → Text → Bool
is_match sysfs bus devnum name =
    not (is_hidden name)
    && not (has_colon name)
    && not (is_hub name)
    && is_number (read_number sysfs name (codes "busnum")) bus
    && is_number (read_number sysfs name (codes "devnum")) devnum
    && ltb (length name) 64

unfoldable pub find_name : Sysfs → ℤ → ℤ → List Text → Result Text
find_name sysfs bus devnum [] = err err_usb
find_name sysfs bus devnum (name ∷ names) =
    let rest = find_name sysfs bus devnum names in
    if is_match sysfs bus devnum name then ok name else rest

abbrev pub search_names : Sysfs → Option (List Text) → Option (ℤ × ℤ) → Result Text
search_names sysfs (some names) (some (bus, devnum)) = find_name sysfs bus devnum names
search_names sysfs names numbers = err err_usb

-- `link` is what readlink gives for the file descriptor, none if it gives nothing.
abbrev pub resolve_usb_path : Sysfs → Option Text → Result Text
resolve_usb_path sysfs none = err err_usb
resolve_usb_path sysfs (some link) =
    search_names sysfs sysfs.listing (parse_path (until_nul (take 255 link)))

-- A device: whether its file descriptor is valid, and its link.
pub record OpenFd : Type 0 where
  pub valid : Bool
  pub link : Option Text

-- The port's name: `usb_path` if it is given.
abbrev pub target : Sysfs → Option OpenFd → Option Text → Result Text
target sysfs dev (some usb_path) = ok usb_path
target sysfs none none = err err_param
target sysfs (some fd) none = if fd.valid then resolve_usb_path sysfs fd.link else err err_usb

abbrev pub authorized_file : Text → Text
authorized_file name = take 255 (sysfs_devices ++ (name ++ codes "/authorized"))

abbrev pub cycle_target : Ports → Result Text → List PortEvent → Result (Unit {0}) × List PortEvent
cycle_target ports (ok name) t = cycle_port ports (authorized_file name) t
cycle_target ports (err e) t = (err e, t)
cycle_target ports trap t = (trap, t)

unfoldable pub reset_power :
    Sysfs
    → Ports
    → Option OpenFd
    → Option Text
    → List PortEvent
    → Result (Unit {0}) × List PortEvent
reset_power sysfs ports dev usb_path t = cycle_target ports (target sysfs dev usb_path) t
