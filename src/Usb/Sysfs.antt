-- ===== src/Usb/Sysfs.antt =====
-- sdrgg_usb.cpp, sub-layer 3: the enumeration, and what `open_path` of sdrgg_core.cpp records of the
-- device it opens. The files under /sys do not change while they are read.
pub mod Listed
use libsdrgg.Prelude.{
  ℕ, zero, suc, ◌+◌, ◌-◌, List, [], ◌∷◌, ◌++◌, Bool, true, false, ◌&&◌, ◌||◌, not, Option, none,
  some, u8, u16, shl, bit_or, ltb, leb, ◌==◌, if◌then◌else◌, length, take, get_or,
}
use libsdrgg.Prelude.Int.{ℤ, pos, negsuc}
use libsdrgg.Types.{tuner_unknown, DevInfo, Reply, done, failed}
use libsdrgg.Usb.Text.{
  Text, codes, ◌>>=◌, until_nul, atoi, strtoul_u16, print_path, parse_path, u8_of,
}

-- The names that readdir gives in /sys/bus/usb/devices, none if opendir fails, and the bytes of a file,
-- none if it cannot be opened or read.
pub record Sysfs : Type 0 where
  pub listing : Option (List Text)
  pub file : Text → Option Text

abbrev pub guard : Bool → Option (Unit {0})
guard true = some tt
guard false = none

-- The first `n` bytes of an attribute; an empty one counts as a failure.
abbrev pub first_bytes : ℕ → Option Text → Option Text
first_bytes n none = none
first_bytes n (some bytes) = elim (take n bytes) [ [] ↦ none | c ∷ s ↦ some (c ∷ s) ]

unfoldable pub read_file : Sysfs → ℕ → Text → Option Text
read_file sysfs n path = first_bytes n (sysfs.file path)

unfoldable pub read_attr : Sysfs → ℕ → Text → Text → Option Text
read_attr sysfs n dir attr = read_file sysfs n (take 255 (dir ++ (b'/' ∷ attr)))

unfoldable pub read_sysfs_attr_u16 : Sysfs → Text → Text → Option ℕ
read_sysfs_attr_u16 sysfs dir attr =
    read_attr sysfs 15 dir attr >>= λ bytes. some (strtoul_u16 (until_nul bytes))

abbrev pub is_eol : ℕ → Bool
is_eol c = c == b'\n' || c == 13

-- Without the ends of lines at its end.
unfoldable pub strip : Text → Text
strip [] = []
strip (c ∷ s) = elim (strip s) [ [] ↦ if is_eol c then [] else c ∷ [] | d ∷ t ↦ c ∷ d ∷ t ]

unfoldable pub read_sysfs_attr_str : Sysfs → ℕ → Text → Text → Option Text
read_sysfs_attr_str sysfs out_sz dir attr =
    read_attr sysfs (out_sz - 1) dir attr >>= λ bytes. some (until_nul (strip bytes))

abbrev pub or_empty : Option Text → Text
or_empty none = []
or_empty (some s) = s

abbrev pub is_hidden : Text → Bool
is_hidden [] = false
is_hidden (c ∷ s) = c == b'.'

abbrev pub vid_realtek : ℕ
vid_realtek = 0x0BDA

abbrev pub is_receiver : ℕ → ℕ → Bool
is_receiver vid pid = vid == vid_realtek && (pid == 0x2832 || pid == 0x2838)

abbrev pub sysfs_devices : Text
sysfs_devices = codes "/sys/bus/usb/devices/"

abbrev pub info_of : ℕ → ℕ → ℤ → ℤ → Text → DevInfo
info_of vid pid busnum devnum serial = record {
  path = print_path busnum devnum;
  vid = vid;
  pid = pid;
  serial = serial;
  bus = u8_of busnum;
  devaddr = u8_of devnum;
  tuner = tuner_unknown;
}

-- One round of the loop, for the directory of this name; none goes on without an entry.
unfoldable pub describe : Sysfs → Text → Option DevInfo
describe sysfs name =
    let dir = sysfs_devices ++ name in
    guard (not (is_hidden name) && ltb (length dir) 256) >>= λ _.
    read_sysfs_attr_u16 sysfs dir (codes "idVendor") >>= λ vid.
    read_sysfs_attr_u16 sysfs dir (codes "idProduct") >>= λ pid.
    guard (is_receiver vid pid) >>= λ _.
    read_sysfs_attr_str sysfs 8 dir (codes "busnum") >>= λ busnum.
    read_sysfs_attr_str sysfs 8 dir (codes "devnum") >>= λ devnum. some (
      info_of vid pid (atoi busnum) (atoi devnum)
        (or_empty (read_sysfs_attr_str sysfs 64 dir (codes "serial"))))

-- While fewer than `max_devs` were found, of which `room` are left.
unfoldable pub enumerate_from : Sysfs → ℕ → List Text → List DevInfo
enumerate_from sysfs zero names = []
enumerate_from sysfs (suc room) [] = []
enumerate_from sysfs (suc room) (name ∷ names) = elim (describe sysfs name) [
  | none ↦ enumerate_from sysfs (suc room) names
  | some info ↦ info ∷ enumerate_from sysfs room names
]

abbrev pub enumerate_names : Sysfs → ℕ → Option (List Text) → List DevInfo
enumerate_names sysfs max_devs none = []
enumerate_names sysfs max_devs (some names) = enumerate_from sysfs max_devs names

-- The entries written, whose number is returned.
unfoldable pub enumerate : Sysfs → ℕ → List DevInfo
enumerate sysfs max_devs = enumerate_names sysfs max_devs sysfs.listing

-- `identity.info` of a device that was opened at a path, from the reply to the request for its
-- descriptor: the numbers stay 0 if the path or the reply does not give them.
unfoldable pub path_bus : Option (ℤ × ℤ) → ℕ
path_bus none = 0
path_bus (some (bus, addr)) = u8_of bus

unfoldable pub path_addr : Option (ℤ × ℤ) → ℕ
path_addr none = 0
path_addr (some (bus, addr)) = u8_of addr

abbrev pub word_at : ℕ → Reply → ℕ
word_at i (failed e) = 0
word_at i (done bytes) =
    if leb 18 (length bytes) then bit_or (get_or bytes i 0) (shl (get_or bytes (i + 1) 0) 8) else 0

unfoldable pub identify : Text → Reply → DevInfo
unfolding path_bus path_addr
identify path reply = record {
  path = take 63 path;
  vid = word_at 8 reply;
  pid = word_at 10 reply;
  serial = [];
  bus = path_bus (parse_path path);
  devaddr = path_addr (parse_path path);
  tuner = tuner_unknown;
}
