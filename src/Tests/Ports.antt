-- ===== src/Tests/Ports.antt =====
-- The enumeration, opening by index, the power cycle of a port and the log at concrete inputs.
use libsdrgg.Prelude.{
  List, [], ◌∷◌, ◌≤◌, ◌<◌, Bool, true, false, Option, none, some, ◌≡◌, refl, arith, length, take,
  ◌==◌, if◌then◌else◌,
}
use libsdrgg.Types.{ok}
use libsdrgg.Usb.Text.{
  Text, codes, ◌>>=◌, until_nul, skip_spaces, take_sign, scan_digits, atoi, scan_int, scan_text,
  parse_path, hex_digit, scan_hex, skip_0x, strtoul_u16,
}
use libsdrgg.Usb.Sysfs.{
  Sysfs, enumerate, enumerate_from, describe, read_sysfs_attr_u16, read_sysfs_attr_str, strip,
  read_attr, read_file,
}
use libsdrgg.Usb.Sysfs.Listed.{AreListed, enumerate-AreListed}
use libsdrgg.Reset.Power.{
  Ports, OpenFd, reset_power, cycle_port, write_port, find_name, is_match, read_number,
}
use libsdrgg.Reset.Power.Resolved.{Reset, reset_power-Reset}
use libsdrgg.Log.{print_hex}
use libsdrgg.Log.Hex.{scan_bytes, print_hex-Holds}

-- Whether two texts are the same.
abbrev same_text : Text → Text → Bool
same_text [] [] = true
same_text (a ∷ s) (b ∷ t) = if a == b then same_text s t else false
same_text s t = false

abbrev lookup : List (Text × Text) → Text → Option Text
lookup [] path = none
lookup ((name, bytes) ∷ files) path = if same_text name path then some bytes else lookup files path

-- A receiver on bus 1, with address 4.
abbrev one_receiver : Sysfs
one_receiver = record {
  listing = some (codes "usb1" ∷ codes "1-1" ∷ codes "1-1:1.0" ∷ []);
  file = lookup (
      (codes "/sys/bus/usb/devices/1-1/idVendor", codes "0bda\n")
      ∷ (codes "/sys/bus/usb/devices/1-1/idProduct", codes "2838\n")
      ∷ (codes "/sys/bus/usb/devices/1-1/busnum", codes "1\n")
      ∷ (codes "/sys/bus/usb/devices/1-1/devnum", codes "4\n")
      ∷ []);
}

one_entry : length (enumerate one_receiver 8) ≡ 1
unfolding enumerate enumerate_from describe read_sysfs_attr_u16 read_sysfs_attr_str strip read_attr
    read_file ◌>>=◌ until_nul skip_spaces take_sign scan_hex hex_digit skip_0x strtoul_u16
one_entry = refl

enumerate-AreListed_example :
    AreListed (enumerate one_receiver 8) × (length (enumerate one_receiver 8) ≤ 8)
enumerate-AreListed_example = enumerate-AreListed one_receiver 8

abbrev always : Text → Bool
always path = true

-- Every file can be opened and written.
abbrev open_ports : Ports
open_ports = record { grants_open = λ t path. true; grants_write = λ t byte. true }

abbrev fourth : OpenFd
fourth = record { valid = true; link = some (codes "/dev/bus/usb/001/004") }

reset_power-Reset_example :
    Reset one_receiver open_ports fourth []
      (reset_power one_receiver open_ports (some fourth) none [])
reset_power-Reset_example = reset_power-Reset one_receiver open_ports fourth []

cycles : (reset_power one_receiver open_ports (some fourth) none []).0 ≡ ok tt
unfolding reset_power cycle_port write_port find_name is_match read_number read_file ◌>>=◌ until_nul
    skip_spaces take_sign scan_digits atoi scan_int scan_text parse_path
cycles = refl

print_hex-Holds_example :
    (length (print_hex 0 (0x0B ∷ 0xDA ∷ [])) < 128)
    × (scan_bytes (print_hex 0 (0x0B ∷ 0xDA ∷ [])) ≡ some (take 60 (0x0B ∷ 0xDA ∷ [])))
print_hex-Holds_example = print_hex-Holds (0x0B ∷ 0xDA ∷ []) (omega arith, (omega arith, tt))
