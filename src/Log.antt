-- ===== src/Log.antt =====
-- sdrgg_debug_log.cpp: the log of the transfers and of the events. The lock makes each call one step.
-- What fopen gives, the environment, the time and the thread are arguments, what is said on stderr is
-- left out. A line is without its end.
pub mod Hex
use libsdrgg.Prelude.{
  ℕ, ◌+◌, ◌-◌, ◌/◌, ◌%◌, ◌^◌, List, [], ◌∷◌, ◌++◌, Bool, true, false, Option, none, some, ltb,
  if◌then◌else◌, length, replicate, take, ◌==◌, ◌||◌,
}
use libsdrgg.Prelude.Int.{ℤ, pos, negsuc}
use libsdrgg.Usb.Text.{Text, codes, decimal, pad}

-- `g_log_fp`, as the name of the file, and `g_log_enabled`; the lines that were written, newest first,
-- each with its file.
pub record Log : Type 0 where
  pub file : Option Text
  pub enabled : Bool
  pub lines : List (Text × Text)

abbrev pub log_init : Log
log_init = record { file = none; enabled = false; lines = [] }

abbrev pub log_path : Option Text → Text
log_path none = codes "/tmp/sdrgg_debug.log"
log_path (some path) = path

-- The two lines with which a log starts.
abbrev pub headings : ℕ → List Text
headings now =
    codes "# timestamp_us | slot | dir | block | reg | data | rc | latency_us | tid"
    ∷ (codes "# sdrgg debug log started at " ++ (decimal now ++ codes " us"))
    ∷ []

abbrev pub in_file : Text → List Text → List (Text × Text)
in_file file [] = []
in_file file (line ∷ lines) = (file, line) ∷ in_file file lines

-- `sdrgg_debug_log_start`; `opened` says whether fopen gives a file.
unfoldable pub log_start : Bool → Option Text → ℕ → Log → Log
log_start true path now l = record {
  file = some (log_path path);
  enabled = true;
  lines = in_file (log_path path) (headings now) ++ l.lines;
}
log_start false path now l = record l { file = none }

unfoldable pub log_stop : Log → Log
log_stop l = record l { file = none; enabled = false }

unfoldable pub log_active : Log → Bool
log_active l = l.enabled

abbrev pub hex_upper : ℕ → ℕ
hex_upper h = if ltb h 10 then b'0' + h else b'A' + (h - 10)

-- "%02X" of a byte.
abbrev pub print_byte : ℕ → Text
print_byte b = hex_upper (b / 16) ∷ hex_upper (b % 16) ∷ []

-- The loop that fills `hex`, of which `hlen` bytes are used.
unfoldable pub print_hex : ℕ → List ℕ → Text
print_hex hlen [] = []
print_hex hlen (b ∷ bs) =
    let rest = print_hex (hlen + 2) bs in if ltb hlen 120 then print_byte b ++ rest else []

-- "%d"
abbrev pub signed_decimal : ℤ → Text
signed_decimal (pos n) = decimal n
signed_decimal (negsuc n) = b'-' ∷ decimal (n + 1)

-- "%-5s"
abbrev pub pad_right : Text → Text
pad_right s = s ++ replicate (5 - length s) b' '

abbrev pub separator : Text
separator = codes " | "

abbrev pub or_dash : Text → Text
or_dash [] = codes "-"
or_dash (c ∷ s) = c ∷ s

-- "%04X" of a register.
abbrev pub print_reg : ℕ → Text
print_reg reg =
    hex_upper (reg / 4096)
    ∷ hex_upper (reg / 256 % 16)
    ∷ hex_upper (reg / 16 % 16)
    ∷ hex_upper (reg % 16)
    ∷ []

-- A transfer, as it is logged.
pub record Entry : Type 0 where
  pub now : ℕ
  pub slot : ℤ
  pub dir : Text
  pub block : Text
  pub reg : ℕ
  pub data_bytes : List ℕ
  pub rc : ℤ
  pub start_us : ℕ
  pub tid : ℕ

-- The line of a transfer.
unfoldable pub line_of : Entry → Text
line_of e =
    decimal e.now
    ++ separator
    ++ signed_decimal e.slot
    ++ separator
    ++ e.dir
    ++ separator
    ++ pad_right e.block
    ++ separator
    ++ codes "0x"
    ++ print_reg e.reg
    ++ separator
    ++ or_dash (print_hex 0 e.data_bytes)
    ++ separator
    ++ signed_decimal e.rc
    ++ separator
    ++ decimal ((e.now + 2 ^ 64 - e.start_us) % 2 ^ 64)
    ++ separator
    ++ decimal e.tid

abbrev pub append_line : Bool → Option Text → Text → List (Text × Text) → List (Text × Text)
append_line true (some file) line lines = (file, line) ∷ lines
append_line _ _ line lines = lines

unfoldable pub log_write : Entry → Log → Log
log_write e l = record l { lines = append_line l.enabled l.file (line_of e) l.lines }

-- An event; `text` is what vsnprintf makes of its format, without a bound.
pub record Occurrence : Type 0 where
  pub at : ℕ
  pub slot : ℤ
  pub name : Text
  pub text : Text
  pub tid : ℕ

unfoldable pub event_line : Occurrence → Text
event_line e =
    decimal e.at
    ++ separator
    ++ signed_decimal e.slot
    ++ separator
    ++ codes "EVENT"
    ++ separator
    ++ pad_right e.name
    ++ separator
    ++ take 255 e.text
    ++ separator
    ++ decimal e.tid

unfoldable pub log_event : Occurrence → Log → Log
log_event e l = record l { lines = append_line l.enabled l.file (event_line e) l.lines }

abbrev pub asks_for_log : Option Text → Bool
asks_for_log none = false
asks_for_log (some []) = false
asks_for_log (some (c ∷ s)) = c == b'1' || c == b'y' || c == b'Y'

-- `sdrgg_debug_log_auto_init`, from the two environment variables.
unfoldable pub log_auto_init : Option Text → Option Text → Bool → ℕ → Log → Log
log_auto_init env path opened now l =
    let started = log_start opened path now l in if asks_for_log env then started else l
