-- ===== src/Usb/Text.antt =====
-- The functions of the C library that read and print the texts of sdrgg_usb.cpp, sdrgg_core.cpp and
-- sdrgg_reset.cpp: atoi, strtoul in base 16, sscanf with "/dev/bus/usb/%d/%d" and snprintf with
-- "/dev/bus/usb/%03d/%03d". A text is the list of its bytes, without the NUL at its end; the numbers
-- are taken to fit C's types, as those of at most 15 digits that the sources read do for strtoul.
pub mod Printed
pub mod Bounded
use Prim.Native.Char.{code}
use Prim.Native.String.{String}
use libsdrgg.Prelude.{
  ℕ, zero, suc, ◌+◌, ◌-◌, ◌*◌, ◌/◌, ◌%◌, ◌^◌, List, [], ◌∷◌, ◌++◌, Bool, true, false, ◌&&◌, ◌||◌,
  Option, none, some, leb, ltb, ◌==◌, if◌then◌else◌, length, replicate, take,
}
use libsdrgg.Prelude.Int.{ℤ, pos, negsuc}

abbrev pub Text : Type 0
Text = List ℕ

abbrev pub codes : String → Text
codes String.[] = []
codes (String.◌∷◌ c s) = code c ∷ codes s

module _ {A B : Type 0} where
  infixl 5 ◌>>=◌
  unfoldable pub ◌>>=◌ : Option A → (A → Option B) → Option B
  none >>= f = none
  some a >>= f = f a

abbrev pub is_digit : ℕ → Bool
is_digit c = leb b'0' c && leb c b'9'

abbrev pub is_space : ℕ → Bool
is_space c = c == b' ' || leb 9 c && leb c 13

-- The bytes up to a NUL.
unfoldable pub until_nul : Text → Text
until_nul [] = []
until_nul (c ∷ s) = let rest = until_nul s in if c == 0 then [] else c ∷ rest

unfoldable pub skip_spaces : Text → Text
skip_spaces [] = []
skip_spaces (c ∷ s) = let rest = skip_spaces s in if is_space c then rest else c ∷ s

-- Whether there is a minus sign, and what follows the sign.
unfoldable pub take_sign : Text → Bool × Text
take_sign [] = (false, [])
take_sign (c ∷ s) =
    if c == b'-' then (true, s) else if c == b'+' then (false, s) else (false, c ∷ s)

-- The number that the digits at the front continue, and what follows them.
unfoldable pub scan_digits : ℕ → Text → ℕ × Text
scan_digits n [] = (n, [])
scan_digits n (c ∷ s) =
    let rest = scan_digits (n * 10 + (c - b'0')) s in if is_digit c then rest else (n, c ∷ s)

abbrev pub signed : Bool → ℕ → ℤ
signed false n = pos n
signed true zero = pos 0
signed true (suc n) = negsuc n

unfoldable pub atoi : Text → ℤ
unfolding skip_spaces take_sign scan_digits
atoi s = let (minus, t) = take_sign (skip_spaces s) in signed minus (scan_digits 0 t).0

abbrev pub starts_digit : Text → Bool
starts_digit [] = false
starts_digit (c ∷ s) = is_digit c

-- "%d" of sscanf
unfoldable pub scan_int : Text → Option (ℤ × Text)
unfolding skip_spaces take_sign scan_digits
scan_int s =
    let (minus, t) = take_sign (skip_spaces s) in
    let (n, rest) = scan_digits 0 t in if starts_digit t then some (signed minus n, rest) else none

-- A part of sscanf's format that is matched as it is.
unfoldable pub scan_text : Text → Text → Option Text
scan_text [] s = some s
scan_text (c ∷ cs) [] = none
scan_text (c ∷ cs) (b ∷ s) = let rest = scan_text cs s in if b == c then rest else none

abbrev pub usb_prefix : Text
usb_prefix = codes "/dev/bus/usb/"

-- Both numbers of a path, if sscanf assigns both.
unfoldable pub parse_path : Text → Option (ℤ × ℤ)
unfolding scan_int scan_text
parse_path s = scan_text usb_prefix s >>= λ t. scan_int t >>= λ (bus, u).
    scan_text (b'/' ∷ []) u >>= λ v. scan_int v >>= λ (addr, _). some (bus, addr)

unfoldable pub hex_digit : ℕ → Option ℕ
hex_digit c =
    if is_digit c
    then some (c - b'0')
    else if leb b'a' c && leb c b'f'
    then some (c - b'a' + 10)
    else if leb b'A' c && leb c b'F'
    then some (c - b'A' + 10)
    else none

unfoldable pub scan_hex : ℕ → Text → ℕ
scan_hex n [] = n
scan_hex n (c ∷ s) = elim (hex_digit c) [ none ↦ n | some h ↦ scan_hex (n * 16 + h) s ]

-- A `0x` before a digit.
unfoldable pub skip_0x : Text → Text
skip_0x (c ∷ x ∷ h ∷ s) =
    if c == b'0' && (x == b'x' || x == b'X')
    then elim (hex_digit h) [ none ↦ c ∷ x ∷ h ∷ s | some _ ↦ h ∷ s ]
    else c ∷ x ∷ h ∷ s
skip_0x s = s

-- `(uint16_t)strtoul( s, NULL, 16 )`
unfoldable pub strtoul_u16 : Text → ℕ
strtoul_u16 s =
    let (minus, t) = take_sign (skip_spaces s) in
    let n = scan_hex 0 (skip_0x t) % 2 ^ 16 in if minus then (2 ^ 16 - n) % 2 ^ 16 else n

-- The digits of a number, with fuel for as many.
unfoldable pub digits : ℕ → ℕ → Text
digits zero n = []
digits (suc fuel) n = elim (ltb n 10) [
  | true ↦ (b'0' + n) ∷ []
  | false ↦ digits fuel (n / 10) ++ (b'0' + n % 10) ∷ []
]

-- A number needs fewer digits than its value and 1.
abbrev pub decimal : ℕ → Text
decimal n = digits (suc n) n

abbrev pub pad : ℕ → Text → Text
pad width s = replicate (width - length s) b'0' ++ s

-- "%03d"
unfoldable pub print3 : ℤ → Text
print3 (pos n) = pad 3 (decimal n)
print3 (negsuc n) = b'-' ∷ pad 2 (decimal (suc n))

-- What snprintf leaves in a buffer of 64 bytes.
unfoldable pub print_path : ℤ → ℤ → Text
print_path bus addr = take 63 (usb_prefix ++ (print3 bus ++ (b'/' ∷ print3 addr)))

-- `(uint8_t)`
abbrev pub u8_of : ℤ → ℕ
u8_of (pos n) = n % 256
u8_of (negsuc n) = 255 - n % 256
