-- ===== src/Log/Hex.antt =====
-- The data of a logged transfer.
use libsdrgg.Prelude.{
  ℕ, zero, suc, ◌+◌, ◌*◌, ◌/◌, ◌%◌, ◌≤◌, ◌<◌, ◌≡◌, refl, arith, List, [], ◌∷◌, ◌++◌, Option, none,
  some, ltb, length, take, by_branch,
}
use libsdrgg.Usb.Text.{Text, hex_digit}
use libsdrgg.Log.{hex_upper, print_byte, print_hex}

abbrev byte_of : Option ℕ → Option ℕ → Option (List ℕ) → Option (List ℕ)
byte_of (some h) (some l) (some bytes) = some ((h * 16 + l) ∷ bytes)
byte_of h l rest = none

-- The bytes that pairs of hexadecimal digits stand for.
unfoldable pub scan_bytes : Text → Option (List ℕ)
scan_bytes [] = some []
scan_bytes (a ∷ []) = none
scan_bytes (a ∷ b ∷ s) = byte_of (hex_digit a) (hex_digit b) (scan_bytes s)

abbrev pub AreBytes : List ℕ → Type 0
AreBytes [] = Unit
AreBytes (b ∷ bs) = (b < 256) × AreBytes bs

hex_digit-upper : (h : ℕ) → h < 16 → hex_digit (hex_upper h) ≡ some h
unfolding hex_digit
hex_digit-upper h below = ground arith

-- With room for `k` bytes.
abbrev Holds : ℕ → List ℕ → Text → Type 0
Holds k bs s = (length s ≤ k * 2) × (scan_bytes s ≡ some (take k bs))

hex-Holds :
    (k hlen : ℕ) (bs : List ℕ) → AreBytes bs → hlen + k * 2 ≡ 120 → Holds k bs (print_hex hlen bs)
unfolding print_hex scan_bytes
hex-Holds zero hlen [] bytes e = (omega arith, refl)
hex-Holds (suc k) hlen [] bytes e = (omega arith, refl)
hex-Holds zero hlen (b ∷ bs) bytes e =
    by_branch (Holds zero (b ∷ bs)) (ltb hlen 120) _ _ (λ h. absurd (ground arith))
      (λ _. (omega arith, refl))
hex-Holds (suc k) hlen (b ∷ bs) (byte, bytes) e =
    by_branch (Holds (suc k) (b ∷ bs)) (ltb hlen 120) _ _
      (λ _. one_more (print_hex (hlen + 2) bs) (hex-Holds k (hlen + 2) bs bytes (omega arith)))
      (λ h. absurd (ground arith))
  where
    one_more : (s : Text) → Holds k bs s → Holds (suc k) (b ∷ bs) (print_byte b ++ s)
    one_more s (short, same) =
        let high : hex_digit (hex_upper (b / 16)) ≡ some (b / 16) =
          hex_digit-upper (b / 16) (omega arith) in
        let low : hex_digit (hex_upper (b % 16)) ≡ some (b % 16) =
          hex_digit-upper (b % 16) (omega arith) in
        let whole : b / 16 * 16 + b % 16 ≡ b = omega arith in
        let scanned : scan_bytes (print_byte b ++ s) ≡ some (b ∷ take k bs) =
          rw (high, low, same, whole) refl in
        (omega arith, scanned)

-- The hexadecimal digits that are logged of a transfer fit their buffer of 128 bytes with its end,
-- and read back they are the first 60 bytes of the data.
pub print_hex-Holds :
    (bs : List ℕ)
    → AreBytes bs
    → (length (print_hex 0 bs) < 128) × (scan_bytes (print_hex 0 bs) ≡ some (take 60 bs))
print_hex-Holds bs bytes =
    let (short, same) = hex-Holds 60 0 bs bytes refl in (omega (arith, short), same)
