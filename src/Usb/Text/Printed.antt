-- ===== src/Usb/Text/Printed.antt =====
-- A path that is printed from two numbers reads back as them.
use mathlib.Core.List.{append-nil, append_assoc}
use libsdrgg.Prelude.{
  ℕ, zero, suc, ◌+◌, ◌-◌, ◌*◌, ◌/◌, ◌%◌, ◌<◌, ◌≡◌, refl, ap, ◌∙◌, arith, [], ◌∷◌, ◌++◌, true, false,
  inl, inr, le_or_lt, ◌≤◌, some, length, replicate, ltb,
}
use libsdrgg.Prelude.Int.{ℤ, pos, negsuc}
use libsdrgg.Usb.Text.{
  Text, is_digit, skip_spaces, take_sign, scan_digits, starts_digit, scan_int, usb_prefix,
  parse_path, digits, decimal, pad, print3, ◌>>=◌,
}

-- One digit more.
scan-digit :
    (n x : ℕ) (rest : Text)
    → x < 10
    → scan_digits n ((b'0' + x) ∷ rest) ≡ scan_digits (n * 10 + x) rest
unfolding scan_digits
scan-digit n x rest h =
    let inside : is_digit (b'0' + x) ≡ true = ground arith in
    let value : n * 10 + (b'0' + x - b'0') ≡ n * 10 + x = omega arith in rw (inside, value) refl

digits-last : (fuel n : ℕ) → n < 10 → digits (suc fuel) n ≡ (b'0' + n) ∷ []
unfolding digits
digits-last fuel n h = let small : ltb n 10 ≡ true = ground arith in rw (small, digits) refl

digits-more :
    (fuel n : ℕ) → 10 ≤ n → digits (suc fuel) n ≡ digits fuel (n / 10) ++ (b'0' + n % 10) ∷ []
unfolding digits
digits-more fuel n h = let large : ltb n 10 ≡ false = ground arith in rw (large, digits) refl

zero-add : (n : ℕ) → 0 * 10 + n ≡ n
zero-add n = omega arith

scan-digits :
    (fuel n : ℕ) (rest : Text)
    → n < fuel
    → scan_digits 0 (digits fuel n ++ rest) ≡ scan_digits n rest
scan-digits zero n rest h = absurd (omega arith)
scan-digits (suc fuel) n rest h = elim (le_or_lt 10 n) [
  | inr small ↦
      rw (digits-last fuel n small)
        (scan-digit 0 n rest small ∙ ap (λ m. scan_digits m rest) (zero-add n))
  | inl large ↦
      let parts : n / 10 * 10 + n % 10 ≡ n = omega arith in
      rw (digits-more fuel n large, append_assoc)
        (scan-digits fuel (n / 10) ((b'0' + n % 10) ∷ rest) (omega arith)
          ∙ scan-digit (n / 10) (n % 10) rest (omega arith)
          ∙ ap (λ m. scan_digits m rest) parts)
]

scan-zeros : (k : ℕ) (rest : Text) → scan_digits 0 (replicate k b'0' ++ rest) ≡ scan_digits 0 rest
unfolding scan_digits
scan-zeros zero rest = refl
scan-zeros (suc k) rest = scan-zeros k rest

scan-pad :
    (width n : ℕ) (rest : Text) → scan_digits 0 (pad width (decimal n) ++ rest) ≡ scan_digits n rest
scan-pad width n rest =
    let zeros = width - length (decimal n) in
    rw append_assoc
      (scan-zeros zeros (decimal n ++ rest) ∙ scan-digits (suc n) n rest (omega arith))

-- A printed number begins with a digit.
digits-starts : (fuel n : ℕ) (rest : Text) → n < fuel → starts_digit (digits fuel n ++ rest) ≡ true
digits-starts zero n rest h = absurd (omega arith)
digits-starts (suc fuel) n rest h = elim (le_or_lt 10 n) [
  | inr small ↦ rw (digits-last fuel n small) (ground arith)
  | inl large ↦
      rw (digits-more fuel n large, append_assoc)
        (digits-starts fuel (n / 10) ((b'0' + n % 10) ∷ rest) (omega arith))
]

zeros-starts :
    (k : ℕ) (s : Text) → starts_digit s ≡ true → starts_digit (replicate k b'0' ++ s) ≡ true
zeros-starts zero s h = h
zeros-starts (suc k) s h = refl

pad-starts : (width n : ℕ) (rest : Text) → starts_digit (pad width (decimal n) ++ rest) ≡ true
pad-starts width n rest = rw append_assoc (
    zeros-starts (width - length (decimal n)) (decimal n ++ rest)
      (digits-starts (suc n) n rest (omega arith)))

plain : (s : Text) → starts_digit s ≡ true → take_sign (skip_spaces s) ≡ (false, s)
unfolding take_sign skip_spaces
plain [] h = absurd (cc)
plain (c ∷ s) h = ground arith

ended : (n : ℕ) (rest : Text) → starts_digit rest ≡ false → scan_digits n rest ≡ (n, rest)
unfolding scan_digits
ended n [] h = refl
ended n (c ∷ rest) h = rw h refl

pub scan_int-print3 :
    (z : ℤ) (rest : Text) → starts_digit rest ≡ false → scan_int (print3 z ++ rest) ≡ some (z, rest)
unfolding scan_int print3 skip_spaces take_sign
scan_int-print3 (pos n) rest h =
    rw (plain _ (pad-starts 3 n rest), scan-pad 3 n rest, ended n rest h, pad-starts 3 n rest) refl
scan_int-print3 (negsuc n) rest h =
    rw (signs _, scan-pad 2 (suc n) rest, ended (suc n) rest h, pad-starts 2 (suc n) rest) refl
  where
    signs : (s : Text) → take_sign (skip_spaces (b'-' ∷ s)) ≡ (true, s)
    signs s = refl

pub parse_path-print :
    (bus addr : ℤ)
    → parse_path (usb_prefix ++ (print3 bus ++ (b'/' ∷ print3 addr))) ≡ some (bus, addr)
unfolding parse_path ◌>>=◌
parse_path-print bus addr =
    let first = scan_int-print3 bus (b'/' ∷ print3 addr) refl in
    let second = rw append-nil at (scan_int-print3 addr [] refl) in rw (first, second) refl
