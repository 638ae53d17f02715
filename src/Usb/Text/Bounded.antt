-- ===== src/Usb/Text/Bounded.antt =====
-- What atoi gives for a short text is small, and a path of small numbers fits its buffer.
use libsdrgg.Prelude.{
  ℕ, zero, suc, ◌+◌, ◌-◌, ◌*◌, ◌/◌, ◌%◌, ◌≤◌, ◌<◌, ◌≡◌, refl, ap, arith, [], ◌∷◌, ◌++◌, Bool, true,
  false, by_branch, length, length-append, length-replicate, replicate, ltb, take,
}
use libsdrgg.Prelude.Int.{ℤ, pos, negsuc}
use libsdrgg.Usb.Text.{
  Text, is_digit, is_space, skip_spaces, take_sign, scan_digits, signed, atoi, usb_prefix, digits,
  decimal, pad, print3, print_path,
}

abbrev pub pow10 : ℕ → ℕ
pow10 zero = 1
pow10 (suc k) = 10 * pow10 k

pow10-pos : (k : ℕ) → 0 < pow10 k
pow10-pos zero = omega arith
pow10-pos (suc k) = omega (arith, pow10-pos k)

pow10_mono : (k m : ℕ) → k ≤ m → pow10 k ≤ pow10 m
pow10_mono zero m h = omega (arith, pow10-pos m)
pow10_mono (suc k) zero h = absurd (omega arith)
pow10_mono (suc k) (suc m) h = omega (arith, pow10_mono k m (omega arith))

-- `k` and the length of the text.
abbrev further : Text → ℕ → ℕ
further [] k = k
further (c ∷ s) k = further s (suc k)

further-length : (s : Text) (k : ℕ) → further s k ≡ length s + k
further-length [] k = omega arith
further-length (c ∷ s) k = omega (arith, further-length s (suc k))

scan_digits-below : (s : Text) (k n : ℕ) → n < pow10 k → (scan_digits n s).0 < pow10 (further s k)
unfolding scan_digits
scan_digits-below [] k n h = h
scan_digits-below (c ∷ s) k n h =
    by_branch (λ (r : ℕ × Text). r.0 < pow10 (further s (suc k))) (is_digit c) _ _
      (λ e. scan_digits-below s (suc k) (n * 10 + (c - b'0')) (ground arith))
      (λ e.
        let grows = pow10_mono k (further s (suc k)) (omega (arith, further-length s (suc k))) in
        omega (arith, grows))

length-skip_spaces : (s : Text) → length (skip_spaces s) ≤ length s
unfolding skip_spaces
length-skip_spaces [] = omega arith
length-skip_spaces (c ∷ s) =
    by_branch (λ (t : Text). length t ≤ suc (length s)) (is_space c) _ _
      (λ _. omega (arith, length-skip_spaces s)) (λ _. omega arith)

length-take_sign : (s : Text) → length (take_sign s).1 ≤ length s
unfolding take_sign
length-take_sign [] = omega arith
length-take_sign (c ∷ s) = ground arith

-- At most `k` digits.
abbrev pub IsSmall : ℕ → ℤ → Type 0
IsSmall k (pos n) = n < pow10 k
IsSmall k (negsuc n) = suc n < pow10 k

signed-IsSmall : (k : ℕ) (minus : Bool) (n : ℕ) → n < pow10 k → IsSmall k (signed minus n)
signed-IsSmall k false n h = h
signed-IsSmall k true zero h = h
signed-IsSmall k true (suc n) h = h

pub atoi-IsSmall : (s : Text) → length s ≤ 7 → IsSmall 7 (atoi s)
unfolding atoi
atoi-IsSmall s h =
    let (minus, t) = take_sign (skip_spaces s) in
    let short : length t ≤ 7 =
      omega (arith, length-take_sign (skip_spaces s), length-skip_spaces s) in
    let grows = pow10_mono (further t 0) 7 (omega (arith, further-length t 0)) in
    signed-IsSmall 7 minus (scan_digits 0 t).0
      (omega (arith, scan_digits-below t 0 0 (omega arith), grows))

length-digits : (fuel k n : ℕ) → n < pow10 (suc k) → length (digits fuel n) ≤ suc k
unfolding digits
length-digits zero k n h = omega arith
length-digits (suc fuel) k n h =
    last fuel k n h (ltb n 10) refl (λ m. length-digits fuel m (n / 10))
  where
    last :
        (fuel k n : ℕ)
        → n < pow10 (suc k)
        → (b : Bool) → ltb n 10 ≡ b
        → ((m : ℕ) → n / 10 < pow10 (suc m) → length (digits fuel (n / 10)) ≤ suc m)
        → length (elim b [
          | true ↦ (b'0' + n) ∷ []
          | false ↦ digits fuel (n / 10) ++ (b'0' + n % 10) ∷ []
        ])
          ≤ suc k
    last fuel k n h true e ih = omega arith
    last fuel zero n h false e ih = absurd (ground arith)
    last fuel (suc k) n h false e ih =
        omega
          (arith, ih k (omega arith), length-append (digits fuel (n / 10)) ((b'0' + n % 10) ∷ []))

length-pad : (width : ℕ) (s : Text) → length (pad width s) ≡ width - length s + length s
length-pad width s = omega (
  arith,
  length-append (replicate (width - length s) b'0') s,
  length-replicate {A = ℕ} (width - length s) b'0',
)

length-print3 : (z : ℤ) → IsSmall 7 z → length (print3 z) ≤ 8
unfolding print3
length-print3 (pos n) h = omega (arith, length-pad 3 (decimal n), length-digits (suc n) 6 n h)
length-print3 (negsuc n) h =
    omega (arith, length-pad 2 (decimal (suc n)), length-digits (suc (suc n)) 6 (suc n) h)

pub length-take : (n : ℕ) (s : Text) → length (take n s) ≤ n
length-take zero s = omega arith
length-take (suc n) [] = omega arith
length-take (suc n) (c ∷ s) = omega (arith, length-take n s)

pub take-all : (n : ℕ) (s : Text) → length s ≤ n → take n s ≡ s
take-all zero [] h = refl
take-all (suc n) [] h = refl
take-all zero (c ∷ s) h = absurd (omega arith)
take-all (suc n) (c ∷ s) h = ap (λ t. c ∷ t) (take-all n s (omega arith))

pub length-print_path : (bus addr : ℤ) → length (print_path bus addr) ≤ 63
unfolding print_path
length-print_path bus addr = length-take 63 (usb_prefix ++ (print3 bus ++ (b'/' ∷ print3 addr)))

pub print_path-whole :
    (bus addr : ℤ)
    → IsSmall 7 bus
    → IsSmall 7 addr
    → print_path bus addr ≡ usb_prefix ++ (print3 bus ++ (b'/' ∷ print3 addr))
unfolding print_path
print_path-whole bus addr hb ha = take-all 63 _ (
    omega (
      arith,
      length-append (print3 bus) (b'/' ∷ print3 addr),
      length-print3 bus hb,
      length-print3 addr ha,
    ))
