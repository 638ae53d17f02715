-- ===== src/Prelude/Bits.antt =====
-- Laws of `&` and `|` at variables: the equation for the lowest digit, low masks, fields that do
-- not overlap, and the merge of a read-modify-write.
use Prim.Native.Nat.{ℕ, zero, suc, ◌+◌, ◌-◌, ◌*◌, ◌/◌, ◌%◌, ◌^◌, ◌≤◌, ◌<◌, min, max}
use Prim.Native.Nat.{bit_and, bit_or, digits, bit_and-bitwise, bit_or-bitwise}
use mathlib.Core.Path.{◌≡◌, refl, sym, ap, ◌∙◌}
use native.Mathlib.Nat.{
  div-div-eq-div-mul, pow-suc, div-add-mod, mod-lt, mod-eq_of_lt, add-mul-mod_self_left,
}
use native.Mathlib.Omega.{arith}

-- More digits than the first number has make no difference.
module _ (z : ℕ → ℕ) (f : ℕ → ℕ → ℕ) where
  enough_digits : (n a b : ℕ) (m : ℕ) → a ≤ n → a ≤ m → digits z f n a b ≡ digits z f m a b
  enough_digits zero zero b zero p q = refl
  enough_digits zero zero b (suc m) p q = refl
  enough_digits zero (suc a) b m p q = absurd (omega arith)
  enough_digits (suc n) zero b zero p q = refl
  enough_digits (suc n) zero b (suc m) p q = refl
  enough_digits (suc n) (suc a) b zero p q = absurd (omega arith)
  enough_digits (suc n) (suc a) b (suc m) p q =
      omega (arith, enough_digits n (suc a / 2) (b / 2) m (omega arith) (omega arith))

zero-and : (b : ℕ) → bit_and 0 b ≡ 0
zero-and b = bit_and-bitwise 0 b

zero-or : (b : ℕ) → bit_or 0 b ≡ b
zero-or b = bit_or-bitwise 0 b

pub and_step : (a b : ℕ) → bit_and a b ≡ bit_and (a / 2) (b / 2) * 2 + min (a % 2) (b % 2)
and_step zero b = omega (arith, zero-and b, zero-and (b / 2))
and_step (suc a) b = omega (
  arith,
  bit_and-bitwise (suc a) b,
  bit_and-bitwise (suc a / 2) (b / 2),
  enough_digits (λ y. 0) min a (suc a / 2) (b / 2) (suc a / 2) (omega arith) (omega arith),
)

pub or_step : (a b : ℕ) → bit_or a b ≡ bit_or (a / 2) (b / 2) * 2 + max (a % 2) (b % 2)
or_step zero b = omega (arith, zero-or b, zero-or (b / 2))
or_step (suc a) b = omega (
  arith,
  bit_or-bitwise (suc a) b,
  bit_or-bitwise (suc a / 2) (b / 2),
  enough_digits (λ y. y) max a (suc a / 2) (b / 2) (suc a / 2) (omega arith) (omega arith),
)

-- `w` ones, and so `2 ^ w - 1`.
abbrev pub ones : ℕ → ℕ
ones zero = 0
ones (suc w) = 2 * ones w + 1

-- What a `w`-digit number has in common with a mask and with its complement: laws by digits.
pub and_le_ones : (w a b : ℕ) → a ≤ ones w → bit_and a b ≤ ones w
and_le_ones zero zero b h = omega (arith, zero-and b)
and_le_ones zero (suc a) b h = absurd (omega arith)
and_le_ones (suc w) a b h = omega (arith, and_step a b, and_le_ones w (a / 2) (b / 2) (omega arith))

pub or_le_ones : (w a b : ℕ) → a ≤ ones w → b ≤ ones w → bit_or a b ≤ ones w
or_le_ones zero zero b h k = omega (arith, zero-or b)
or_le_ones zero (suc a) b h k = absurd (omega arith)
or_le_ones (suc w) a b h k =
    omega (arith, or_step a b, or_le_ones w (a / 2) (b / 2) (omega arith) (omega arith))

-- `(cur & ~mask) | (val & mask)`
abbrev pub merge : ℕ → ℕ → ℕ → ℕ → ℕ
merge w cur val mask = bit_or (bit_and cur (ones w - mask)) (bit_and val mask)

-- The lowest digit of a merge, and the rest.
merge_step :
    (w cur val mask : ℕ)
    → mask ≤ ones (suc w)
    → merge (suc w) cur val mask
      ≡ merge w (cur / 2) (val / 2) (mask / 2) * 2
        + max (min (cur % 2) (1 - mask % 2)) (min (val % 2) (mask % 2))
merge_step w cur val mask h =
    let half : (ones (suc w) - mask) / 2 ≡ ones w - mask / 2 = omega arith in
    rw (← half) (
      omega (
        arith,
        or_step (bit_and cur (ones (suc w) - mask)) (bit_and val mask),
        and_step cur (ones (suc w) - mask),
        and_step val mask,
        same_high _ _ _ _ (high cur (ones (suc w) - mask)) (high val mask),
      ))
  where
    high : (a b : ℕ) → bit_and a b / 2 ≡ bit_and (a / 2) (b / 2)
    high a b = omega (arith, and_step a b)

    same_high : (a b c d : ℕ) → a ≡ b → c ≡ d → bit_or a c ≡ bit_or b d
    same_high a b c d p q = rw (p, q)

and_zero_upto : (n a : ℕ) → a ≤ n → bit_and a 0 ≡ 0
and_zero_upto n zero h = refl
and_zero_upto zero (suc a) h = absurd (omega arith)
and_zero_upto (suc n) (suc a) h =
    omega (arith, and_step (suc a) 0, and_zero_upto n (suc a / 2) (omega arith))

pub and_zero : (a : ℕ) → bit_and a 0 ≡ 0
and_zero a = and_zero_upto a a (omega arith)

-- A merge keeps the digits outside the mask.
pub merge_keeps :
    (w cur val mask : ℕ)
    → mask ≤ ones w
    → bit_and (merge w cur val mask) (ones w - mask) ≡ bit_and cur (ones w - mask)
merge_keeps zero cur val mask h =
    let none_out : ones zero - mask ≡ 0 = omega arith in
    rw none_out (and_zero _ ∙ sym (and_zero cur))
merge_keeps (suc w) cur val mask h = ground (
  arith,
  and_step (merge (suc w) cur val mask) (ones (suc w) - mask),
  and_step cur (ones (suc w) - mask),
  merge_step w cur val mask h,
  merge_keeps w (cur / 2) (val / 2) (mask / 2),
)

-- A merge takes the digits under the mask from `val`.
pub merge_sets :
    (w cur val mask : ℕ) → mask ≤ ones w → bit_and (merge w cur val mask) mask ≡ bit_and val mask
merge_sets zero cur val mask h =
    let none_in : mask ≡ 0 = omega arith in rw none_in (and_zero _ ∙ sym (and_zero val))
merge_sets (suc w) cur val mask h = ground (
  arith,
  and_step (merge (suc w) cur val mask) mask,
  and_step val mask,
  merge_step w cur val mask h,
  merge_sets w (cur / 2) (val / 2) (mask / 2),
)

-- One binary digit of a remainder by a power of two.
mod_double : (p a : ℕ) → 0 < p → a % (p * 2) ≡ a / 2 % p * 2 + a % 2
mod_double p a h =
    let rest : ℕ = a / 2 % p * 2 + a % 2 in
    ap (λ t. t % (p * 2)) whole
    ∙ add-mul-mod_self_left rest (p * 2) (a / 2 / p)
    ∙ mod-eq_of_lt (omega (arith, mod-lt (a / 2) h))
  where
    whole : a ≡ a / 2 % p * 2 + a % 2 + p * 2 * (a / 2 / p)
    whole = omega (arith, div-add-mod (a / 2) p)

pub pow_pos : (k : ℕ) → 0 < 2 ^ k
pow_pos zero = omega arith
pow_pos (suc k) = omega (arith, pow-suc 2 k, pow_pos k)

-- A mask of `k` low ones is the remainder by `2 ^ k`.
pub and_ones : (k a : ℕ) → bit_and a (ones k) ≡ a % 2 ^ k
and_ones zero a = omega (arith, and_zero a)
and_ones (suc k) a = ground (
  arith,
  and_step a (ones (suc k)),
  and_ones k (a / 2),
  mod_double (2 ^ k) a (pow_pos k),
  pow-suc 2 k,
)

or_zero_upto : (n a : ℕ) → a ≤ n → bit_or a 0 ≡ a
or_zero_upto n zero h = refl
or_zero_upto zero (suc a) h = absurd (omega arith)
or_zero_upto (suc n) (suc a) h =
    omega (arith, or_step (suc a) 0, or_zero_upto n (suc a / 2) (omega arith))

pub or_zero : (a : ℕ) → bit_or a 0 ≡ a
or_zero a = or_zero_upto a a (omega arith)

-- `|` of a low field and a shifted one is their sum.
pub or_shl : (k lo hi : ℕ) → lo < 2 ^ k → bit_or lo (hi * 2 ^ k) ≡ lo + hi * 2 ^ k
or_shl zero zero hi h = omega (arith, zero-or (hi * 2 ^ 0))
or_shl zero (suc lo) hi h = absurd (omega arith)
or_shl (suc k) lo hi h = ground (
  arith,
  pow-suc 2 k,
  ap (λ (t : ℕ). hi * t) (pow-suc 2 k),
  or_step lo (hi * 2 ^ suc k),
  or_shl k (lo / 2) hi,
)

-- `&` with a mask that ends in `k` zeros.
pub and_shl : (k a b : ℕ) → bit_and a (b * 2 ^ k) ≡ bit_and (a / 2 ^ k) b * 2 ^ k
and_shl zero a b =
    let same : b * 2 ^ 0 ≡ b = omega arith in
    let same' : a / 2 ^ 0 ≡ a = omega arith in rw (same, same') (omega arith)
and_shl (suc k) a b =
    let halves : a / 2 / 2 ^ k ≡ a / 2 ^ suc k =
      div-div-eq-div-mul a 2 (2 ^ k) ∙ ap (λ (t : ℕ). a / t) (omega (arith, pow-suc 2 k)) in
    omega (
      arith,
      pow-suc 2 k,
      ap (λ (t : ℕ). b * t) (pow-suc 2 k),
      ap (λ (t : ℕ). bit_and (a / 2 ^ suc k) b * t) (pow-suc 2 k),
      and_step a (b * 2 ^ suc k),
      ap (λ (t : ℕ). bit_and (a / 2) t) (half b k),
      and_shl k (a / 2) b,
      ap (λ (t : ℕ). bit_and t b * 2 ^ k) halves,
    )
  where
    half : (c j : ℕ) → c * 2 ^ suc j / 2 ≡ c * 2 ^ j
    half c j = omega (arith, ap (λ (t : ℕ). c * t) (pow-suc 2 j))
