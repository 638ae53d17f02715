-- ===== src/Rtl/Exact.antt =====
-- The resampler's committed rate, and the NCO word as the chip gets it.
use libsdrgg.Prelude.{
  [], ◌∷◌, ℕ, ◌+◌, ◌-◌, ◌*◌, ◌/◌, ◌%◌, ◌^◌, ◌≤◌, ◌<◌, ◌≡◌, refl, ◌∙◌, ap, arith, u32, shr, shl,
  bit_and, bit_or, and_step, or_zero, and_ones, and_shl, if◌then◌else◌, ◌==◌,
}
use libsdrgg.Rtl.Rate.{resampler_ratio, effective_ratio, achieved_rate}
use libsdrgg.Rtl.Nco.{nco_pattern, store_if_offset, set_if_freq}
use libsdrgg.Usb.{control_write, control_read}
use libsdrgg.Rtl.Transport.{submit_demod_write}
use libsdrgg.Types.{Host, Dev}
use libsdrgg.Exec.{Status, ignore, modify, gets, ◌>>=◌, ◌>>◌}
use native.Mathlib.Nat.{
  div-eq_of_lt-le, mul-le-mul_right, mul_comm, mul-add, le-div_iff_mul-le, div-lt_iff_lt-mul,
  div-mul-le_self, lt-div-mul-add,
}

-- The mask of the ratio clears the two lowest bits and those from 28 on.
ratio_mask : (x : ℕ) → bit_and x 0x0FFFFFFC ≡ x % 2 ^ 28 - x % 4
ratio_mask x =
    omega (arith, and_step x 0x0FFFFFFC, and_step (x / 2) 0x07FFFFFE, and_ones 26 (x / 2 / 2))

nco_bytes :
    (word : ℕ)
    → bit_and (shr word 16) 0x3F * 2 ^ 16 + bit_and (shr word 8) 0xFF * 2 ^ 8 + bit_and word 0xFF
      ≡ word % 2 ^ 22
nco_bytes word = omega (arith, and_ones 6 (shr word 16), and_ones 8 (shr word 8), and_ones 8 word)

-- A byte to a register of demodulator page 1: the transfer, and the protocol's readback.
abbrev pub write_byte : ℕ → ℕ → Status
write_byte value byte = do
  control_write value 0x11 (byte ∷ [])
  ignore (control_read 0x0120 0x000A 1)

-- The transfers and the store of an NCO word in three bytes, the highest first.
abbrev pub write_nco : ℕ → ℕ → ℕ → ℕ → Status
write_nco high mid low f = do
  write_byte 0x1920 high
  write_byte 0x1A20 mid
  write_byte 0x1B20 low
  modify (store_if_offset f)

-- Bytes, six bits of the first, that are the 22-bit two's complement of the word of an IF.
abbrev pub IsComplement : ℕ → ℕ → ℕ → ℕ → ℕ → Type 0
IsComplement xtal f high mid low =
    (high < 2 ^ 6)
    × (mid < 2 ^ 8)
    × (low < 2 ^ 8)
    × ((high * 2 ^ 16 + mid * 2 ^ 8 + low + (if f == 0 then 0 else f * 2 ^ 22 / xtal)) % 2 ^ 22 ≡ 0)

nco_pattern-IsComplement :
    (xtal f : ℕ)
    → 0 < xtal
    → let word = nco_pattern xtal f in
      IsComplement xtal f
        (bit_and (shr word 16) 0x3F)
        (bit_and (shr word 8) 0xFF)
        (bit_and word 0xFF)
unfolding nco_pattern
nco_pattern-IsComplement xtal f live =
    let word = nco_pattern xtal f in
    (
      omega (arith, and_ones 6 (shr word 16)),
      omega (arith, and_ones 8 (shr word 8)),
      omega (arith, and_ones 8 word),
      ground (arith, nco_bytes word),
    )

low_byte : (x : ℕ) → x < 2 ^ 8 → bit_and x 0xFF ≡ x
low_byte x small = omega (arith, and_ones 8 x)

triple :
    {a b c a' b' c' : ℕ} → a ≡ a' → b ≡ b' → c ≡ c' → ◌≡◌ {A = ℕ × ℕ × ℕ} (a, b, c) (a', b', c')
triple e e' e'' = rw (e, e', e'') refl

-- With an oscillator above 0 Hz, set_if_freq is, whatever the host answers, the control transfers
-- that write three bytes to registers 0x19, 0x1A and 0x1B of demodulator page 1, each followed by
-- the protocol's readback, up to the first that fails, and then the record of the frequency; the
-- first byte has six bits, and together the three are the 22-bit two's complement of the NCO word:
-- added to the word they give 0 modulo 2^22.
pub set_if_freq-bytes :
    (f : ℕ) (host : Host) (d : Dev)
    → 0 < d.oscillator_hz
    → (high : ℕ) × (mid : ℕ) × (low : ℕ) × IsComplement d.oscillator_hz f high mid low
      × (set_if_freq f host d ≡ write_nco high mid low f host d)
unfolding set_if_freq submit_demod_write ◌>>=◌ gets
set_if_freq-bytes f host d live =
    let word = nco_pattern d.oscillator_hz f in
    let bytes = nco_pattern-IsComplement d.oscillator_hz f live in
    (
      _,
      _,
      _,
      bytes,
      ap
          (λ ((a, b, c) : ℕ × ℕ × ℕ).
            (do
              write_byte 0x1920 a
              write_byte 0x1A20 b
              write_byte 0x1B20 c
              modify (store_if_offset f))
              host d)
          (triple (low_byte _ (omega (arith, bytes.0))) (low_byte _ bytes.1) (low_byte _ bytes.2)),
    )

-- A rate `r` of at least 4 r ≤ q - 3: dividing by the masked quotient gives the rate back.
back_again :
    (x r q q' : ℕ)
    → q * r ≤ x
    → x < q * r + r
    → q' ≤ q
    → q ≤ q' + 3
    → 4 * r ≤ q'
    → 0 < r
    → x / q' ≡ r
back_again x r q q' under over less near four positive =
    div-eq_of_lt-le q' (omega (arith, mul-le-mul_right r less, mul_comm r q'))
      (omega (arith, mul-le-mul_right r near, mul_comm r q', mul-add q' 1 r))

no_top_bit : (x : ℕ) → x < 2 ^ 27 → bit_or x (u32 (shl (bit_and x 0x08000000) 1)) ≡ x
no_top_bit x small =
    let above : x / 2 ^ 27 ≡ 0 = omega arith in
    let clear : bit_and x (1 * 2 ^ 27) ≡ 0 =
      and_shl 27 x 1 ∙ ap (λ t. bit_and t 1 * 2 ^ 27) above in
    ap (λ t. bit_or x (u32 (shl t 1))) clear ∙ or_zero x

abbrev pub crystal_hz : ℕ
crystal_hz = 28800000

-- With the nominal crystal, the rate that the resampler ratio of a requested rate above 900 kHz
-- and up to 3.2 MHz gives, and that is committed, is the requested rate.
pub achieved_rate-exact :
    (rate : ℕ)
    → 900000 < rate
    → rate ≤ 3200000
    → achieved_rate crystal_hz (resampler_ratio crystal_hz rate) ≡ rate
unfolding achieved_rate effective_ratio resampler_ratio
achieved_rate-exact rate low high =
    let q : ℕ = crystal_hz * 2 ^ 22 / rate in
    let low_q : 37748736 ≤ q = (le-div_iff_mul-le {k = rate} (omega arith)).1 (omega arith) in
    let high_q : q < 2 ^ 27 = (div-lt_iff_lt-mul {k = rate} (omega arith)).1 (omega arith) in
    let ratio : bit_and (u32 q) 0x0FFFFFFC ≡ q - q % 4 = omega (arith, ratio_mask (u32 q)) in
    rw (ratio, no_top_bit (q - q % 4) (omega arith))
      (ap u32 (
          back_again (crystal_hz * 2 ^ 22) rate q (q - q % 4)
            (div-mul-le_self (crystal_hz * 2 ^ 22) rate) (lt-div-mul-add (omega arith))
            (omega arith) (omega arith) (omega arith) (omega arith))
        ∙ omega arith)
