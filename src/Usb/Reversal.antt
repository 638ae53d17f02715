-- ===== src/Usb/Reversal.antt =====
-- `usb::bitrev8`, bit by bit.
use libsdrgg.Prelude.{
  ℕ, ◌-◌, ◌/◌, ◌%◌, ◌^◌, ◌<◌, true, ◌≡◌, refl, ◌==◌, ==_iff, all_below, all_below-holds,
}
use libsdrgg.Usb.{bitrev8}

-- Bit `i` of a byte.
abbrev pub bit_at : ℕ → ℕ → ℕ
bit_at byte i = byte / 2 ^ i % 2

reversed :
    (byte : ℕ)
    → byte < 256
    → all_below 8 (λ i. bit_at (bitrev8 byte) i == bit_at byte (7 - i)) ≡ true
unfolding bitrev8
reversed byte h =
    all_below-holds 256 (λ b. all_below 8 (λ i. bit_at (bitrev8 b) i == bit_at b (7 - i))) refl byte
      h

-- Bit i of the reversed byte is bit 7 - i of the byte.
pub bitrev8-bit_at :
    (byte i : ℕ) → byte < 256 → i < 8 → bit_at (bitrev8 byte) i ≡ bit_at byte (7 - i)
bitrev8-bit_at byte i h k =
    (==_iff (bit_at (bitrev8 byte) i) (bit_at byte (7 - i))).0 (
      all_below-holds 8 (λ j. bit_at (bitrev8 byte) j == bit_at byte (7 - j)) (reversed byte h) i k)
