-- ===== src/Ring/Stream.antt =====
-- The ring against the stream: all that was written so far, as one list.
use libsdrgg.Prelude.{
  le_or_lt, ℕ, ◌+◌, ◌-◌, ◌%◌, ◌≤◌, ◌<◌, List, [], ◌++◌, ◌≡◌, refl, ◌∙◌, sym, ap, subst, inl, inr,
  arith, length, length-append, get_or, u32, bit_and, and_ones, zero, suc,
}
use libsdrgg.Ring.{ring_size, IqRing, filled, ring_init, ring_write}
use libsdrgg.Ring.Copy.{
  wrapped, length-wrapped, fits_inside, fits_outside, wraps_first, wraps_second, wraps_outside,
  get_or-append_left, get_or-append_right,
}

-- The ring holds the last `ring_size` bytes of the stream, each at its place; the writer's position is
-- the length of the stream, in 32 bits.
pub record IsHolding (s : List ℕ) (ring : IqRing) : Type 0 where
  pub whole : length ring.iq_data ≡ ring_size
  pub at_end : ring.write_pos ≡ u32 (length s)
  pub latest :
      (i : ℕ)
      → i < length s
      → length s ≤ i + ring_size
      → get_or ring.iq_data (i % ring_size) 0 ≡ get_or s i 0

pub masked : (a : ℕ) → bit_and a (ring_size - 1) ≡ a % ring_size
masked a = and_ones 22 a

-- The offset of the writer.
pub offset : (n : ℕ) → bit_and (u32 n) (ring_size - 1) ≡ n % ring_size
offset n = masked (u32 n) ∙ omega arith

module _ (s : List ℕ) (iq_data bytes : List ℕ) (whole : length iq_data ≡ ring_size)
    (short : length bytes ≤ ring_size) where
  abbrev n : ℕ
  n = length s

  abbrev w : ℕ
  w = length s % ring_size

  -- A byte that the write added.
  added :
      (j : ℕ)
      → j < length bytes
      → get_or (wrapped iq_data w bytes) ((n + j) % ring_size) 0 ≡ get_or bytes j 0
  added j h = elim (le_or_lt (length bytes) (ring_size - w)) [
    | inl fits ↦
        let place : (n + j) % ring_size ≡ w + j = omega arith in
        rw place (fits_inside iq_data w bytes whole (omega arith) short j fits h)
    | inr wraps ↦ elim (le_or_lt (ring_size - w) j) [
      | inl far ↦
          let place : (n + j) % ring_size ≡ j - (ring_size - w) = omega arith in
          let again : ring_size - w + (j - (ring_size - w)) ≡ j = omega arith in
          rw place (
            wraps_second iq_data w bytes whole (omega arith) short (j - (ring_size - w)) wraps
              (omega arith)
            ∙ ap (λ x. get_or bytes x 0) again)
      | inr near ↦
          let place : (n + j) % ring_size ≡ w + j = omega arith in
          rw place (wraps_first iq_data w bytes whole (omega arith) short j wraps near)
    ]
  ]

  -- A byte that was there and that the write leaves.
  kept :
      (i : ℕ)
      → i < n
      → n + length bytes ≤ i + ring_size
      → get_or (wrapped iq_data w bytes) (i % ring_size) 0 ≡ get_or iq_data (i % ring_size) 0
  kept i h near = elim (le_or_lt (length bytes) (ring_size - w)) [
    | inl fits ↦
        fits_outside iq_data w bytes whole (omega arith) short (i % ring_size) fits
          (elim (le_or_lt w (i % ring_size)) [ inl a ↦ inr (omega arith) | inr b ↦ inl b ])
    | inr wraps ↦
        wraps_outside iq_data w bytes whole (omega arith) short (i % ring_size) wraps (omega arith)
          (omega arith)
  ]

  -- The last bytes of the longer stream are in their places.
  write_latest :
      ((i : ℕ) → i < n → n ≤ i + ring_size → get_or iq_data (i % ring_size) 0 ≡ get_or s i 0)
      → (i : ℕ) → i < length (s ++ bytes)
      → length (s ++ bytes) ≤ i + ring_size
      → get_or (wrapped iq_data w bytes) (i % ring_size) 0 ≡ get_or (s ++ bytes) i 0
  write_latest latest i h near =
      let total : length (s ++ bytes) ≡ n + length bytes = length-append s bytes in
      elim (le_or_lt n i) [
        | inl new ↦
            let place : n + (i - n) ≡ i = omega arith in
            subst
              (λ x. get_or (wrapped iq_data w bytes) (x % ring_size) 0 ≡ get_or (s ++ bytes) x 0)
              place (added (i - n) (omega arith) ∙ sym (get_or-append_right s bytes (i - n) 0))
        | inr old ↦
            kept i old (omega arith)
            ∙ latest i old (omega arith)
            ∙ sym (get_or-append_left s bytes i 0 old)
      ]

pub length-filled : (n b : ℕ) → length (filled n b) ≡ n
unfolding filled
length-filled zero b = refl
length-filled (suc n) b = ap suc (length-filled n b)

pub ring_init-IsHolding : IsHolding [] ring_init
unfolding ring_init
ring_init-IsHolding = record {
  whole = length-filled ring_size 128;
  at_end = refl;
  latest = λ i h near. elim h [ ];
}

-- If the ring holds the last bytes of a stream, each at its position modulo the ring size, then
-- after a write of at most the ring size it holds the last bytes of the longer stream, with the
-- 32-bit write position at its end.
pub ring_write-IsHolding :
    (s : List ℕ) (ring : IqRing) (bytes : List ℕ)
    → IsHolding s ring
    → length bytes ≤ ring_size
    → IsHolding (s ++ bytes) (ring_write ring bytes)
unfolding ring_write
ring_write-IsHolding s ring bytes held short =
    let place : bit_and ring.write_pos (ring_size - 1) ≡ length s % ring_size =
      ap (λ x. bit_and x (ring_size - 1)) held.at_end ∙ offset (length s) in
    record {
      whole =
          rw place (
            length-wrapped ring.iq_data (length s % ring_size) bytes held.whole (omega arith)
              short);
      at_end = rw (held.at_end, length-append s bytes) (omega arith);
      latest = λ i h near.
          rw place (write_latest s ring.iq_data bytes held.whole short held.latest i h near);
    }
