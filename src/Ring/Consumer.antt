-- ===== src/Ring/Consumer.antt =====
-- The round of a consumer, and that of an ideal one that reads the list itself.
use libsdrgg.Prelude.{
  le_or_lt, Bool-cases, ℕ, suc, ◌+◌, ◌-◌, ◌%◌, ◌^◌, ◌≤◌, ◌<◌, List, [], ◌∷◌, ◌++◌, false, true, ◌≡◌,
  refl, ◌∙◌, sym, ap, subst, inl, inr, arith, length, length-append, get_or, take, drop,
  length-take, length-drop, u32, sub32, bit_and, ltb, leb, if◌then◌else◌,
}
use libsdrgg.Ring.{
  ring_size, segment_size, IqRing, copy_segment, Subscriber, Round, waits, delivers, resume_at,
  consume,
}
use libsdrgg.Ring.Copy.{get_or-take, get_or-drop, get_or-append_left, get_or-append_right}
use libsdrgg.Ring.Stream.{IsHolding, masked}

-- Lists that agree at every index.
get_or-ext :
    (xs ys : List ℕ)
    → length xs ≡ length ys
    → ((i : ℕ) → i < length xs → get_or xs i 0 ≡ get_or ys i 0)
    → xs ≡ ys
get_or-ext [] [] h agree = refl
get_or-ext [] (y ∷ ys) h agree = absurd (omega (arith, h))
get_or-ext (x ∷ xs) [] h agree = absurd (omega (arith, h))
get_or-ext (x ∷ xs) (y ∷ ys) h agree =
    let rest : xs ≡ ys =
      get_or-ext xs ys (omega (arith, h)) (λ i below. agree (suc i) (omega (arith, below))) in
    λ i. agree 0 (omega arith) i ∷ rest i

le→leb : {a b : ℕ} → a ≤ b → leb a b ≡ true
le→leb h = ground arith

lt→leb-false : {a b : ℕ} → b < a → leb a b ≡ false
lt→leb-false h = ground arith

-- The two copies of the consumer: `seg` bytes from `start` on, where `first` are left to the end.
abbrev copied : ℕ → ℕ → ℕ → List ℕ → List ℕ
copied seg first start iq_data =
    if leb seg first
    then take seg (drop start iq_data)
    else take first (drop start iq_data) ++ take (seg - first) iq_data

module _ (seg first start : ℕ) (iq_data : List ℕ) (whole : length iq_data ≡ start + first)
    (small : seg ≤ start + first) where
  abbrev tail_part : List ℕ
  tail_part = take first (drop start iq_data)

  length-tail_part : length tail_part ≡ first
  length-tail_part =
      omega (arith, length-take first (drop start iq_data), length-drop start iq_data)

  length-copied : length (copied seg first start iq_data) ≡ seg
  length-copied = ground (
    arith,
    length-tail_part,
    whole,
    length-take seg (drop start iq_data),
    length-drop start iq_data,
    length-take (seg - first) iq_data,
    length-append tail_part (take (seg - first) iq_data),
  )

  copied_before :
      (j : ℕ)
      → j < seg
      → j < first
      → get_or (copied seg first start iq_data) j 0 ≡ get_or iq_data (start + j) 0
  copied_before j h near = elim (le_or_lt seg first) [
    | inl fits ↦
        rw (le→leb fits, copied)
          (get_or-take seg (drop start iq_data) j 0 h ∙ get_or-drop start iq_data j 0)
    | inr wraps ↦
        rw (lt→leb-false wraps, copied)
          (get_or-append_left tail_part (take (seg - first) iq_data) j 0
              (omega (arith, length-tail_part))
            ∙ get_or-take first (drop start iq_data) j 0 near
            ∙ get_or-drop start iq_data j 0)
  ]

  copied_after :
      (k : ℕ)
      → first + k < seg
      → get_or (copied seg first start iq_data) (first + k) 0 ≡ get_or iq_data k 0
  copied_after k h =
      let wraps : first < seg = omega arith in
      rw (lt→leb-false wraps, copied)
        (ap (λ x. get_or (tail_part ++ take (seg - first) iq_data) (x + k) 0) (sym length-tail_part)
          ∙ get_or-append_right tail_part (take (seg - first) iq_data) k 0
          ∙ get_or-take (seg - first) iq_data k 0 (omega arith))

module _ (s : List ℕ) (ring : IqRing) (held : IsHolding s ring) (r : ℕ)
    (there : r + segment_size ≤ length s) (near : length s ≤ r + ring_size) where
  abbrev start : ℕ
  start = r % ring_size

  abbrev delivered : List ℕ
  delivered = copied segment_size (ring_size - start) start ring.iq_data

  delivered_byte :
      (j : ℕ)
      → j < segment_size
      → get_or delivered j 0 ≡ get_or ring.iq_data ((r + j) % ring_size) 0
  delivered_byte j h = elim (le_or_lt (ring_size - start) j) [
    | inl far ↦
        let place : (r + j) % ring_size ≡ j - (ring_size - start) = omega arith in
        let again : ring_size - start + (j - (ring_size - start)) ≡ j = omega arith in
        rw place (
          subst (λ x. get_or delivered x 0 ≡ get_or ring.iq_data (j - (ring_size - start)) 0) again
            (copied_after segment_size (ring_size - start) start ring.iq_data
              (omega (arith, held.whole)) (omega arith) (j - (ring_size - start)) (omega arith)))
    | inr before ↦
        let place : (r + j) % ring_size ≡ start + j = omega arith in
        rw place (
          copied_before segment_size (ring_size - start) start ring.iq_data
            (omega (arith, held.whole)) (omega arith) j h before)
  ]

  length-delivered : length delivered ≡ segment_size
  length-delivered =
      length-copied segment_size (ring_size - start) start ring.iq_data (omega (arith, held.whole))
        (omega arith)

  length-wanted : length (take segment_size (drop r s)) ≡ segment_size
  length-wanted = omega (arith, length-take segment_size (drop r s), length-drop r s)

  delivered-wanted : delivered ≡ take segment_size (drop r s)
  delivered-wanted =
      get_or-ext delivered (take segment_size (drop r s)) (length-delivered ∙ sym length-wanted)
        (λ j below.
          let h : j < segment_size = omega (arith, below, length-delivered) in
          delivered_byte j h
          ∙ held.latest (r + j) (omega arith) (omega arith)
          ∙ sym (get_or-take segment_size (drop r s) j 0 h ∙ get_or-drop r s j 0))

  pub copy_segment-stream : copy_segment ring (u32 r) ≡ take segment_size (drop r s)
  unfolding copy_segment
  copy_segment-stream =
      let place : bit_and (u32 r) (ring_size - 1) ≡ start = masked (u32 r) ∙ omega arith in
      rw place delivered-wanted

-- Where an ideal consumer at `r` of a stream of `n` bytes goes on: it skips to the last segment when
-- more than the ring's size is waiting.
abbrev pub next_start : ℕ → ℕ → ℕ
next_start n r = if ltb ring_size (n - r) then n - segment_size else r

-- Its round, on the stream itself.
abbrev pub ideal_round : List ℕ → ℕ → ℕ → Round
ideal_round s r number =
    if ltb (length s - r) segment_size
    then waits
    else delivers
        (record { bytes = take segment_size (drop (next_start (length s) r) s); number = number })
        (record {
          read_pos = u32 (next_start (length s) r + segment_size);
          sequence = u32 (number + 1);
        })

module _ (s : List ℕ) (ring : IqRing) (sub : Subscriber) (r : ℕ) (held : IsHolding s ring)
    (at_r : sub.read_pos ≡ u32 r) (behind : r ≤ length s) (close : length s < r + 2 ^ 32) where
  backlog : sub32 ring.write_pos sub.read_pos ≡ length s - r
  backlog =
      ap (λ x. sub32 x sub.read_pos) held.at_end ∙ ap (sub32 (u32 (length s))) at_r ∙ omega arith

  resume_at-next :
      segment_size ≤ length s - r → resume_at ring sub.read_pos ≡ u32 (next_start (length s) r)
  unfolding resume_at
  resume_at-next enough = elim (Bool-cases (ltb ring_size (length s - r))) [
    | inl over ↦ rw (backlog, over) (ap (λ x. sub32 x segment_size) held.at_end ∙ omega arith)
    | inr within ↦ rw (backlog, within) at_r
  ]

  next_start-there : segment_size ≤ length s - r → next_start (length s) r + segment_size ≤ length s
  next_start-there enough = ground arith

  next_start-near : length s ≤ next_start (length s) r + ring_size
  next_start-near = ground arith

  segment-there :
      segment_size ≤ length s - r
      → copy_segment ring (resume_at ring sub.read_pos)
        ≡ take segment_size (drop (next_start (length s) r) s)
  segment-there enough =
      ap (copy_segment ring) (resume_at-next enough)
      ∙ copy_segment-stream s ring held (next_start (length s) r) (next_start-there enough)
          next_start-near

  after-there :
      segment_size ≤ length s - r
      → u32 (resume_at ring sub.read_pos + segment_size)
        ≡ u32 (next_start (length s) r + segment_size)
  after-there enough = omega (arith, resume_at-next enough)

-- With its read position kept in 32 bits and fewer than 2^32 bytes behind the writer, a round of
-- the consumer waits when less than a segment is there, and otherwise delivers the segment of the
-- stream at its position, or the last segment if more than the ring size was waiting, and moves
-- past it.
pub consume-ideal :
    (s : List ℕ) (ring : IqRing) (sub : Subscriber) (r : ℕ)
    → IsHolding s ring
    → sub.read_pos ≡ u32 r
    → r ≤ length s
    → length s < r + 2 ^ 32
    → consume ring sub ≡ ideal_round s r sub.sequence
unfolding consume
consume-ideal s ring sub r held at_r behind close =
    elim (Bool-cases (ltb (length s - r) segment_size)) [
      | inl few ↦ rw (backlog s ring sub r held at_r behind close, few) refl
      | inr enough ↦
          let many : segment_size ≤ length s - r = ground arith in
          rw (backlog s ring sub r held at_r behind close, enough)
            (λ i.
              delivers
                (record {
                  bytes = segment-there s ring sub r held at_r behind close many i;
                  number = sub.sequence;
                })
                (record {
                  read_pos = after-there s ring sub r held at_r behind close many i;
                  sequence = u32 (sub.sequence + 1);
                }))
    ]
