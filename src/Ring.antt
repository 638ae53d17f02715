-- ===== src/Ring.antt =====
-- The IQ ring buffer of sdrgg_ring.cpp: the writer, and one round of a consumer's loop. A round is one
-- step: the writer does not write between a consumer's load of `write_pos` and the end of its copy.
-- The consumer is followed until it is cancelled or finds the device disconnected.
pub mod Copy
pub mod Stream
pub mod Consumer
pub mod Run
pub mod Slots
pub mod Engine
pub mod Reader
pub mod Async
use libsdrgg.Prelude.{
  ℕ, ◌+◌, ◌-◌, ◌^◌, List, [], ◌∷◌, ◌++◌, Bool, u32, sub32, bit_and, ltb, leb, if◌then◌else◌, length,
  take, drop, set, zero, suc,
}

abbrev pub ring_size : ℕ
ring_size = 4194304

abbrev pub segment_size : ℕ
segment_size = 16384

-- `iq_ring`, without its subscribers: they are `Subscriber`s.
pub record IqRing : Type 0 where
  pub iq_data : List ℕ
  pub write_pos : ℕ

-- `memcpy( dst + off, src, n )`, with the `n` bytes of `src` as the list.
abbrev pub memcpy : List ℕ → ℕ → List ℕ → List ℕ
memcpy dst off [] = dst
memcpy dst off (b ∷ bs) = memcpy (set dst off b) (off + 1) bs

-- `memset`
unfoldable pub filled : ℕ → ℕ → List ℕ
filled zero b = []
filled (suc n) b = b ∷ filled n b

unfoldable pub ring_init : IqRing
ring_init = record { iq_data = filled ring_size 128; write_pos = 0 }

unfoldable pub ring_write : IqRing → List ℕ → IqRing
ring_write ring bytes =
    let mask = ring_size - 1 in
    let wp = ring.write_pos in
    let first = ring_size - bit_and wp mask in
    record {
      iq_data =
          if leb (length bytes) first
          then memcpy ring.iq_data (bit_and wp mask) bytes
          else memcpy (memcpy ring.iq_data (bit_and wp mask) (take first bytes)) 0
              (drop first bytes);
      write_pos = u32 (wp + length bytes);
    }

-- `iq_subscriber`: what its consumer's rounds change.
pub record Subscriber : Type 0 where
  pub read_pos : ℕ
  pub sequence : ℕ

-- The copy to `delivery_buf` from position `rp` on.
unfoldable pub copy_segment : IqRing → ℕ → List ℕ
copy_segment ring rp =
    let mask = ring_size - 1 in
    let start = bit_and rp mask in
    let first = ring_size - start in
    if leb segment_size first
    then take segment_size (drop start ring.iq_data)
    else take first (drop start ring.iq_data) ++ take (segment_size - first) ring.iq_data

-- `sdrgg_buffer_t`: the bytes and the sequence number.
pub record Buffer : Type 0 where
  pub bytes : List ℕ
  pub number : ℕ

pub data Round : Type 0 where
  -- less than a segment is there: sleep and try again
  waits : Round
  -- the callback gets the buffer
  delivers : Buffer → Subscriber → Round

-- The position that a round reads from: a consumer that was overtaken skips to the last segment.
unfoldable pub resume_at : IqRing → ℕ → ℕ
resume_at ring rp =
    if ltb ring_size (sub32 ring.write_pos rp) then sub32 ring.write_pos segment_size else rp

unfoldable pub consume : IqRing → Subscriber → Round
consume ring sub =
    let rp = resume_at ring sub.read_pos in
    if ltb (sub32 ring.write_pos sub.read_pos) segment_size
    then waits
    else delivers (record { bytes = copy_segment ring rp; number = sub.sequence })
        (record { read_pos = u32 (rp + segment_size); sequence = u32 (sub.sequence + 1) })

-- `subscribe` starts a consumer at the writer's position.
unfoldable pub subscribed : IqRing → Subscriber
subscribed ring = record { read_pos = ring.write_pos; sequence = 0 }

-- What happens to the ring while a consumer runs: the reader writes bytes, or the consumer's loop
-- comes round.
pub data Action : Type 0 where
  arrives : List ℕ → Action
  polls : Action

abbrev pub after_round : (Subscriber → List Buffer) → Subscriber → Round → List Buffer
after_round rest sub waits = rest sub
after_round rest sub (delivers buffer sub') = buffer ∷ rest sub'

-- The buffers that the callback gets.
unfoldable pub play : List Action → IqRing → Subscriber → List Buffer
play [] ring sub = []
play (arrives bytes ∷ actions) ring sub = play actions (ring_write ring bytes) sub
play (polls ∷ actions) ring sub = after_round (play actions ring) sub (consume ring sub)
