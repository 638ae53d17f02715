-- ===== src/Ring/Run.antt =====
-- Interleavings of writes and rounds, for the ring and for an ideal consumer of the stream.
use libsdrgg.Prelude.{
  ℕ, ◌+◌, ◌-◌, ◌^◌, ◌≤◌, ◌<◌, List, [], ◌∷◌, ◌++◌, ◌≡◌, refl, ◌∙◌, ap, subst, inl, inr, arith,
  length, length-append, take, drop, u32, ltb, if◌then◌else◌, Bool-cases,
}
use libsdrgg.Ring.{
  ring_size, segment_size, IqRing, ring_write, Subscriber, Buffer, Action, arrives, polls,
  after_round, play,
}
use libsdrgg.Ring.Stream.{IsHolding, ring_write-IsHolding}
use libsdrgg.Ring.Consumer.{next_start, consume-ideal}

-- The buffer that a consumer at `r` gets.
abbrev pub segment : List ℕ → ℕ → ℕ → Buffer
segment s r number = record {
  bytes = take segment_size (drop (next_start (length s) r) s);
  number = number;
}

-- The ideal consumer: it reads the list `s` of all bytes so far at position `r`, and neither wraps.
unfoldable pub ideal : List Action → List ℕ → ℕ → ℕ → List Buffer
ideal [] s r number = []
ideal (arrives bytes ∷ actions) s r number = ideal actions (s ++ bytes) r number
ideal (polls ∷ actions) s r number =
    let later = ideal actions s r number in
    let next = ideal actions s (next_start (length s) r + segment_size) (u32 (number + 1)) in
    if ltb (length s - r) segment_size then later else (segment s r number ∷ next)

-- Where the ideal consumer stands after a round.
abbrev pub next_position : List ℕ → ℕ → ℕ
next_position s r =
    if ltb (length s - r) segment_size then r else next_start (length s) r + segment_size

-- Each write is at most the ring's size, and each round comes before 4 GiB are waiting.
unfoldable pub IsSteady : List Action → List ℕ → ℕ → Type 0
IsSteady [] s r = Unit
IsSteady (arrives bytes ∷ actions) s r =
    (length bytes ≤ ring_size) × IsSteady actions (s ++ bytes) r
IsSteady (polls ∷ actions) s r = (length s < r + 2 ^ 32) × IsSteady actions s (next_position s r)

-- For any sequence of writes of at most the ring size each and of rounds that each come before
-- 2^32 bytes are waiting, the buffers that the callback gets are those of an ideal consumer that
-- reads the whole stream as one list, from a ring that holds the stream and a consumer whose
-- position is right.
pub play-ideal :
    (actions : List Action) (s : List ℕ) (ring : IqRing) (sub : Subscriber) (r : ℕ)
    → IsHolding s ring
    → sub.read_pos ≡ u32 r
    → r ≤ length s
    → IsSteady actions s r
    → play actions ring sub ≡ ideal actions s r sub.sequence
unfolding play ideal IsSteady
play-ideal [] s ring sub r held at_r behind steady = refl
play-ideal (arrives bytes ∷ actions) s ring sub r held at_r behind (short, steady) =
    play-ideal actions (s ++ bytes) (ring_write ring bytes) sub r
      (ring_write-IsHolding s ring bytes held short) at_r (omega (arith, length-append s bytes))
      steady
play-ideal (polls ∷ actions) s ring sub r held at_r behind (close, steady) =
    ap (after_round (play actions ring) sub) (consume-ideal s ring sub r held at_r behind close)
    ∙ elim (Bool-cases (ltb (length s - r) segment_size)) [
      | inl few ↦
          let stays : next_position s r ≡ r = rw (few, next_position) refl in
          rw few (
            play-ideal actions s ring sub r held at_r behind
              (subst (IsSteady actions s) stays steady))
      | inr enough ↦
          let moves : next_position s r ≡ next_start (length s) r + segment_size =
            rw (enough, next_position) refl in
          rw enough (
            ap (λ bs. segment s r sub.sequence ∷ bs)
              (play-ideal actions s ring
                (record {
                  read_pos = u32 (next_start (length s) r + segment_size);
                  sequence = u32 (sub.sequence + 1);
                })
                (next_start (length s) r + segment_size) held refl (ground arith)
                (subst (IsSteady actions s) moves steady)))
    ]
