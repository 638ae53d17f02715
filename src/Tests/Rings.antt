-- ===== src/Tests/Rings.antt =====
-- The ring at concrete inputs: a fresh ring, a write of two bytes, and a segment that is delivered.
use libsdrgg.Prelude.{ℕ, ◌+◌, ◌^◌, ◌≤◌, ◌<◌, List, [], ◌∷◌, ◌++◌, ◌≡◌, refl, arith, length}
use libsdrgg.Ring.{
  ring_size, IqRing, ring_init, ring_write, Subscriber, consume, Action, arrives, polls, play,
  filled,
}
use libsdrgg.Ring.Stream.{IsHolding, ring_init-IsHolding, ring_write-IsHolding, length-filled}
use libsdrgg.Ring.Consumer.{ideal_round, consume-ideal}
use libsdrgg.Prelude.{true, false}
use libsdrgg.Ring.Slots.{Subscribed, subscribe, subscribe-Subscribed}
use libsdrgg.Ring.Run.{ideal, IsSteady, play-ideal}

abbrev pair : List ℕ
pair = 127 ∷ 129 ∷ []

ring_write-IsHolding_example : IsHolding ([] ++ pair) (ring_write ring_init pair)
ring_write-IsHolding_example =
    ring_write-IsHolding [] ring_init pair ring_init-IsHolding (omega arith)

-- A whole segment.
abbrev block : List ℕ
block = filled 16384 127

abbrev ring_with_block : IqRing
ring_with_block = ring_write ring_init block

abbrev reader : Subscriber
reader = record { read_pos = 0; sequence = 7 }

block_fits : length block ≤ ring_size
block_fits = omega (arith, length-filled 16384 127)

held_block : IsHolding block ring_with_block
held_block = ring_write-IsHolding [] ring_init block ring_init-IsHolding block_fits

block_near : length block < 0 + 2 ^ 32
block_near = omega (arith, length-filled 16384 127)

consume-ideal_example : consume ring_with_block reader ≡ ideal_round block 0 7
consume-ideal_example =
    consume-ideal block ring_with_block reader 0 held_block refl (omega arith) block_near

abbrev actions : List Action
actions = arrives block ∷ polls ∷ polls ∷ []

actions-IsSteady : IsSteady actions [] 0
unfolding IsSteady
actions-IsSteady = (block_fits, (block_near, (omega (arith, length-filled 16384 127), tt)))

play-ideal_example : play actions ring_init reader ≡ ideal actions [] 0 7
play-ideal_example =
    play-ideal actions [] ring_init reader 0 ring_init-IsHolding refl (omega arith) actions-IsSteady

-- Slot 0 is taken.
subscribe-Subscribed_example :
    Subscribed
      (true ∷ false ∷ false ∷ [])
      (subscribe true true true (true ∷ false ∷ false ∷ [])).0
      (subscribe true true true (true ∷ false ∷ false ∷ [])).1
subscribe-Subscribed_example = subscribe-Subscribed true true true (true ∷ false ∷ false ∷ [])
