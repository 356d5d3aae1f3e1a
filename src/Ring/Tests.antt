-- ===== src/Ring/Tests.antt =====
-- A ring of two slots, and the theorems at it.
use market_feed_platform.Prelude.{ℕ, ◌≤◌, ◌<◌, ◌+◌, ◌≡◌, refl, arith, none, some, [], ◌∷◌, length}
use market_feed_platform.Prelude.Bytes.{Bytes}
use market_feed_platform.Ring.{
  RingBuffer, create, push, store_head, store_payload, store_tail, set_write_seq, poll, poll_loop,
  read_slot, catch_up,
}
use market_feed_platform.Ring.Slots.{IsValid, record_push, push-IsValid, create-IsValid}
use market_feed_platform.Ring.Read.{poll-payloads}
use market_feed_platform.Ring.Torn.{before, after_payload, ring_at, taken_at, read_slot-ring_at}

abbrev nothing : ℕ → Bytes
nothing n = []

abbrev empty_ring : RingBuffer
empty_ring = record {
  capacity = 2;
  payload_max = 4;
  slots = λ i. record { head = 0; len = 0; area = 0 ∷ 0 ∷ 0 ∷ 0 ∷ []; tail = 0 };
  write_seq = 0;
}

abbrev a : Bytes
a = 10 ∷ 11 ∷ []

abbrev b : Bytes
b = 20 ∷ 21 ∷ []

abbrev c : Bytes
c = 30 ∷ 31 ∷ []

abbrev after : RingBuffer → Bytes → RingBuffer
unfolding push
after r p = elim (push r p) [ none ↦ r | some (n, r') ↦ r' ]

abbrev one : RingBuffer
one = after empty_ring a

abbrev two : RingBuffer
two = after one b

-- A reader at 0 of a ring that was pushed three times has lost one.
poll_lapped :
    poll (after two c) 256 (record { cursor = 0; skipped = 0; torn = 0 })
    ≡ (b ∷ c ∷ [], record { cursor = 3; skipped = 1; torn = 0 })
unfolding push store_head store_payload store_tail set_write_seq poll poll_loop read_slot catch_up
poll_lapped = refl

create_example : create 2 24 ≡ some empty_ring
unfolding create
create_example = refl

empty-IsValid : IsValid empty_ring nothing
empty-IsValid = (create-IsValid 2 24 nothing (omega arith) create_example).0

abbrev pushed_two : ℕ → Bytes
pushed_two = record_push (record_push nothing 0 a) 1 b

push-IsValid_example :
    (◌≡◌ {A = ℕ} 0 0)
    × (length a ≤ 4)
    × (one.write_seq ≡ 1)
    × (one.capacity ≡ 2)
    × (one.payload_max ≡ 4)
    × IsValid one (record_push nothing 0 a)
    × ((k : ℕ) → k < 1 → 1 ≤ k + 2 → read_slot k one one one ≡ some (record_push nothing 0 a k))
unfolding push store_head store_payload store_tail set_write_seq
push-IsValid_example = push-IsValid empty_ring one a {seq = 0} refl nothing empty-IsValid

one-IsValid : IsValid one (record_push nothing 0 a)
unfolding push store_head store_payload store_tail set_write_seq
one-IsValid = (push-IsValid empty_ring one a {seq = 0} refl nothing empty-IsValid).5

two-IsValid : IsValid two pushed_two
unfolding push store_head store_payload store_tail set_write_seq
two-IsValid = (push-IsValid one two b {seq = 1} refl (record_push nothing 0 a) one-IsValid).5

poll-payloads_example :
    poll two 256 (record { cursor = 0; skipped = 0; torn = 0 })
    ≡ (a ∷ b ∷ [], record { cursor = 2; skipped = 0; torn = 0 })
unfolding push store_head store_payload store_tail set_write_seq
poll-payloads_example =
    poll-payloads two pushed_two two-IsValid 256 (record { cursor = 0; skipped = 0; torn = 0 })
      (omega arith)

-- The reader is after payload 0, `a`, and gets `c`.
torn : taken_at before after_payload after_payload a c ≡ some c
torn = refl

read_slot-ring_at_example :
    read_slot 0 (ring_at before two c) (ring_at after_payload two c) (ring_at after_payload two c)
    ≡ taken_at before after_payload after_payload a c
unfolding push store_head store_payload store_tail set_write_seq
read_slot-ring_at_example =
    read_slot-ring_at two pushed_two two-IsValid 0 (omega arith) refl c before after_payload
      after_payload
