-- ===== src/Ring/Torn.antt =====
-- src/mdfeed/ringbuffer.py: what the marks at both ends of a slot do, and do not, tell a reader who
-- runs beside the `push` that uses the slot again.
use market_feed_platform.Prelude.{
  ℕ, zero, suc, ◌+◌, ◌<◌, ◌≡◌, refl, ap, ◌∙◌, arith, Option, none, some, [], ◌∷◌, ◌++◌, length,
  take, drop,
}
use mathlib.Core.Path.{subst}
use native.Mathlib.Nat.{add-mod_right}
use market_feed_platform.Prelude.Bytes.{Bytes}
use market_feed_platform.Ring.{
  RingBuffer, index, store_head, store_payload, store_tail, set_write_seq, headed, copied, closed,
  published, read_slot,
}
use market_feed_platform.Ring.Slots.{Holds, IsValid}

-- How far `push` has come.
pub data Progress : Type 0 where
  before after_head after_payload after_tail after_push : Progress

-- The ring then.
unfoldable pub ring_at : Progress → RingBuffer → Bytes → RingBuffer
ring_at before r payload = r
ring_at after_head r payload = headed r payload
ring_at after_payload r payload = copied r payload
ring_at after_tail r payload = closed r payload
ring_at after_push r payload = published r payload

-- The old payload with the new one over its start, as long as the old one.
abbrev pub overwritten : Bytes → Bytes → Bytes
overwritten old new = take (length old) (new ++ drop (length new) old)

-- The payload read, by how far `push` is when it is read.
abbrev pub data_at : Progress → Bytes → Bytes → Bytes
data_at before old new = old
data_at after_head old new = old
data_at after_payload old new = overwritten old new
data_at after_tail old new = overwritten old new
data_at after_push old new = overwritten old new

-- What a reader takes, by how far `push` is when it reads the head, the payload and the tail.
abbrev pub taken_at : Progress → Progress → Progress → Bytes → Bytes → Option Bytes
taken_at before at_data before old new = some (data_at at_data old new)
taken_at before at_data after_head old new = some (data_at at_data old new)
taken_at before at_data after_payload old new = some (data_at at_data old new)
taken_at before at_data after_tail old new = none
taken_at before at_data after_push old new = none
taken_at after_head at_data at_tail old new = none
taken_at after_payload at_data at_tail old new = none
taken_at after_tail at_data at_tail old new = none
taken_at after_push at_data at_tail old new = none

-- Only what is taken of the area counts.
take-over :
    (n : ℕ) (xs ys : Bytes)
    → take n (xs ++ drop (length xs) ys) ≡ take n (xs ++ drop (length xs) (take n ys))
take-over zero xs ys = refl
take-over (suc n) [] [] = refl
take-over (suc n) [] (y ∷ ys) = ap (λ z. y ∷ z) (take-over n [] ys)
take-over (suc n) (x ∷ xs) [] = refl
take-over (suc n) (x ∷ xs) (y ∷ ys) = ap (λ z. x ∷ z) (take-over n xs ys)

module _ (r : RingBuffer) (pushed : ℕ → Bytes) (v : IsValid r pushed) (seq : ℕ)
    (below : seq < r.write_seq) (full : r.write_seq ≡ seq + r.capacity) (new : Bytes) where
  same_index : index r r.write_seq ≡ index r seq
  same_index = rw full (add-mod_right seq r.capacity)

  held : Holds r.payload_max (r.slots (index r seq)) seq (pushed seq)
  held = v.holds seq below (omega (arith, full))

  area : Progress → Bytes
  area p = ((ring_at p r new).slots (index (ring_at p r new) seq)).area

  old_area : take (length (pushed seq)) (area before) ≡ pushed seq
  unfolding area ring_at
  old_area = subst (λ n. take n (r.slots (index r seq)).area ≡ pushed seq) held.size held.bytes

  new_area :
      take (length (pushed seq)) (new ++ drop (length new) (area before))
      ≡ overwritten (pushed seq) new
  new_area =
      take-over (length (pushed seq)) new (area before)
      ∙ ap (λ z. take (length (pushed seq)) (new ++ drop (length new) z)) old_area

  area_head : area after_head ≡ area before
  unfolding area ring_at store_head
  area_head = ground (arith, same_index)

  area_payload : area after_payload ≡ new ++ drop (length new) (area before)
  unfolding area ring_at store_head store_payload
  area_payload = ground (arith, same_index)

  area_tail : area after_tail ≡ area after_payload
  unfolding area ring_at store_head store_payload store_tail
  area_tail = ground (arith, same_index)

  area_push : area after_push ≡ area after_tail
  unfolding area ring_at set_write_seq
  area_push = refl

  -- The slot's payload area, cut to the old length.
  area-data_at : (p : Progress) → take (length (pushed seq)) (area p) ≡ data_at p (pushed seq) new
  area-data_at before = old_area
  area-data_at after_head = rw area_head old_area
  area-data_at after_payload = rw area_payload new_area
  area-data_at after_tail = rw (area_tail, area_payload) new_area
  area-data_at after_push = rw (area_push, area_tail, area_payload) new_area

  -- The marks of the slot.
  head_mark : Progress → ℕ
  head_mark p = ((ring_at p r new).slots (index (ring_at p r new) seq)).head

  tail_mark : Progress → ℕ
  tail_mark p = ((ring_at p r new).slots (index (ring_at p r new) seq)).tail

  -- A reader who read the head before `push`.
  read-unmarked :
      (at_data at_tail : Progress)
      → tail_mark at_tail ≡ seq
      → read_slot seq r (ring_at at_data r new) (ring_at at_tail r new)
        ≡ some (data_at at_data (pushed seq) new)
  unfolding read_slot tail_mark area
  read-unmarked at_data at_tail e =
      ground (arith, held.head, held.fits, held.size, e, area-data_at at_data)

  read-tail :
      (at_data at_tail : Progress)
      → tail_mark at_tail ≡ r.write_seq
      → read_slot seq r (ring_at at_data r new) (ring_at at_tail r new) ≡ none
  unfolding read_slot tail_mark
  read-tail at_data at_tail e = ground (arith, below, e)

  -- A reader who read the head after `push` stored it.
  read-head :
      (at_head at_data at_tail : Progress)
      → head_mark at_head ≡ r.write_seq
      → read_slot seq (ring_at at_head r new) (ring_at at_data r new) (ring_at at_tail r new) ≡ none
  unfolding read_slot head_mark
  read-head at_head at_data at_tail e = ground (arith, below, e)

  marks :
      (head_mark after_head ≡ r.write_seq)
      × (head_mark after_payload ≡ r.write_seq)
      × (head_mark after_tail ≡ r.write_seq)
      × (head_mark after_push ≡ r.write_seq)
      × (tail_mark before ≡ seq)
      × (tail_mark after_head ≡ seq)
      × (tail_mark after_payload ≡ seq)
      × (tail_mark after_tail ≡ r.write_seq)
      × (tail_mark after_push ≡ r.write_seq)
  unfolding head_mark tail_mark ring_at store_head store_payload store_tail set_write_seq
  marks = (
    ground (arith, same_index),
    ground (arith, same_index),
    ground (arith, same_index),
    ground (arith, same_index),
    held.tail,
    ground (arith, same_index, held.tail),
    ground (arith, same_index, held.tail),
    ground (arith, same_index),
    ground (arith, same_index),
  )

  -- Let a ring be valid, `seq` the number whose slot its next `push` uses again, and a reader read
  -- the slot's head, payload and tail each before that push, or after its first, second, third or
  -- last store.  The reader takes nothing for `seq` when it reads the head after the first store or
  -- the tail after the third one.  Otherwise it takes the old payload if it reads the payload before
  -- the second store, and after that the new payload's bytes over the start of the old one, cut
  -- to the old length: the marks do not show this.
  pub read_slot-ring_at :
      (at_head at_data at_tail : Progress)
      → read_slot seq (ring_at at_head r new) (ring_at at_data r new) (ring_at at_tail r new)
        ≡ taken_at at_head at_data at_tail (pushed seq) new
  unfolding ring_at
  read_slot-ring_at after_head d t = read-head after_head d t marks.0
  read_slot-ring_at after_payload d t = read-head after_payload d t marks.1
  read_slot-ring_at after_tail d t = read-head after_tail d t marks.2
  read_slot-ring_at after_push d t = read-head after_push d t marks.3
  read_slot-ring_at before d before = read-unmarked d before marks.4
  read_slot-ring_at before d after_head = read-unmarked d after_head marks.5
  read_slot-ring_at before d after_payload = read-unmarked d after_payload marks.6
  read_slot-ring_at before d after_tail = read-tail d after_tail marks.7
  read_slot-ring_at before d after_push = read-tail d after_push marks.8
