-- ===== src/Ring.antt =====
-- src/mdfeed/ringbuffer.py: the shared-memory broadcast ring, one slot a record of its fields.
-- `push` is its four stores in their order, so that a reader may run between any two of them; a
-- slot's sequence numbers and length are read and written whole, as `struct` does with them.
-- `write_seq` is a 64-bit field of the header: the model says what happens below 2^64 pushes.
-- A segment is created zeroed.  Attaching to an existing segment and unlinking it are not modelled.
pub mod Modulo
pub mod Slots
pub mod Read
pub mod Torn
mod Tests
use market_feed_platform.Prelude.{
  ℕ, zero, suc, ◌+◌, ◌-◌, ◌%◌, ◌≤◌, ◌<◌, Bool, true, false, not, ◌&&◌, ◌||◌, Option, none, some,
  List, [], ◌∷◌, ◌++◌, ltb, leb, ◌==◌, if◌then◌else◌, length, take, drop,
}
use market_feed_platform.Prelude.Bytes.{Bytes}

-- One slot: `seq_head` and length, the payload area, `seq_tail`.
pub record Slot : Type 0 where
  pub head : ℕ
  pub len : ℕ
  pub area : Bytes
  pub tail : ℕ

-- The segment: the slots by their index `seq % capacity`.
pub record RingBuffer : Type 0 where
  pub capacity : ℕ
  pub payload_max : ℕ
  pub slots : ℕ → Slot
  pub write_seq : ℕ

abbrev pub zeros : ℕ → Bytes
zeros zero = []
zeros (suc n) = 0 ∷ zeros n

-- `RingBuffer.__init__` with `create`: ValueError unless a slot has room for a payload.
unfoldable pub create : ℕ → ℕ → Option RingBuffer
create capacity slot_size =
    if leb slot_size 20
    then none
    else some (record {
      capacity = capacity;
      payload_max = slot_size - 20;
      slots = λ i. record { head = 0; len = 0; area = zeros (slot_size - 20); tail = 0 };
      write_seq = 0;
    })

-- The offset of a number's slot.
abbrev pub index : RingBuffer → ℕ → ℕ
index r seq = seq % r.capacity

abbrev pub store : ℕ → Slot → (ℕ → Slot) → ℕ → Slot
store i s slots j = if j == i then s else slots j

-- `pack_into("!QI", …, seq, n)`
unfoldable pub store_head : RingBuffer → ℕ → ℕ → RingBuffer
store_head r seq n =
    let i = index r seq in
    let s = r.slots i in
    record r {
      slots = store i (record { head = seq; len = n; area = s.area; tail = s.tail }) r.slots;
    }

-- The copy of the payload over the start of the area.
unfoldable pub store_payload : RingBuffer → ℕ → Bytes → RingBuffer
store_payload r seq payload =
    let i = index r seq in
    let s = r.slots i in
    record r {
      slots =
          store i
            (record {
              head = s.head;
              len = s.len;
              area = payload ++ drop (length payload) s.area;
              tail = s.tail;
            })
            r.slots;
    }

-- `pack_into("!Q", …, seq)` at the slot's end
unfoldable pub store_tail : RingBuffer → ℕ → RingBuffer
store_tail r seq =
    let i = index r seq in
    let s = r.slots i in
    record r {
      slots = store i (record { head = s.head; len = s.len; area = s.area; tail = seq }) r.slots;
    }

-- `_set_write_seq`
unfoldable pub set_write_seq : RingBuffer → ℕ → RingBuffer
set_write_seq r v = record r { write_seq = v }

-- The ring after each of the four stores of `push`, in their order.
abbrev pub headed : RingBuffer → Bytes → RingBuffer
headed r payload = store_head r r.write_seq (length payload)

abbrev pub copied : RingBuffer → Bytes → RingBuffer
copied r payload = store_payload (headed r payload) r.write_seq payload

abbrev pub closed : RingBuffer → Bytes → RingBuffer
closed r payload = store_tail (copied r payload) r.write_seq

abbrev pub published : RingBuffer → Bytes → RingBuffer
published r payload = set_write_seq (closed r payload) (r.write_seq + 1)

-- `RingBuffer.push`: the number given, or `none` for a payload that does not fit.
unfoldable pub push : RingBuffer → Bytes → Option (ℕ × RingBuffer)
push r payload =
    if ltb r.payload_max (length payload) then none else some (r.write_seq, published r payload)

pub record RingReader : Type 0 where
  pub cursor : ℕ
  pub skipped : ℕ
  pub torn : ℕ

-- What the three reads of one slot give: they are made one after the other, so each is of its own
-- ring.
unfoldable pub read_slot : ℕ → RingBuffer → RingBuffer → RingBuffer → Option Bytes
read_slot seq at_head at_data at_tail =
    let h = at_head.slots (index at_head seq) in
    if not (h.head == seq) || ltb at_head.payload_max h.len
    then none
    else let area = take h.len (at_data.slots (index at_data seq)).area in
      if not ((at_tail.slots (index at_tail seq)).tail == seq) then none else some area

-- The jump of a reader that was lapped.
unfoldable pub catch_up : RingBuffer → RingReader → RingReader
catch_up r reader =
    let behind = r.write_seq - reader.cursor in
    if ltb r.capacity behind
    then record reader {
      skipped = reader.skipped + (behind - r.capacity);
      cursor = r.write_seq - r.capacity;
    }
    else reader

-- The loop of `poll` on a ring that nobody writes meanwhile: `fuel` bounds the rounds, `room` is
-- what `max_items` leaves.
unfoldable pub poll_loop : ℕ → ℕ → RingBuffer → RingReader → List Bytes × RingReader
poll_loop zero room r reader = ([], reader)
poll_loop (suc fuel) room r reader =
    let stop = not (ltb reader.cursor r.write_seq) || room == 0 in
    let torn =
      poll_loop fuel room r
        (record reader { torn = reader.torn + 1; cursor = reader.cursor + 1 }) in
    let rest = poll_loop fuel (room - 1) r (record reader { cursor = reader.cursor + 1 }) in
    if stop then ([], reader) else elim (read_slot reader.cursor r r r) [
      | none ↦ torn
      | some bytes ↦ (bytes ∷ rest.0, rest.1)
    ]

-- `RingReader.poll`; the loop runs at most once for each number up to `write_seq`.
unfoldable pub poll : RingBuffer → ℕ → RingReader → List Bytes × RingReader
poll r max_items reader =
    let start = catch_up r reader in poll_loop (r.write_seq - start.cursor) max_items r start
