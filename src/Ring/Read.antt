-- ===== src/Ring/Read.antt =====
-- What `poll` returns of a ring that nobody writes meanwhile.
use market_feed_platform.Prelude.{
  ℕ, zero, suc, ◌+◌, ◌-◌, ◌≤◌, ◌<◌, min, max, ◌≡◌, refl, arith, true, false, some, List, [], ◌∷◌,
  ltb, ◌==◌,
}
use market_feed_platform.Prelude.Bytes.{Bytes}
use market_feed_platform.Ring.{RingBuffer, RingReader, read_slot, catch_up, poll_loop, poll}
use market_feed_platform.Ring.Slots.{Holds-read, IsValid}

-- The payloads pushed under the `n` numbers from `c` on.
abbrev pub payloads : (ℕ → Bytes) → ℕ → ℕ → List Bytes
payloads pushed c zero = []
payloads pushed c (suc n) = pushed c ∷ payloads pushed (c + 1) n

module _ (r : RingBuffer) (pushed : ℕ → Bytes) (v : IsValid r pushed) where
  read_slot-Holds :
      (seq : ℕ)
      → seq < r.write_seq
      → r.write_seq ≤ seq + r.capacity
      → read_slot seq r r r ≡ some (pushed seq)
  read_slot-Holds seq below near = Holds-read r seq (pushed seq) (v.holds seq below near)

  poll_loop-payloads :
      (fuel room n : ℕ) (reader : RingReader)
      → n ≡ min room fuel
      → fuel ≡ r.write_seq - reader.cursor
      → r.write_seq ≤ reader.cursor + r.capacity
      → poll_loop fuel room r reader
        ≡ (payloads pushed reader.cursor n, record reader { cursor = reader.cursor + n })
  unfolding poll_loop
  poll_loop-payloads zero room zero reader m e near = ground arith
  poll_loop-payloads zero room (suc n) reader m e near = absurd (omega arith)
  poll_loop-payloads (suc fuel) room zero reader m e near =
      let z : room ≡ 0 = omega arith in ground (arith, z)
  poll_loop-payloads (suc fuel) room (suc n) reader m e near =
      let next : RingReader = record reader { cursor = reader.cursor + 1 } in
      let ih =
        poll_loop-payloads fuel (room - 1) n next (omega arith) (omega arith) (omega arith) in
      let slot = read_slot-Holds reader.cursor (omega arith) near in
      let open_ : ltb reader.cursor r.write_seq ≡ true = ground (arith, e) in
      let more : (room == 0) ≡ false = ground (arith, m) in
      let sum : reader.cursor + 1 + n ≡ reader.cursor + suc n = omega arith in
      ground (arith, ih, slot, open_, more, sum)

  -- The reader after the jump.
  abbrev caught_up : RingReader → RingReader
  caught_up reader =
      let start = max reader.cursor (r.write_seq - r.capacity) in
      record {
        cursor = start;
        skipped = reader.skipped + (start - reader.cursor);
        torn = reader.torn;
      }

  catch_up_lem : (reader : RingReader) → catch_up r reader ≡ caught_up reader
  unfolding catch_up
  catch_up_lem reader = ground arith

  -- A poll returns, in order, the payloads pushed from the reader's cursor on, or from the oldest
  -- that the ring still holds if the reader was lapped; at most `max_items` of them.  It counts as
  -- skipped exactly the numbers it jumped over, nothing as torn, and moves the cursor behind what
  -- it returned.
  pub poll-payloads :
      (max_items : ℕ) (reader : RingReader)
      → reader.cursor ≤ r.write_seq
      → let start = max reader.cursor (r.write_seq - r.capacity) in
        let n = min max_items (r.write_seq - start) in
        poll r max_items reader ≡ (
          payloads pushed start n,
          record {
            cursor = start + n;
            skipped = reader.skipped + (start - reader.cursor);
            torn = reader.torn;
          },
        )
  unfolding poll
  poll-payloads max_items reader le = rw (catch_up_lem reader) (
      poll_loop-payloads (r.write_seq - (caught_up reader).cursor) max_items _ (caught_up reader)
        refl refl (omega arith))
