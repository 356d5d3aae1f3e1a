-- ===== src/Ring/Slots.antt =====
-- The slots hold the last payloads pushed, at most `capacity` of them.
use market_feed_platform.Prelude.{
  ℕ, ◌+◌, ◌%◌, ◌≤◌, ◌<◌, ◌≡◌, ◌≢◌, sym, ap, ◌∙◌, arith, inl, inr, Bool-cases, some, ◌++◌, ◌==◌,
  if◌then◌else◌, length, take, drop, take-append_length, ==→eq, ==→ne,
}
use mathlib.Core.Path.{subst}
use market_feed_platform.Prelude.Bytes.{Bytes}
use market_feed_platform.Ring.{
  Slot, RingBuffer, create, index, store, store_head, store_payload, store_tail, set_write_seq,
  push, read_slot,
}
use market_feed_platform.Ring.Modulo.{mod-ne_of_near}

-- A slot holds a payload under a number.
pub record Holds (m : ℕ) (s : Slot) (seq : ℕ) (payload : Bytes) : Type 0 where
  pub head : s.head ≡ seq
  pub tail : s.tail ≡ seq
  pub fits : s.len ≤ m
  pub size : s.len ≡ length payload
  pub bytes : take s.len s.area ≡ payload

-- `pushed seq` is the payload that was pushed under `seq`; the last `capacity` are held.
pub record IsValid (r : RingBuffer) (pushed : ℕ → Bytes) : Type 0 where
  pub positive : 0 < r.capacity
  pub holds :
      (seq : ℕ)
      → seq < r.write_seq
      → r.write_seq ≤ seq + r.capacity
      → Holds r.payload_max (r.slots (index r seq)) seq (pushed seq)

-- What a slot holds is what is read from it.
pub Holds-read :
    (r : RingBuffer) (seq : ℕ) (payload : Bytes)
    → Holds r.payload_max (r.slots (index r seq)) seq payload
    → read_slot seq r r r ≡ some payload
unfolding read_slot
Holds-read r seq payload h = ground (arith, h.head, h.tail, h.fits, h.bytes)

abbrev pub record_push : (ℕ → Bytes) → ℕ → Bytes → ℕ → Bytes
record_push pushed seq payload k = if k == seq then payload else pushed k

-- The ring after the stores of `push`.
pub pushed_ring : RingBuffer → Bytes → RingBuffer
unfolding store_head store_payload store_tail set_write_seq
pushed_ring r payload =
    let i = index r r.write_seq in
    let s = r.slots i in
    record r {
      slots =
          store i
            (record {
              head = r.write_seq;
              len = length payload;
              area = payload ++ drop (length payload) s.area;
              tail = r.write_seq;
            })
            r.slots;
      write_seq = r.write_seq + 1;
    }

module _ (r r' : RingBuffer) (payload : Bytes) {seq : ℕ} (e : push r payload ≡ some (seq, r')) where
  push-fields :
      (seq ≡ r.write_seq)
      × (length payload ≤ r.payload_max)
      × (r'.write_seq ≡ r.write_seq + 1)
      × (r'.capacity ≡ r.capacity)
      × (r'.payload_max ≡ r.payload_max)
  unfolding push set_write_seq store_tail store_payload store_head
  push-fields = ground (arith, e)

  push-slot : (j : ℕ) → r'.slots j ≡ (pushed_ring r payload).slots j
  unfolding push pushed_ring
  push-slot j = ground (arith, e)

  -- The new payload is held.
  Holds-new : Holds r.payload_max (r'.slots (index r r.write_seq)) r.write_seq payload
  unfolding pushed_ring
  Holds-new =
      let p = push-slot (index r r.write_seq) in
      let area = (r.slots (index r r.write_seq)).area in
      let k : r'.slots (index r r.write_seq) ≡ record {
        head = r.write_seq;
        len = length payload;
        area = payload ++ drop (length payload) area;
        tail = r.write_seq;
      } =
        ground (arith, p) in
      record {
        head = ap (λ (s : Slot). s.head) k;
        tail = ap (λ (s : Slot). s.tail) k;
        fits = omega (arith, ap (λ (s : Slot). s.len) k, push-fields.1);
        size = ap (λ (s : Slot). s.len) k;
        bytes =
            ap (λ (s : Slot). take s.len s.area) k
            ∙ take-append_length payload (drop (length payload) area);
      }

  keeps_slot : (j : ℕ) → j ≢ index r r.write_seq → r'.slots j ≡ r.slots j
  unfolding pushed_ring
  keeps_slot j ne = ground (arith, push-slot j, ne)

  same_place :
      (k : ℕ) (p : Bytes)
      → Holds r.payload_max (r'.slots (index r k)) k p
      → Holds r'.payload_max (r'.slots (index r' k)) k p
  same_place k p h =
      subst (λ c. Holds r'.payload_max (r'.slots (k % c)) k p) (sym push-fields.3)
        (subst (λ m. Holds m (r'.slots (index r k)) k p) (sym push-fields.4) h)

  Holds-pushed :
      (pushed : ℕ → Bytes) (v : IsValid r pushed) (k : ℕ)
      → k < r.write_seq + 1
      → r.write_seq + 1 ≤ k + r.capacity
      → Holds r.payload_max (r'.slots (index r k)) k (record_push pushed r.write_seq payload k)
  Holds-pushed pushed v k below near = elim (Bool-cases (k == r.write_seq)) [
    | inl t ↦ rw t (
        subst (λ n. Holds r.payload_max (r'.slots (index r n)) n payload)
          (sym (==→eq k r.write_seq t)) Holds-new)
    | inr f ↦
        let ne = ==→ne k r.write_seq f in
        rw
          (
            f,
            keeps_slot (index r k)
                (λ c. mod-ne_of_near r.capacity k r.write_seq (omega arith) (omega arith) (sym c)),
          )
          (v.holds k (omega arith) (omega arith))
  ]

  -- On a valid ring `push` gives the next number, takes no payload that does not fit a slot, counts
  -- one more payload, and keeps the ring's sizes.  The ring then holds the last `capacity` payloads,
  -- the new one among them: each of them that was pushed is read under its number.
  pub push-IsValid :
      (pushed : ℕ → Bytes)
      → IsValid r pushed
      → (seq ≡ r.write_seq)
        × (length payload ≤ r.payload_max)
        × (r'.write_seq ≡ r.write_seq + 1)
        × (r'.capacity ≡ r.capacity)
        × (r'.payload_max ≡ r.payload_max)
        × IsValid r' (record_push pushed r.write_seq payload)
        × ((k : ℕ)
            → k < r.write_seq + 1
            → r.write_seq + 1 ≤ k + r.capacity
            → read_slot k r' r' r' ≡ some (record_push pushed r.write_seq payload k))
  push-IsValid pushed v =
      let v' : IsValid r' (record_push pushed r.write_seq payload) = record {
        positive = omega (arith, v.positive, push-fields.3);
        holds = λ k below near. same_place k (record_push pushed r.write_seq payload k) (
            Holds-pushed pushed v k (omega (arith, below, push-fields.2))
              (omega (arith, near, push-fields.2, push-fields.3)));
      } in
      (
        push-fields.0,
        push-fields.1,
        push-fields.2,
        push-fields.3,
        push-fields.4,
        v',
        λ k below near. Holds-read r' k (record_push pushed r.write_seq payload k) (
            v'.holds k (omega (arith, below, push-fields.2))
              (omega (arith, near, push-fields.2, push-fields.3))),
      )

-- A ring just created holds nothing.
pub create-IsValid :
    (capacity slot_size : ℕ) (pushed : ℕ → Bytes) {r : RingBuffer}
    → 0 < capacity
    → create capacity slot_size ≡ some r
    → IsValid r pushed × (r.write_seq ≡ 0) × (r.capacity ≡ capacity)
unfolding create
create-IsValid capacity slot_size pushed {r} p e =
    let w : r.write_seq ≡ 0 = ground (arith, e) in
    let c : r.capacity ≡ capacity = ground (arith, e) in
    (
      record {
        positive = omega (arith, c);
        holds = λ seq below near. absurd (omega (arith, below, w));
      },
      w,
      c,
    )
