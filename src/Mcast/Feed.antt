-- ===== src/Mcast/Feed.antt =====
-- A run of the subscriber after its snapshot.
use market_feed_platform.Prelude.{
  ℕ, ◌+◌, ◌≡◌, refl, arith, inl, inr, Bool-cases, Option-cases, Bool, true, false, not, ◌&&◌,
  Option, none, some, List, [], ◌∷◌, ◌==◌,
}
use market_feed_platform.Prelude.Bytes.{Bytes}
use market_feed_platform.Protocol.{Frame}
use market_feed_platform.Mcast.{
  Subscriber, Ack, is_snapshot, msg_snapshot, msg_ack, observe, observe_all, on_tcp_frame, on_tcp,
  on_udp, request_missing, retry, ask_up_to, restart, start, drain_pending, min_held, max_held,
}
use market_feed_platform.Mcast.Order.{
  Advances-drain_pending, Advances-restart, Advances, Quiet, Advances-Quiet, Advances-trans,
  Advances-observe, Advances-acknowledge, Advances-idle, Quiet-request_missing,
}
use market_feed_platform.Mcast.Ready.{
  ready-drain_pending, ready, ready-observe, ready-acknowledge, ready-request_missing,
}

-- What reaches the subscriber in a round of `run`, with the clock's readings.
pub data Arrival : Type 0 where
  datagram : ℕ → ℕ → List Frame → Arrival
  recovery : ℕ → List Frame → Arrival
  timeout : ℕ → Arrival

-- No frame ends a snapshot.
unfoldable pub plain : List Frame → Bool
plain [] = true
plain (f ∷ fs) = not (is_snapshot f && f.msg_type == msg_snapshot) && plain fs

abbrev pub is_steady : Arrival → Bool
is_steady (datagram now n fs) = true
is_steady (recovery now fs) = plain fs
is_steady (timeout now) = true

unfoldable pub steady : List Arrival → Bool
steady [] = true
steady (a ∷ as') = is_steady a && steady as'

-- Both claims at once: the order, and that the expected frame is not held.
pub record Steady (e : ℕ) (s s' : Subscriber) : Type 0 where
  pub advances : Advances e s s'
  pub waits : ready s' ≡ false

Steady-trans :
    (e : ℕ) (s t u : Subscriber)
    → Steady e s t
    → ((d : ℕ) → t.expected ≡ some d → ready t ≡ false → Steady d t u)
    → Steady e s u
Steady-trans e s t u a b =
    let next = b a.advances.to a.advances.expects a.waits in
    record {
      advances = Advances-trans e a.advances.to s t u a.advances.expects a.advances next.advances;
      waits = next.waits;
    }

Steady-idle : (e : ℕ) (s : Subscriber) → s.expected ≡ some e → ready s ≡ false → Steady e s s
Steady-idle e s h r = record { advances = Advances-idle e s h; waits = r }

-- A change of statistics that the order does not depend on.
Steady-Quiet :
    (e : ℕ) (s s' : Subscriber)
    → s.expected ≡ some e
    → Quiet s s'
    → s'.pending ≡ s.pending
    → ready s ≡ false
    → Steady e s s'
Steady-Quiet e s s' h q p r = record {
  advances = Advances-Quiet e s s' h q;
  waits = rw (q.same_expected, p) r;
}

Steady-observe :
    (now e : ℕ) (f : Frame) (via : Bool) (s : Subscriber)
    → s.expected ≡ some e
    → ready s ≡ false
    → Steady e s (observe now f via s)
Steady-observe now e f via s h r = record {
  advances = Advances-observe now e f via s h;
  waits = ready-observe now e f via s h r;
}

Steady-observe_all :
    (now e : ℕ) (fs : List Frame) (s : Subscriber)
    → s.expected ≡ some e
    → ready s ≡ false
    → Steady e s (observe_all now fs s)
unfolding observe_all
Steady-observe_all now e [] s h r = Steady-idle e s h r
Steady-observe_all now e (f ∷ fs) s h r =
    let s' = observe now f false s in
    Steady-trans e s s' (observe_all now fs s') (Steady-observe now e f false s h r)
      (λ d. Steady-observe_all now d fs s')

Steady-ask_up_to :
    (now e : ℕ) (s : Subscriber) (o m : Option ℕ)
    → o ≡ some e
    → s.expected ≡ some e
    → ready s ≡ false
    → Steady e s (ask_up_to now s o m)
Steady-ask_up_to now e s none m i h r = Steady-idle e s h r
Steady-ask_up_to now e s (some d) none i h r = Steady-idle e s h r
Steady-ask_up_to now e s (some d) (some m) i h r = record {
  advances = Advances-Quiet e s (request_missing now d m s) h (Quiet-request_missing now d m s);
  waits = ready-request_missing now d m s r;
}

-- The end of a snapshot.
Steady-start : (now e : ℕ) (s : Subscriber) → Steady e s (start now e s)
unfolding start
Steady-start now e s =
    let s0 = restart e s in
    let s' = drain_pending e s0 in
    let expects : s0.expected ≡ some e = unfold restart in refl in
    Steady-trans e s s' (start now e s)
      (record {
        advances =
            Advances-trans e e s s0 s' expects (Advances-restart e s)
              (Advances-drain_pending e s0 expects);
        waits = ready-drain_pending e s0 expects;
      })
      (λ d h r. Steady-ask_up_to now d s' s'.expected (min_held s'.pending) h h r)

module _ (next_seq_of : Bytes → ℕ) (ack_of : Bytes → Option Ack) where
  Steady-on_tcp_frame :
      (now e : ℕ) (f : Frame) (s : Subscriber)
      → (is_snapshot f && f.msg_type == msg_snapshot) ≡ false
      → s.expected ≡ some e
      → ready s ≡ false
      → Steady e s (on_tcp_frame next_seq_of ack_of now f s)
  unfolding on_tcp_frame
  Steady-on_tcp_frame now e f s p h r = elim (Bool-cases (is_snapshot f)) [
    | inl snapshot ↦
        let other : (f.msg_type == msg_snapshot) ≡ false = ground (arith, snapshot, p) in
        rw (snapshot, other)
          (Steady-Quiet e s _ h
            (record {
              same_expected = refl;
              same_frames = refl;
              same_lost = refl;
              same_count = refl;
            })
            refl r)
    | inr live ↦ elim (Bool-cases (f.msg_type == msg_ack)) [
      | inr frame ↦ rw (live, frame) (Steady-observe now e f true s h r)
      | inl ack ↦ elim (Option-cases (ack_of f.payload)) [
        | inl nothing ↦ rw (live, ack, nothing) (Steady-idle e s h r)
        | inr found ↦
            rw (live, ack, found.1)
              (record {
                advances = Advances-acknowledge e found.0 s h;
                waits = ready-acknowledge found.0 s r;
              })
      ]
    ]
  ]

  Steady-on_tcp :
      (now e : ℕ) (fs : List Frame) (s : Subscriber)
      → plain fs ≡ true
      → s.expected ≡ some e
      → ready s ≡ false
      → Steady e s (on_tcp next_seq_of ack_of now fs s)
  unfolding on_tcp plain
  Steady-on_tcp now e [] s p h r = Steady-idle e s h r
  Steady-on_tcp now e (f ∷ fs) s p h r =
      let s' = on_tcp_frame next_seq_of ack_of now f s in
      Steady-trans e s s' (on_tcp next_seq_of ack_of now fs s')
        (Steady-on_tcp_frame now e f s (ground (arith, p)) h r)
        (λ d. Steady-on_tcp now d fs s' (ground (arith, p)))

  unfoldable pub arrive : Arrival → Subscriber → Subscriber
  arrive (datagram now n fs) s = on_udp now n fs s
  arrive (recovery now fs) s = on_tcp next_seq_of ack_of now fs s
  arrive (timeout now) s = retry now s

  unfoldable pub run : List Arrival → Subscriber → Subscriber
  run [] s = s
  run (a ∷ as') s = run as' (arrive a s)

  Steady-arrive :
      (e : ℕ) (a : Arrival) (s : Subscriber)
      → is_steady a ≡ true
      → s.expected ≡ some e
      → ready s ≡ false
      → Steady e s (arrive a s)
  unfolding arrive
  Steady-arrive e (datagram now n fs) s p h r =
      unfold on_udp in
      let st = s.stats in
      let s' : Subscriber = record s {
        stats = record st { datagrams = st.datagrams + 1; bytes_in = st.bytes_in + n };
      } in
      Steady-trans e s s' (observe_all now fs s')
        (Steady-Quiet e s s' h
          (record { same_expected = refl; same_frames = refl; same_lost = refl; same_count = refl })
          refl r)
        (λ d. Steady-observe_all now d fs s')
  Steady-arrive e (recovery now fs) s p h r = Steady-on_tcp now e fs s p h r
  Steady-arrive e (timeout now) s p h r =
      unfold retry in Steady-ask_up_to now e s s.expected (max_held s.pending) h h r

  run-Steady :
      (e : ℕ) (as' : List Arrival) (s : Subscriber)
      → steady as' ≡ true
      → s.expected ≡ some e
      → ready s ≡ false
      → Steady e s (run as' s)
  unfolding run steady
  run-Steady e [] s p h r = Steady-idle e s h r
  run-Steady e (a ∷ as') s p h r =
      let s' = arrive a s in
      Steady-trans e s s' (run as' s') (Steady-arrive e a s (ground (arith, p)) h r)
        (λ d. run-Steady d as' s' (ground (arith, p)))

  -- From the end of a snapshot whose next number is `e` on, whatever arrives but the end of another
  -- snapshot, frames are delivered in the order of their numbers: each number from `e` to the one
  -- expected afterwards is delivered once or is one of those by which the count of unrecoverable
  -- frames grew, and the frame expected afterwards is not held back.
  pub run-start-Steady :
      (now e : ℕ) (as' : List Arrival) (s : Subscriber)
      → steady as' ≡ true
      → Steady e s (run as' (start now e s))
  run-start-Steady now e as' s p =
      let s' = start now e s in
      Steady-trans e s s' (run as' s') (Steady-start now e s) (λ d. run-Steady d as' s' p)
