-- ===== src/Mcast.antt =====
-- src/mdfeed/mcast_client.py: the subscriber of the multicast feed, which restores the order and
-- asks for what is missing.  Instants are microseconds, the clock's reading is an argument and does
-- not go back.
-- What json.loads finds in the payloads of a snapshot and of an acknowledgement are the parameters
-- `next_seq_of` and `ack_of`.  `frames` has the frames that `on_frame` was called with for
-- deliveries and `requests` the ranges sent to the recovery channel; latencies are left out.
pub mod Order
pub mod Ready
pub mod Feed
mod Tests
use market_feed_platform.Prelude.{
  ℕ, zero, suc, ◌+◌, ◌-◌, ◌%◌, Bool, true, false, not, ◌&&◌, ◌||◌, Option, none, some, List, [],
  ◌∷◌, ◌++◌, ltb, leb, ◌==◌, if◌then◌else◌, length,
}
use market_feed_platform.Prelude.Bytes.{Bytes}
use market_feed_platform.Protocol.{Frame}

abbrev pub retrans_timeout : ℕ
retrans_timeout = 1_000_000

abbrev pub max_pending_limit : ℕ
max_pending_limit = 200_000

pub record Stats : Type 0 where
  pub delivered : ℕ
  pub trades : ℕ
  pub heartbeats : ℕ
  pub snapshot_frames : ℕ
  pub datagrams : ℕ
  pub bytes_in : ℕ
  pub duplicates : ℕ
  pub discarded_before_snapshot : ℕ
  pub gaps_detected : ℕ
  pub retrans_requests : ℕ
  pub retrans_frames : ℕ
  pub unrecoverable : ℕ
  pub reordered : ℕ
  pub max_pending : ℕ

-- A frame waits in `pending` under its own number.
pub record Subscriber : Type 0 where
  pub gap_fill_delay : ℕ
  pub stats : Stats
  pub expected : Option ℕ
  pub pending : List Frame
  pub outstanding : List (ℕ × ℕ × ℕ)
  pub gap_seen_at : List (ℕ × ℕ)
  pub frames : List Frame
  pub requests : List (ℕ × ℕ)

abbrev pub msg_heartbeat : ℕ
msg_heartbeat = 1

abbrev pub msg_trade : ℕ
msg_trade = 2

-- `Trade.SIZE`: the size of "!16s8sQQddB7x"
abbrev pub trade_size : ℕ
trade_size = 64

abbrev pub msg_snapshot : ℕ
msg_snapshot = 5

abbrev pub msg_ack : ℕ
msg_ack = 7

-- `{}` and `Stats()`
abbrev pub create : ℕ → Subscriber
create delay = record {
  gap_fill_delay = delay;
  stats = record {
    delivered = 0;
    trades = 0;
    heartbeats = 0;
    snapshot_frames = 0;
    datagrams = 0;
    bytes_in = 0;
    duplicates = 0;
    discarded_before_snapshot = 0;
    gaps_detected = 0;
    retrans_requests = 0;
    retrans_frames = 0;
    unrecoverable = 0;
    reordered = 0;
    max_pending = 0;
  };
  expected = none;
  pending = [];
  outstanding = [];
  gap_seen_at = [];
  frames = [];
  requests = [];
}

-- The dictionary `pending`.
unfoldable pub held : ℕ → List Frame → Option Frame
held seq [] = none
held seq (f ∷ fs) = if f.seq == seq then some f else held seq fs

abbrev pub is_some {ℓ} : {A : Type ℓ} → Option A → Bool
is_some none = false
is_some (some a) = true

unfoldable pub release : ℕ → List Frame → List Frame
release seq [] = []
release seq (f ∷ fs) = let rest = release seq fs in if f.seq == seq then fs else f ∷ rest

unfoldable pub hold : Frame → List Frame → List Frame
hold f [] = f ∷ []
hold f (g ∷ gs) = let rest = hold f gs in if g.seq == f.seq then f ∷ gs else g ∷ rest

-- `min(pending)`
unfoldable pub least : ℕ → List Frame → ℕ
least n [] = n
least n (f ∷ fs) = least (if ltb f.seq n then f.seq else n) fs

abbrev pub min_held : List Frame → Option ℕ
min_held [] = none
min_held (f ∷ fs) = some (least f.seq fs)

unfoldable pub greatest : ℕ → List Frame → ℕ
greatest n [] = n
greatest n (f ∷ fs) = greatest (if ltb n f.seq then f.seq else n) fs

-- The dictionary `gap_seen_at`.
unfoldable pub seen_at : ℕ → List (ℕ × ℕ) → Option ℕ
seen_at seq [] = none
seen_at seq ((s, t) ∷ rows) = if s == seq then some t else seen_at seq rows

unfoldable pub forget : ℕ → List (ℕ × ℕ) → List (ℕ × ℕ)
forget seq [] = []
forget seq ((s, t) ∷ rows) = let rest = forget seq rows in if s == seq then rest else (s, t) ∷ rest

unfoldable pub forget_below : ℕ → List (ℕ × ℕ) → List (ℕ × ℕ)
forget_below seq [] = []
forget_below seq ((s, t) ∷ rows) =
    let rest = forget_below seq rows in if ltb s seq then rest else (s, t) ∷ rest

-- `setdefault`, with the value that it returns
unfoldable pub notice_gap : ℕ → ℕ → List (ℕ × ℕ) → ℕ × List (ℕ × ℕ)
notice_gap seq now rows = elim (seen_at seq rows) [
  | some t ↦ (t, rows)
  | none ↦ (now, (seq, now) ∷ rows)
]

-- The dictionary `outstanding`.
unfoldable pub asked_at : ℕ → ℕ → List (ℕ × ℕ × ℕ) → Option ℕ
asked_at lo hi [] = none
asked_at lo hi ((a, b, t) ∷ rows) = if a == lo && b == hi then some t else asked_at lo hi rows

unfoldable pub answered : ℕ → ℕ → List (ℕ × ℕ × ℕ) → List (ℕ × ℕ × ℕ)
answered lo hi [] = []
answered lo hi ((a, b, t) ∷ rows) =
    let rest = answered lo hi rows in if a == lo && b == hi then rest else (a, b, t) ∷ rest

abbrev is_trade : Frame → Bool
is_trade f = f.msg_type == msg_trade && leb trade_size (length f.payload)

-- `_deliver`
unfoldable pub deliver : Frame → Subscriber → Subscriber
deliver f s = record s {
  stats =
      let st = s.stats in
      record st {
        delivered = st.delivered + 1;
        trades = if is_trade f then st.trades + 1 else st.trades;
        heartbeats =
            if not (is_trade f) && f.msg_type == msg_heartbeat
            then st.heartbeats + 1
            else st.heartbeats;
      };
  frames = s.frames ++ (f ∷ []);
}

-- The body of `_drain_pending`'s loop, for the frame that is held.
unfoldable pub take_out : ℕ → Frame → Subscriber → Subscriber
take_out e f s =
    let s' =
      deliver f
        (record s { pending = release e s.pending; gap_seen_at = forget e s.gap_seen_at }) in
    record s' { expected = some (e + 1) }

-- A round of `_drain_pending`, with the rest of the loop.
abbrev pub drain_one : ℕ → (Subscriber → Subscriber) → Subscriber → Option Frame → Subscriber
drain_one e rest s none = s
drain_one e rest s (some f) = rest (take_out e f s)

-- The loop of `_drain_pending` from the expected number `e`.
unfoldable pub drain_loop : ℕ → ℕ → Subscriber → Subscriber
drain_loop zero e s = s
drain_loop (suc fuel) e s = drain_one e (drain_loop fuel (e + 1)) s (held e s.pending)

-- `_drain_pending`: each round takes a frame out, so as many rounds as frames are enough.
unfoldable pub drain_pending : ℕ → Subscriber → Subscriber
drain_pending e s = drain_loop (length s.pending) e s

-- The end of the run of missing numbers from `hi`: the inner loop of `_request_missing`.
unfoldable pub run_end : ℕ → ℕ → ℕ → List Frame → ℕ
run_end zero hi upto fs = hi
run_end (suc fuel) hi upto fs =
    let rest = run_end fuel (hi + 1) upto fs in
    if ltb (hi + 1) upto && not (is_some (held (hi + 1) fs)) then rest else hi

abbrev pub or_zero : Option ℕ → ℕ
or_zero none = 0
or_zero (some t) = t

-- The request for one run of missing numbers.
unfoldable pub ask : ℕ → ℕ → ℕ → Subscriber → Subscriber
ask now lo hi s =
    let seen = notice_gap lo now s.gap_seen_at in
    let s1 = record s { gap_seen_at = seen.1 } in
    let was = asked_at lo hi s.outstanding in
    let st = s.stats in
    if not (is_some was) && ltb (now - seen.0) s.gap_fill_delay
    then s1
    else if leb retrans_timeout (now - or_zero was)
    then record s1 {
      stats = record st {
        gaps_detected = if is_some was then st.gaps_detected else st.gaps_detected + 1;
        retrans_requests = st.retrans_requests + 1;
      };
      outstanding = (lo, hi, now) ∷ answered lo hi s.outstanding;
      requests = s.requests ++ ((lo, hi) ∷ []);
    }
    else s1

-- The loop of `_request_missing`; it goes up by one at least in each round.
unfoldable pub request_loop : ℕ → ℕ → ℕ → ℕ → Subscriber → Subscriber
request_loop zero now lo upto s = s
request_loop (suc fuel) now lo upto s =
    let hi = run_end (upto - lo) lo upto s.pending in
    let present = is_some (held lo s.pending) in
    let rest =
      request_loop fuel now (if present then lo + 1 else hi + 1) upto
        (if present then s else ask now lo hi s) in
    if ltb lo upto then rest else s

unfoldable pub request_missing : ℕ → ℕ → ℕ → Subscriber → Subscriber
request_missing now e upto s = request_loop (upto - e) now e upto s

-- `_observe` before the snapshot.
unfoldable pub buffer : Frame → Subscriber → Subscriber
buffer f s =
    let pending = hold f s.pending in
    if ltb max_pending_limit (length pending)
    then record s {
      pending = elim (min_held pending) [ none ↦ pending | some m ↦ release m pending ];
    }
    else record s { pending = pending }

-- `_observe` of a frame ahead of the expected one, up to the request.
unfoldable pub store_ahead : ℕ → ℕ → Frame → Bool → Subscriber → Subscriber
store_ahead now e f via_retrans s =
    let st = s.stats in
    let pending = hold f s.pending in
    if is_some (held f.seq s.pending)
    then record s { stats = record st { duplicates = st.duplicates + 1 } }
    else record s {
      pending = pending;
      stats = record st {
        max_pending =
            if ltb st.max_pending (length pending) then length pending else st.max_pending;
        reordered = if via_retrans then st.reordered else st.reordered + 1;
      };
      gap_seen_at = (notice_gap e now s.gap_seen_at).1;
    }

-- `_observe` of the expected frame.
unfoldable pub accept : ℕ → Frame → Subscriber → Subscriber
accept e f s = let s' = deliver f s in drain_pending (e + 1) (record s' { expected = some (e + 1) })

-- `_observe` with an expected number.
unfoldable pub observe_at : ℕ → ℕ → Frame → Bool → Subscriber → Subscriber
observe_at now e f via_retrans s =
    let st = s.stats in
    if ltb f.seq e
    then record s { stats = record st { duplicates = st.duplicates + 1 } }
    else if f.seq == e
    then accept e f s
    else request_missing now e f.seq (store_ahead now e f via_retrans s)

abbrev pub observe_with : ℕ → Frame → Bool → Subscriber → Option ℕ → Subscriber
observe_with now f via_retrans s none = buffer f s
observe_with now f via_retrans s (some e) = observe_at now e f via_retrans s

unfoldable pub observe : ℕ → Frame → Bool → Subscriber → Subscriber
observe now f via_retrans s = observe_with now f via_retrans s s.expected

-- The fields of an acknowledgement of type "retrans".
pub record Ack : Type 0 where
  pub from_seq : ℕ
  pub to_seq : ℕ
  pub sent : ℕ
  pub unavailable : ℕ
  pub oldest_available : ℕ

-- The frames that are not stale, and how many are.
unfoldable pub fresh_from : ℕ → List Frame → List Frame
fresh_from e [] = []
fresh_from e (f ∷ fs) = let rest = fresh_from e fs in if ltb f.seq e then rest else f ∷ rest

-- A request up to a number, where one is expected and one is given.
abbrev pub ask_up_to : ℕ → Subscriber → Option ℕ → Option ℕ → Subscriber
ask_up_to now s none m = s
ask_up_to now s (some e) none = s
ask_up_to now s (some e) (some m) = request_missing now e m s

-- The state at the end of a snapshot, before the frames that were held are delivered.
unfoldable pub restart : ℕ → Subscriber → Subscriber
restart e s =
    let st = s.stats in
    let fresh = fresh_from e s.pending in
    record s {
      expected = some e;
      pending = fresh;
      stats = record st {
        discarded_before_snapshot =
            st.discarded_before_snapshot + (length s.pending - length fresh);
      };
    }

-- `_on_tcp` on the end of a snapshot.
unfoldable pub start : ℕ → ℕ → Subscriber → Subscriber
start now e s =
    let s' = drain_pending e (restart e s) in ask_up_to now s' s'.expected (min_held s'.pending)

-- `_on_tcp` on a retransmission's acknowledgement, where numbers are skipped.
unfoldable pub skip_to : ℕ → ℕ → Subscriber → Subscriber
skip_to e oldest s =
    let st = s.stats in
    drain_pending oldest (record s {
      stats = record st { unrecoverable = st.unrecoverable + (oldest - e) };
      gap_seen_at = forget_below oldest s.gap_seen_at;
      expected = some oldest;
    })

-- An acknowledgement whose counts were taken, by the expected number.
abbrev pub settle_ack : Ack → Subscriber → Option ℕ → Subscriber
settle_ack a s none = s
settle_ack a s (some e) =
    if not (a.unavailable == 0) && ltb e a.oldest_available
    then skip_to e a.oldest_available s
    else s

unfoldable pub acknowledge : Ack → Subscriber → Subscriber
acknowledge a s =
    let st = s.stats in
    settle_ack a
      (record s {
        outstanding = answered a.from_seq a.to_seq s.outstanding;
        stats = record st { retrans_frames = st.retrans_frames + a.sent };
      })
      s.expected

-- `FLAG_SNAPSHOT`, `MSG_SNAPSHOT` and `MSG_ACK`
abbrev pub is_snapshot : Frame → Bool
is_snapshot f = f.flags % 2 == 1

module _ (next_seq_of : Bytes → ℕ) (ack_of : Bytes → Option Ack) where
  -- `_on_tcp` for one frame.
  unfoldable pub on_tcp_frame : ℕ → Frame → Subscriber → Subscriber
  on_tcp_frame now f s =
      let st = s.stats in
      if is_snapshot f
      then if f.msg_type == msg_snapshot
        then start now (next_seq_of f.payload) s
        else record s { stats = record st { snapshot_frames = st.snapshot_frames + 1 } }
      else if f.msg_type == msg_ack
      then elim (ack_of f.payload) [ none ↦ s | some a ↦ acknowledge a s ]
      else observe now f true s

  unfoldable pub on_tcp : ℕ → List Frame → Subscriber → Subscriber
  on_tcp now [] s = s
  on_tcp now (f ∷ fs) s = on_tcp now fs (on_tcp_frame now f s)

-- `_on_udp`, on the frames that the parser finds in a datagram of `n` bytes.
unfoldable pub observe_all : ℕ → List Frame → Subscriber → Subscriber
observe_all now [] s = s
observe_all now (f ∷ fs) s = observe_all now fs (observe now f false s)

unfoldable pub on_udp : ℕ → ℕ → List Frame → Subscriber → Subscriber
on_udp now n fs s =
    let st = s.stats in
    observe_all now fs
      (record s { stats = record st { datagrams = st.datagrams + 1; bytes_in = st.bytes_in + n } })

abbrev pub max_held : List Frame → Option ℕ
max_held [] = none
max_held (f ∷ fs) = some (greatest f.seq fs)

-- The end of a round of `run`: unanswered requests are sent again.
unfoldable pub retry : ℕ → Subscriber → Subscriber
retry now s = ask_up_to now s s.expected (max_held s.pending)
