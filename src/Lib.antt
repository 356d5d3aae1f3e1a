-- ===== src/Lib.antt =====
-- Verification of market-feed-platform, a market data feed: exchange adapters publish frames on a
-- bus, gateways distribute them in the MDFP/1 protocol, services store, check and trade on them.
-- The library models the parts of the Python program that keep state of their own.
--
-- Protocol (src/mdfeed/protocol.py): `encode`, `FrameParser` (`_try_one` is `examine` for its tests
--   and `try_one` for its effects, `_resync` is `resync`, the loop of `feed` is `feed_loop`) and
--   `SequenceTracker` (Protocol/Tracker).  `zlib.crc32` is a parameter.  The loop of `feed` has one
--   round of fuel for each byte in the buffer and one more; each round but the last drops a byte
--   (Protocol/Total), so it never runs out.  Protocol/Runs states a run of a buffer as a relation,
--   Protocol/Sync the place where a damaged stream is taken up again.
-- Gaps (src/mdfeed/gaps.py): the states and transitions of a gap in the stored data, the
--   evidence for a recovery (Gaps/Recovery), the reachable records (Gaps/Reach) and the summary.
--   Instants are UTC microseconds; reading and printing of timestamps is not modelled.
-- Contest (src/mdfeed/contest.py): the tables of the mock trading contest and its hash-chained
--   journal; Contest/Integrity is `_integrity`, Contest/Books, Contest/Operations and Contest/Again
--   say what the operations keep.  The hash is a parameter, the clock an argument; JSON details are
--   records.
-- Orders (src/mdfeed/ledger.py): the ledger of orders sent to a broker: Orders/Reconcile is
--   `_apply_totals`, its stages named after what they settle, Orders/Notice is `apply_notice`,
--   Orders/Close is `close_day` with the rows that it reads (Orders/Closing is what it promises),
--   Orders/Holdings is `reconcile_holdings`.  Orders/Again is on a client order id that comes again.
--   The rounding of a shared amount is a parameter.
-- Desk (src/mdfeed/services/order_desk.py): `submit`, cut where it waits for the broker (`Stage`),
--   as a client of the order ledger.  Desk/Calm says what the ledger does meanwhile, Desk/Counts
--   and Desk/Guard what each stage keeps, Desk/Open runs them in any order.
-- Migration (src/mdfeed/migration/): the copy of a SQLite database into PostgreSQL by
--   `run_migration`, with its checkpoints.  A budget counts the chunks that a process commits before
--   it is killed; one for each row of the source is enough (Migration/Again).  The order in which
--   each database yields a table's rows for its digest, and their normalisation, are parameters
--   (`Digesting`): SQLite and PostgreSQL place NULLs and order text in their own ways.
-- Auth (src/mdfeed/auth.py): sessions and the throttle of logins, with `login`, `logout` and `guarded`
--   of src/mdfeed/services/order_desk.py; a login is cut where it waits for the password's hash.
-- Bus (src/mdfeed/bus.py): `UDSPublisher` with a queue for each subscriber, its event loop as
--   steps (Bus/Steps, Bus/Delivery), and `SourceTracker` (Bus/Sources); `os.path.basename` is a
--   parameter.
-- Entitlements (src/mdfeed/entitlements.py): which symbols a token is granted.
-- Strategies (src/mdfeed/strategies.py): `SignalGate`, which spaces the signals.
-- Mcast (src/mdfeed/mcast_client.py): the subscriber that restores the order of a multicast feed;
--   the loops of `_drain_pending` and `_request_missing` have fuel for each frame held and for
--   each number asked about.
-- Websocket (src/mdfeed/wsproto.py): `encode_frame` and `FrameDecoder`.  The loop of `feed` has one
--   round of fuel for each byte and one more, and ends before them (Websocket/Drained).
-- Ring (src/mdfeed/ringbuffer.py): the shared-memory ring, `push` as its four stores, so that
--   Ring/Torn can put a reader between them.
-- Prelude: tests on numbers, lists, big-endian fields, integers.
--
-- Not modelled: sockets, files, databases and processes as such, the exchange adapters, the
-- services' event loops, and the C++ data plane.
pub mod Prelude
pub mod Auth
pub mod Bus
pub mod Contest
pub mod Desk
pub mod Entitlements
pub mod Gaps
pub mod Mcast
pub mod Migration
pub mod Orders
pub mod Protocol
pub mod Ring
pub mod Strategies
pub mod Websocket
