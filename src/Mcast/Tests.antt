-- ===== src/Mcast/Tests.antt =====
-- The multicast subscriber at concrete inputs.
use market_feed_platform.Prelude.{ℕ, ◌≡◌, refl, some, Option, List, [], ◌∷◌}
use market_feed_platform.Prelude.Bytes.{Bytes}
use market_feed_platform.Protocol.{Frame}
use market_feed_platform.Mcast.{
  Ack, create, held, release, hold, least, greatest, seen_at, forget, notice_gap, asked_at,
  answered, deliver, take_out, drain_loop, drain_pending, run_end, ask, request_loop,
  request_missing, store_ahead, accept, observe_at, observe, fresh_from, restart, start,
  acknowledge, skip_to, forget_below, on_tcp_frame, on_tcp, observe_all, on_udp, retry,
}
use market_feed_platform.Mcast.Order.{numbers}
use market_feed_platform.Mcast.Feed.{
  Arrival, datagram, recovery, timeout, plain, steady, arrive, run, Steady, run-start-Steady,
}

abbrev frame : ℕ → Frame
frame n = record { msg_type = 3; seq = n; flags = 0; payload = [] }

-- 5, 7 and 8 arrive, the recovery channel sends 6, and later says that 10 is the oldest it has.
abbrev arrivals : List Arrival
arrivals =
    datagram 100 60 (frame 5 ∷ frame 7 ∷ frame 8 ∷ [])
    ∷ recovery 200 (frame 6 ∷ [])
    ∷ datagram 300 20 (frame 11 ∷ [])
    ∷ timeout 2_000_000
    ∷ recovery 2_100_000 (record { msg_type = 7; seq = 0; flags = 0; payload = [] } ∷ frame 10 ∷ [])
    ∷ []

abbrev ack_of : Bytes → Option Ack
ack_of payload =
    some (record { from_seq = 9; to_seq = 10; sent = 1; unavailable = 1; oldest_available = 10 })

abbrev next_seq_of : Bytes → ℕ
next_seq_of payload = 0

delivered_in_order :
    numbers (run next_seq_of ack_of arrivals (start 50 5 (create 0))).frames
    ≡ (5 ∷ 6 ∷ 7 ∷ 8 ∷ 10 ∷ 11 ∷ [])
unfolding held release hold least greatest seen_at forget notice_gap asked_at answered deliver
    take_out drain_loop drain_pending run_end ask request_loop request_missing store_ahead accept
    observe_at observe fresh_from restart start acknowledge skip_to forget_below on_tcp_frame on_tcp
    observe_all on_udp retry arrive run
delivered_in_order = refl

run-start-Steady_example :
    Steady 5 (create 0) (run next_seq_of ack_of arrivals (start 50 5 (create 0)))
unfolding steady plain
run-start-Steady_example = run-start-Steady next_seq_of ack_of 50 5 arrivals (create 0) refl
