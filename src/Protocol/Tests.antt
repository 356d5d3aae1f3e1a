-- ===== src/Protocol/Tests.antt =====
-- Runs of the protocol at concrete inputs, and the theorems at inputs that meet their hypotheses.
use market_feed_platform.Prelude.{ℕ, ◌+◌, ◌*◌, ◌%◌, ◌≡◌, refl, some, List, [], ◌∷◌, arith, length}
use market_feed_platform.Prelude.Bytes.{Bytes}
use mathlib.Core.List.{flatten}
use market_feed_platform.Protocol.{
  Frame, FrameParser, encode, feed, feed_loop, fresh, try_one, examine, resync, find, find_next,
  pack_header,
}
use market_feed_platform.Protocol.Chunks.{feed_all, feed_all-eq-feed}
use market_feed_platform.Protocol.RoundTrip.{
  AllFrames, IsFrame, wire, encode_all, feed_all-encode_all, encode_accepts,
}
use market_feed_platform.Protocol.Tracker
use market_feed_platform.Protocol.Tracker.{lost-observe_all}

-- A stand-in for `zlib.crc32`.
abbrev checksum_stub : Bytes → ℕ
checksum_stub [] = 0
checksum_stub (b ∷ bs) = (b + 3 * checksum_stub bs) % 65536

abbrev tick : Frame
tick = record { msg_type = 1; seq = 7; flags = 0; payload = 10 ∷ 20 ∷ 30 ∷ [] }

-- A payload that looks like the start of a frame.
abbrev tricky : Frame
tricky = record { msg_type = 2; seq = 8; flags = 1; payload = 77 ∷ 68 ∷ 70 ∷ 49 ∷ 1 ∷ [] }

-- Five bytes of noise before a frame are skipped.
feed_noise :
    feed checksum_stub fresh (1 ∷ 2 ∷ 77 ∷ 68 ∷ 3 ∷ wire checksum_stub tick)
    ≡ some (tick ∷ [], record { buf = []; resync_count = 1; crc_error_count = 0 })
unfolding feed feed_loop try_one examine resync find_next find pack_header
feed_noise = refl

abbrev session : List Frame
session = tick ∷ tricky ∷ []

-- The bytes of the session, cut in the middle of the first frame.
abbrev session_chunks : List Bytes
session_chunks =
    (77 ∷ 68 ∷ 70 ∷ [])
    ∷ (49 ∷ 1 ∷ 1 ∷ 0 ∷ 0 ∷ 0 ∷ 0 ∷ 0 ∷ 0 ∷ 0 ∷ 0 ∷ 0 ∷ 7 ∷ 0 ∷ 0 ∷ 0 ∷ 3 ∷ 10 ∷ [])
    ∷ (20 ∷ 30 ∷ 0 ∷ 0 ∷ 99 ∷ 16 ∷ [])
    ∷ wire checksum_stub tricky
    ∷ []

session_frames : AllFrames session
session_frames = omega arith

feed_all-encode_all_example :
    (p : FrameParser) × (feed_all checksum_stub fresh session_chunks ≡ some (session, p))
    × (p.crc_error_count ≡ 0)
unfolding encode_all encode pack_header flatten
feed_all-encode_all_example =
    feed_all-encode_all checksum_stub session session_chunks session_frames refl

feed_all-eq-feed_example :
    (fs : List Frame) × (p : FrameParser) × (q : FrameParser) × (feed_all checksum_stub fresh
        session_chunks
      ≡ some (fs, p))
    × (feed checksum_stub fresh (flatten session_chunks) ≡ some (fs, q))
    × (p.crc_error_count ≡ q.crc_error_count)
feed_all-eq-feed_example = feed_all-eq-feed checksum_stub session_chunks

encode_accepts_example :
    IsFrame tick
    × (wire checksum_stub tick ≡ wire checksum_stub tick)
    × (length (wire checksum_stub tick) ≡ 3 + 24)
unfolding encode
encode_accepts_example = encode_accepts checksum_stub tick refl

-- Frames 5, 6, 9 and 12: four of the eight numbers from 5 to 12 are lost.
lost-observe_all_example :
    let t = Tracker.observe_all Tracker.initial (5 ∷ 6 ∷ 9 ∷ 12 ∷ []) in
    (t.lost_messages + 4 ≡ 8) × (t.duplicate_count ≡ 0) × (t.expected ≡ some 13)
lost-observe_all_example = lost-observe_all 5 (6 ∷ 9 ∷ 12 ∷ []) (omega arith)
