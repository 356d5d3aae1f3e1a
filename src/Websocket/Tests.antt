-- ===== src/Websocket/Tests.antt =====
-- The codec's theorems at concrete inputs.
use market_feed_platform.Prelude.{◌≡◌, refl, arith, true, false, ◌∷◌, [], ◌++◌, List, some, none}
use market_feed_platform.Prelude.Bytes.{Bytes}
use market_feed_platform.Websocket.{
  bytes, encode_frame, parse, parse_length, parse_body, parse_payload, item, need_more, create,
  feed, feed_loop, handle,
}
use market_feed_platform.Websocket.RoundTrip.{bytes_of, parse-encode_frame}
use market_feed_platform.Websocket.Stream.{
  Message, encode_all, contents, AllSendable, feed-encode_all,
}
use market_feed_platform.Websocket.Drained.{parse-feed}

abbrev key : Bytes
key = 17 ∷ 34 ∷ 51 ∷ 68 ∷ []

abbrev hello : Bytes
hello = 104 ∷ 101 ∷ 108 ∷ 108 ∷ 111 ∷ []

parse-encode_frame_example :
    (encode_frame 1 hello (some key) ≡ bytes (bytes_of (encode_frame 1 hello (some key))))
    × (parse true (bytes_of (encode_frame 1 hello (some key)) ++ (9 ∷ []))
        ≡ item true 1 hello (9 ∷ []))
parse-encode_frame_example =
    parse-encode_frame 1 hello (9 ∷ []) (some key) (omega arith)
      (omega arith, (omega arith, (omega arith, (omega arith, (omega arith, tt))))) (omega arith)
      refl (refl, (omega arith, (omega arith, (omega arith, (omega arith, tt)))))

-- A text and a ping from a server.
abbrev two : List Message
two =
    record { op = 1; payload = hello; key = none }
    ∷ record { op = 9; payload = []; key = none }
    ∷ []

two-AllSendable : AllSendable false two
two-AllSendable = (
  record {
    in_range = omega arith;
    no_continuation = refl;
    in_bytes = (omega arith, (omega arith, (omega arith, (omega arith, (omega arith, tt)))));
    fits = omega arith;
    control_fits = refl;
    key_fits = tt;
    masked = refl;
  },
  (
    record {
      in_range = omega arith;
      no_continuation = refl;
      in_bytes = tt;
      fits = omega arith;
      control_fits = refl;
      key_fits = tt;
      masked = refl;
    },
    tt,
  ),
)

feed-encode_all_example :
    feed (encode_all two) (create false)
    ≡ record { messages = contents two; error = none; decoder = create false }
feed-encode_all_example = feed-encode_all false two two-AllSendable

-- A text in two fragments with a ping between them, and the head of another frame.
abbrev fragments : Bytes
fragments = 1 ∷ 2 ∷ 104 ∷ 101 ∷ 137 ∷ 0 ∷ 128 ∷ 3 ∷ 108 ∷ 108 ∷ 111 ∷ 129 ∷ 5 ∷ 104 ∷ []

reassembled : (feed fragments (create false)).messages ≡ (9, []) ∷ (1, hello) ∷ []
unfolding feed feed_loop parse parse_length parse_body parse_payload handle
reassembled = refl

parse-feed_example :
    parse
      (feed fragments (create false)).decoder.expect_masked
      (feed fragments (create false)).decoder.buf
    ≡ need_more
unfolding feed feed_loop parse parse_length parse_body parse_payload handle
parse-feed_example = parse-feed fragments (create false) refl
