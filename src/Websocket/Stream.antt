-- ===== src/Websocket/Stream.antt =====
-- src/mdfeed/wsproto.py: `FrameDecoder.feed` on the frames that `encode_frame` makes.
use market_feed_platform.Prelude.{
  ℕ, zero, suc, ◌≤◌, ◌<◌, ◌≡◌, refl, sym, arith, Bool, true, false, ◌&&◌, Option, none, List, [],
  ◌∷◌, ◌++◌, ltb, ◌==◌, length, length-append,
}
use market_feed_platform.Prelude.Bytes.{Bytes}
use market_feed_platform.Websocket.{
  is_control, max_frame, encode_frame, parse, item, FrameDecoder, create, handle, yields, feed_loop,
  feed, op_cont,
}
use market_feed_platform.Websocket.Masks.{AllByte}
use market_feed_platform.Websocket.RoundTrip.{
  is_masked, KeyFits, bytes_of, parse-encode_frame, encoded_bytes,
}

-- A message and the key that its frame is masked with, if it is.
pub record Message : Type 0 where
  pub op : ℕ
  pub payload : Bytes
  pub key : Option Bytes

abbrev pub encode_message : Message → Bytes
encode_message m = bytes_of (encode_frame m.op m.payload m.key)

abbrev pub encode_all : List Message → Bytes
encode_all [] = []
encode_all (m ∷ ms) = encode_message m ++ encode_all ms

abbrev pub contents : List Message → List (ℕ × Bytes)
contents [] = []
contents (m ∷ ms) = (m.op, m.payload) ∷ contents ms

-- A message with an opcode below 16 that is no continuation, a payload of bytes within MAX_FRAME and
-- of at most 125 bytes for a control opcode, and a key of four bytes exactly if the decoder expects
-- masks.
pub record Sendable (em : Bool) (m : Message) : Type 0 where
  pub in_range : m.op < 16
  pub no_continuation : (m.op == op_cont) ≡ false
  pub in_bytes : AllByte m.payload
  pub fits : length m.payload ≤ max_frame
  pub control_fits : (is_control m.op && ltb 125 (length m.payload)) ≡ false
  pub key_fits : KeyFits m.key
  pub masked : is_masked m.key ≡ em

abbrev pub AllSendable : Bool → List Message → Type 0
AllSendable em [] = Unit
AllSendable em (m ∷ ms) = Sendable em m × AllSendable em ms

parse-message :
    (em : Bool) (m : Message) (rest : Bytes)
    → Sendable em m
    → parse em (encode_message m ++ rest) ≡ item true m.op m.payload rest
parse-message em m rest s = rw (sym s.masked) (
    (parse-encode_frame m.op m.payload rest m.key s.in_range s.in_bytes s.fits s.control_fits
      s.key_fits).1)

some_bytes : (em : Bool) (m : Message) → Sendable em m → 0 < length (encode_message m)
unfolding bytes_of
some_bytes em m s =
    rw (encoded_bytes m.op m.payload m.key s.in_range s.control_fits, bytes_of) (omega arith)

handle-whole :
    (op : ℕ) (payload : Bytes) (d : FrameDecoder)
    → (op == op_cont) ≡ false
    → handle true op payload d ≡ yields op payload d
unfolding handle
handle-whole op payload d e = ground (arith, e)

abbrev holding : Bool → Bytes → FrameDecoder
holding em buf = record (create em) { buf = buf }

enough_bytes :
    (em : Bool) (ms : List Message) → AllSendable em ms → length ms ≤ length (encode_all ms)
enough_bytes em [] a = omega arith
enough_bytes em (m ∷ ms) a = omega (
  arith,
  length-append (encode_message m) (encode_all ms),
  some_bytes em m a.0,
  enough_bytes em ms a.1,
)

feed_loop-encode_all :
    (n : ℕ) (em : Bool) (ms : List Message)
    → AllSendable em ms
    → length ms < n
    → feed_loop n (holding em (encode_all ms))
      ≡ record { messages = contents ms; error = none; decoder = create em }
unfolding feed_loop
feed_loop-encode_all zero em ms a h = absurd (omega (arith, h))
feed_loop-encode_all (suc n) em [] a h = unfold parse in refl
feed_loop-encode_all (suc n) em (m ∷ ms) a h =
    rw
      (
        parse-message em m (encode_all ms) a.0,
        handle-whole m.op m.payload (holding em (encode_all ms)) a.0.no_continuation,
        feed_loop-encode_all n em ms a.1 (omega (arith, h)),
      )
      refl

-- Let messages have opcodes below 16 that are no continuations, payloads of bytes within MAX_FRAME and
-- of at most 125 bytes for control opcodes, and keys of four bytes if a new decoder expects masks
-- and none otherwise.  When the decoder gets their encodings at once, it yields exactly these
-- messages in their order, without an exception, and then is as it was.
pub feed-encode_all :
    (em : Bool) (ms : List Message)
    → AllSendable em ms
    → feed (encode_all ms) (create em)
      ≡ record { messages = contents ms; error = none; decoder = create em }
unfolding feed
feed-encode_all em ms a =
    feed_loop-encode_all (suc (length (encode_all ms))) em ms a
      (omega (arith, enough_bytes em ms a))
