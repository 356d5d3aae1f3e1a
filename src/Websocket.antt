-- ===== src/Websocket.antt =====
-- src/mdfeed/wsproto.py: WebSocket frames, `encode_frame` and `FrameDecoder`.  The key of a mask is
-- drawn outside and an argument; a payload is within 2 ^ 64 bytes.  Reading on at an offset of the
-- buffer is dropping the bytes before it.
pub mod Masks
pub mod RoundTrip
pub mod Stream
pub mod Drained
mod Tests
use market_feed_platform.Prelude.{
  ℕ, zero, suc, ◌+◌, ◌^◌, Bool, true, false, not, ◌&&◌, ◌||◌, Option, none, some, List, [], ◌∷◌,
  ◌++◌, ltb, leb, ◌==◌, if◌then◌else◌, length, take, drop, get_elem?,
}
use market_feed_platform.Prelude.Bytes.{Bytes, pack_be, unpack_be}
use Prim.Native.Nat.{bit_and, bit_or, bit_xor}

abbrev pub op_cont : ℕ
op_cont = 0

-- `CONTROL_OPS`: close, ping, pong
abbrev pub is_control : ℕ → Bool
is_control op = op == 8 || op == 9 || op == 10

abbrev pub max_frame : ℕ
max_frame = 2 ^ 24

-- The exceptions.
pub data WsError : Type 0 where
  control_too_long : WsError
  opcode_out_of_range : WsError
  frame_too_large : ℕ → WsError
  mask_rule : Bool → WsError
  stray_continuation : WsError

-- `key[i]` of a key of four bytes.
abbrev or_zero : Option ℕ → ℕ
or_zero none = 0
or_zero (some b) = b

unfoldable pub key_at : Bytes → ℕ → ℕ
key_at key i = or_zero (get_elem? key i)

-- `b ^ key[i & 3] for i, b in enumerate(payload)`, from `i` on
unfoldable pub apply_mask : Bytes → ℕ → Bytes → Bytes
apply_mask key i [] = []
apply_mask key i (b ∷ bs) = bit_xor b (key_at key (bit_and i 3)) ∷ apply_mask key (i + 1) bs

pub data Encoded : Type 0 where
  bytes : Bytes → Encoded
  raised : WsError → Encoded

abbrev pub mask_bit : Option Bytes → ℕ
mask_bit none = 0
mask_bit (some key) = 128

unfoldable pub encode_length : Option Bytes → ℕ → Bytes
encode_length mask n =
    if ltb n 126
    then bit_or (mask_bit mask) n ∷ []
    else if ltb n 65536
    then bit_or (mask_bit mask) 126 ∷ pack_be 2 n
    else bit_or (mask_bit mask) 127 ∷ pack_be 8 n

abbrev pub encode_payload : Option Bytes → Bytes → Bytes
encode_payload none payload = payload
encode_payload (some key) payload = key ++ apply_mask key 0 payload

-- `encode_frame`, with the key where it masks.
unfoldable pub encode_frame : ℕ → Bytes → Option Bytes → Encoded
encode_frame opcode payload mask =
    if is_control opcode && ltb 125 (length payload)
    then raised control_too_long
    else if leb 256 (bit_or 128 opcode)
    then raised opcode_out_of_range
    else bytes
        (bit_or 128 opcode ∷ (encode_length mask (length payload) ++ encode_payload mask payload))

-- What `_parse` returns, with the bytes that it leaves, or raises.
pub data Parsed : Type 0 where
  need_more : Parsed
  failed : WsError → Parsed
  item : Bool → ℕ → Bytes → Bytes → Parsed

-- `_parse` on the bytes from the payload on.
unfoldable pub parse_payload : Bool → ℕ → ℕ → Option Bytes → Bytes → Parsed
parse_payload fin opcode n key buf =
    if ltb (length buf) n
    then need_more
    else item fin opcode (elim key [ none ↦ take n buf | some k ↦ apply_mask k 0 (take n buf) ])
        (drop n buf)

abbrev pub same : Bool → Bool → Bool
same true b = b
same false b = not b

-- `_parse` from the tests on the length on.
unfoldable pub parse_body : Bool → Bool → ℕ → Bool → ℕ → Bytes → Parsed
parse_body expect_masked fin opcode masked n buf =
    if ltb max_frame n
    then failed (frame_too_large n)
    else if not (same masked expect_masked)
    then failed (mask_rule masked)
    else if masked
    then if ltb (length buf) 4
      then need_more
      else parse_payload fin opcode n (some (take 4 buf)) (drop 4 buf)
    else parse_payload fin opcode n none buf

-- `_parse` on the bytes after the first two.
unfoldable pub parse_length : Bool → Bool → ℕ → Bool → ℕ → Bytes → Parsed
parse_length expect_masked fin opcode masked n buf =
    if n == 126
    then if ltb (length buf) 2
      then need_more
      else parse_body expect_masked fin opcode masked (unpack_be (take 2 buf)) (drop 2 buf)
    else if n == 127
    then if ltb (length buf) 8
      then need_more
      else parse_body expect_masked fin opcode masked (unpack_be (take 8 buf)) (drop 8 buf)
    else parse_body expect_masked fin opcode masked n buf

unfoldable pub parse : Bool → Bytes → Parsed
parse expect_masked [] = need_more
parse expect_masked (b0 ∷ []) = need_more
parse expect_masked (b0 ∷ b1 ∷ buf) =
    parse_length expect_masked (not (bit_and b0 128 == 0)) (bit_and b0 15)
      (not (bit_and b1 128 == 0)) (bit_and b1 127) buf

pub record FrameDecoder : Type 0 where
  pub buf : Bytes
  pub expect_masked : Bool
  pub frag_op : ℕ
  pub frag : Bytes

abbrev pub create : Bool → FrameDecoder
create expect_masked = record { buf = []; expect_masked = expect_masked; frag_op = 0; frag = [] }

-- What a frame comes to: a message to yield, if any, and the decoder, or an exception.
pub data Handled : Type 0 where
  yields : ℕ → Bytes → FrameDecoder → Handled
  goes_on : FrameDecoder → Handled
  breaks : WsError → Handled

unfoldable pub handle : Bool → ℕ → Bytes → FrameDecoder → Handled
handle fin opcode payload d =
    if is_control opcode
    then yields opcode payload d
    else if opcode == op_cont
    then if d.frag_op == 0
      then breaks stray_continuation
      else if fin
      then yields d.frag_op (d.frag ++ payload) (record d { frag_op = 0; frag = [] })
      else goes_on (record d { frag = d.frag ++ payload })
    else if fin
    then yields opcode payload d
    else goes_on (record d { frag_op = opcode; frag = payload })

-- The messages that `feed` yields, the exception that ends it, if any, and the decoder then.
pub record Fed : Type 0 where
  pub messages : List (ℕ × Bytes)
  pub error : Option WsError
  pub decoder : FrameDecoder

abbrev stop : Option WsError → FrameDecoder → Fed
stop e d = record { messages = []; error = e; decoder = d }

abbrev cons : ℕ → Bytes → Fed → Fed
cons op payload f = record f { messages = (op, payload) ∷ f.messages }

abbrev pub after_handle : (FrameDecoder → Fed) → FrameDecoder → Handled → Fed
after_handle rest d (yields op payload d') = cons op payload (rest d')
after_handle rest d (goes_on d') = rest d'
after_handle rest d (breaks e) = stop (some e) d

abbrev pub after_parse : (FrameDecoder → Fed) → FrameDecoder → Parsed → Fed
after_parse rest d need_more = stop none d
after_parse rest d (failed e) = stop (some e) d
after_parse rest d (item fin opcode payload buf) =
    let d' = record d { buf = buf } in after_handle rest d' (handle fin opcode payload d')

-- The loop of `feed`; each round takes two bytes or more off the buffer.
unfoldable pub feed_loop : ℕ → FrameDecoder → Fed
feed_loop zero d = stop none d
feed_loop (suc n) d = after_parse (feed_loop n) d (parse d.expect_masked d.buf)

unfoldable pub feed : Bytes → FrameDecoder → Fed
feed chunk d = let d' = record d { buf = d.buf ++ chunk } in feed_loop (suc (length d'.buf)) d'
