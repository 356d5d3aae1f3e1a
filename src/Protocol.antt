-- ===== src/Protocol.antt =====
-- src/mdfeed/protocol.py: MDFP/1 frames, the streaming parser and the sequence tracker.
-- `zlib.crc32` is the parameter `crc32`; `struct.pack` raises on a field that does not fit its
-- width, which `encode` returns as `struct_error`.  `_on_resync` is a callback of the client,
-- called once for each increment of `resync_count`; it does not touch the parser.
pub mod Tracker
pub mod Sync
pub mod Examine
pub mod Runs
pub mod Total
pub mod Chunks
pub mod RoundTrip
mod Tests
use market_feed_platform.Prelude.{
  ℕ, zero, suc, ◌+◌, ◌-◌, ◌%◌, ◌^◌, Bool, true, false, not, ◌||◌, Option, none, some, List, [], ◌∷◌,
  ◌++◌, ltb, leb, ◌==◌, if◌then◌else◌, length, take, drop, slice,
}
use market_feed_platform.Prelude.Bytes.{Bytes, pack_be, unpack_be, bytes_eq}
use mathlib.Core.Option

-- `MAGIC`: b"MDF1"
abbrev pub magic : Bytes
magic = 77 ∷ 68 ∷ 70 ∷ 49 ∷ []

abbrev pub version : ℕ
version = 1

abbrev pub header_size : ℕ
header_size = 20

abbrev pub crc_size : ℕ
crc_size = 4

abbrev pub max_payload : ℕ
max_payload = 2 ^ 20

pub record Frame : Type 0 where
  pub msg_type : ℕ
  pub seq : ℕ
  pub flags : ℕ
  pub payload : Bytes

-- What `encode` returns or raises.
pub data Encoded : Type 0 where
  bytes : Bytes → Encoded
  protocol_error : Encoded
  struct_error : Encoded

-- `struct.pack("!4sBBHQI", …)`
unfoldable pub pack_header : Frame → Bytes
pack_header f =
    magic
    ++ pack_be 1 version
    ++ pack_be 1 f.msg_type
    ++ pack_be 2 f.flags
    ++ pack_be 8 f.seq
    ++ pack_be 4 (length f.payload)

-- The fields that `struct.pack` takes at their widths.
abbrev fields_fit : Frame → Bool
fields_fit f =
    if ltb f.msg_type (2 ^ 8)
    then if ltb f.flags (2 ^ 16) then ltb f.seq (2 ^ 64) else false
    else false

module _ (crc32 : Bytes → ℕ) where
  abbrev pub checksum : Bytes → ℕ
  checksum body = crc32 body % 2 ^ 32

  unfoldable pub encode : Frame → Encoded
  encode f =
      if ltb max_payload (length f.payload)
      then protocol_error
      else if not (fields_fit f)
      then struct_error
      else let body = pack_header f ++ f.payload in bytes (body ++ pack_be 4 (checksum body))

-- `struct.unpack(HEADER_FMT, buf[:HEADER_SIZE])`
pub record Header : Type 0 where
  pub tag : Bytes
  pub ver : ℕ
  pub mtype : ℕ
  pub flags : ℕ
  pub seq : ℕ
  pub len : ℕ

abbrev pub unpack_header : Bytes → Header
unpack_header buf = record {
  tag = take 4 buf;
  ver = unpack_be (slice 4 5 buf);
  mtype = unpack_be (slice 5 6 buf);
  flags = unpack_be (slice 6 8 buf);
  seq = unpack_be (slice 8 16 buf);
  len = unpack_be (slice 16 20 buf);
}

-- What the head of the buffer is: how the tests of `_try_one` come out, in their order.
pub data Verdict : Type 0 where
  short : Verdict
  garbage : Verdict
  corrupt : Verdict
  whole : Frame → ℕ → Verdict

pub record FrameParser : Type 0 where
  pub buf : Bytes
  pub resync_count : ℕ
  pub crc_error_count : ℕ

abbrev pub fresh : FrameParser
fresh = record { buf = []; resync_count = 0; crc_error_count = 0 }

-- `_OK`, `_NEED_MORE`, `_RETRY`
pub data Status : Type 0 where
  ok : Frame → Status
  need_more : Status
  retry : Status

-- `buf.find(MAGIC)`
unfoldable pub find : Bytes → Option ℕ
find [] = none
find (b ∷ bs) = if bytes_eq (take 4 (b ∷ bs)) magic then some 0 else Option.map suc (find bs)

-- `buf.find(MAGIC, 1)`
unfoldable pub find_next : Bytes → Option ℕ
find_next buf = Option.map suc (find (drop 1 buf))

unfoldable pub resync : FrameParser → Status × FrameParser
resync p = elim (find_next p.buf) [
  | none ↦ (
    need_more,
    record p { buf = drop (length p.buf - 3) p.buf; resync_count = p.resync_count + 1 },
  )
  | some idx ↦ (retry, record p { buf = drop idx p.buf; resync_count = p.resync_count + 1 })
]

-- The body of `feed`'s loop, on what `_try_one` returned and with the rest of the loop.
abbrev pub proceed :
    (FrameParser → Option (List Frame × FrameParser))
    → Status × FrameParser
    → Option (List Frame × FrameParser)
proceed rest (need_more, p) = some ([], p)
proceed rest (retry, p) = rest p
proceed rest (ok f, p) = Option.map (λ r. (f ∷ r.0, r.1)) (rest p)

module _ (crc32 : Bytes → ℕ) where
  unfoldable pub examine : Bytes → Verdict
  examine buf =
      let h = unpack_header buf in
      let end = header_size + h.len in
      let body = take end buf in
      if ltb (length buf) header_size
      then short
      else if not (bytes_eq h.tag magic)
      then garbage
      else if not (h.ver == version) || ltb max_payload h.len
      then garbage
      else if ltb (length buf) (end + crc_size)
      then short
      else if not (unpack_be (slice end (end + crc_size) buf) == checksum crc32 body)
      then corrupt
      else whole
          (record {
            msg_type = h.mtype;
            seq = h.seq;
            flags = h.flags;
            payload = drop header_size body;
          })
          (end + crc_size)

  -- `FrameParser._try_one`
  unfoldable pub try_one : FrameParser → Status × FrameParser
  try_one p = elim (examine p.buf) [
    | short ↦ (need_more, p)
    | garbage ↦ resync p
    | corrupt ↦ resync (record p { crc_error_count = p.crc_error_count + 1 })
    | whole f total ↦ (ok f, record p { buf = drop total p.buf })
  ]

  -- The loop of `feed`; `none` when the fuel runs out.
  unfoldable pub feed_loop : ℕ → FrameParser → Option (List Frame × FrameParser)
  feed_loop zero p = none
  feed_loop (suc fuel) p = proceed (feed_loop fuel) (try_one p)

  -- `FrameParser.feed`, with one round of fuel for each byte in the buffer and one more.
  unfoldable pub feed : FrameParser → Bytes → Option (List Frame × FrameParser)
  feed p chunk = let buf = p.buf ++ chunk in feed_loop (length buf + 1) (record p { buf = buf })
