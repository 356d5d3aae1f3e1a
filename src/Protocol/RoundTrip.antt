-- ===== src/Protocol/RoundTrip.antt =====
-- What `encode` writes, the parser reads back.
use market_feed_platform.Prelude.{
  ℕ, ◌+◌, ◌-◌, ◌^◌, ◌≤◌, ◌<◌, ◌≡◌, refl, sym, ◌∙◌, ap, Option, none, some, List, [], ◌∷◌, ◌++◌,
  arith, length, take, drop, slice, length-append, take-append_length, drop-append_length, some_inj,
}
use mathlib.Core.Path.{subst}
use mathlib.Core.List.{append_assoc, flatten}
use mathlib.Core.Option
use market_feed_platform.Prelude.Bytes.{Bytes, pack_be, unpack_be, unpack-pack_be}
use market_feed_platform.Protocol.{
  Frame, FrameParser, bytes, protocol_error, struct_error, encode, pack_header, checksum, Header,
  unpack_header, magic, whole, examine, fresh,
}
use market_feed_platform.Protocol.Examine.{examine_short, examine_good}
use market_feed_platform.Protocol.Runs.{Runs}
use market_feed_platform.Protocol.Total.{feed-Fed}
use market_feed_platform.Protocol.Chunks.{feed_all, feed_all-eq-feed, Runs-det}

-- The fields are within their widths, and the payload within MAX_PAYLOAD.
pub record IsFrame (f : Frame) : Type 0 where
  pub kind : f.msg_type < 2 ^ 8
  pub bits : f.flags < 2 ^ 16
  pub number : f.seq < 2 ^ 64
  pub size : length f.payload ≤ 2 ^ 20

-- The header that `encode` wrote, read back.
abbrev header_of : Frame → Header
header_of f = record {
  tag = magic;
  ver = 1;
  mtype = f.msg_type;
  flags = f.flags;
  seq = f.seq;
  len = length f.payload;
}

unpack-pack_header :
    (f : Frame) (rest : Bytes) → IsFrame f → unpack_header (pack_header f ++ rest) ≡ header_of f
unfolding pack_header
unpack-pack_header f rest v i = record {
  tag = magic;
  ver = 1;
  mtype = unpack-pack_be 1 f.msg_type (omega arith) i;
  flags = unpack-pack_be 2 f.flags (omega arith) i;
  seq = unpack-pack_be 8 f.seq (omega arith) i;
  len = unpack-pack_be 4 (length f.payload) (omega arith) i;
}

length-pack_header : (f : Frame) → length (pack_header f) ≡ 20
unfolding pack_header
length-pack_header f = refl

drop-pack_header : (f : Frame) → drop 20 (pack_header f ++ f.payload) ≡ f.payload
unfolding pack_header
drop-pack_header f = refl

-- The bytes that `encode` writes.
abbrev pub wire : (Bytes → ℕ) → Frame → Bytes
wire crc32 f = let body = pack_header f ++ f.payload in body ++ pack_be 4 (checksum crc32 body)

module _ (crc32 : Bytes → ℕ) where
  pub encode-wire : (f : Frame) → IsFrame f → encode crc32 f ≡ bytes (wire crc32 f)
  unfolding encode
  encode-wire f v = ground arith

  -- A field of four bytes after a text of `n` bytes.
  slice-pack :
      (body : Bytes) (n x : ℕ) (rest : Bytes)
      → length body ≡ n
      → x < 2 ^ 32
      → unpack_be (slice n (n + 4) (body ++ (pack_be 4 x ++ rest))) ≡ x
  slice-pack body n x rest e h =
      let k : n + 4 - n ≡ 4 = omega arith in
      rw (k, ← e, drop-append_length body (pack_be 4 x ++ rest)) (unpack-pack_be 4 x h)

  pub examine-wire :
      (f : Frame) (rest : Bytes)
      → IsFrame f
      → examine crc32 (wire crc32 f ++ rest) ≡ whole f (20 + length f.payload + 4)
  examine-wire f rest v =
      let body = pack_header f ++ f.payload in
      let crc = pack_be 4 (checksum crc32 body) in
      let buf = body ++ (crc ++ rest) in
      let n = length f.payload in
      let l : length body ≡ 20 + n =
        omega (arith, length-append (pack_header f) f.payload, length-pack_header f) in
      let m : 24 + n ≤ length buf = omega (arith, l, length-append body (crc ++ rest)) in
      ap (examine crc32) (append_assoc body crc rest)
      ∙ examine_good crc32 buf body f.msg_type f.flags f.seq n
          (ap unpack_header (append_assoc (pack_header f) f.payload (crc ++ rest))
            ∙ unpack-pack_header f (f.payload ++ (crc ++ rest)) v)
          v.size m (ap (λ k. take k buf) (sym l) ∙ take-append_length body (crc ++ rest))
          (slice-pack body (20 + n) (checksum crc32 body) rest l (omega arith))
      ∙ ap
          (λ x.
            whole (record { msg_type = f.msg_type; seq = f.seq; flags = f.flags; payload = x })
              (20 + n + 4))
          (drop-pack_header f)

  length-wire : (f : Frame) → length (wire crc32 f) ≡ length f.payload + 24
  length-wire f =
      let body = pack_header f ++ f.payload in
      let crc = pack_be 4 (checksum crc32 body) in
      omega (
        arith,
        length-append body crc,
        length-append (pack_header f) f.payload,
        length-pack_header f,
      )

  drop-wire :
      (f : Frame) (rest : Bytes) → drop (20 + length f.payload + 4) (wire crc32 f ++ rest) ≡ rest
  drop-wire f rest =
      let l : length (wire crc32 f) ≡ 20 + length f.payload + 4 = omega (arith, length-wire f) in
      ap (λ k. drop k (wire crc32 f ++ rest)) (sym l) ∙ drop-append_length (wire crc32 f) rest

-- A session's frames, encoded one after the other; `none` where `encode` raises.
unfoldable pub encode_all : (Bytes → ℕ) → List Frame → Option Bytes
encode_all crc32 [] = some []
encode_all crc32 (f ∷ fs) = elim (encode crc32 f) [
  | bytes w ↦ Option.map (λ ws. w ++ ws) (encode_all crc32 fs)
  | protocol_error ↦ none
  | struct_error ↦ none
]

abbrev pub AllFrames : List Frame → Type 0
AllFrames [] = Unit
AllFrames (f ∷ fs) = IsFrame f × AllFrames fs

module _ (crc32 : Bytes → ℕ) where
  encode_all_cons :
      (f : Frame) (fs : List Frame) (w ws : Bytes)
      → encode crc32 f ≡ bytes w
      → encode_all crc32 fs ≡ some ws
      → encode_all crc32 (f ∷ fs) ≡ some (w ++ ws)
  unfolding encode_all
  encode_all_cons f fs w ws e d = ground (arith, e, d)

  encode_all-Runs :
      (fs : List Frame)
      → AllFrames fs
      → (w : Bytes) × (encode_all crc32 fs ≡ some w) × Runs crc32 w fs [] 0
  unfolding encode_all
  encode_all-Runs [] v = ([], refl, Runs.wait (examine_short crc32 [] (omega arith)))
  encode_all-Runs (f ∷ fs) (v, vs) =
      let (ws, e, run) = encode_all-Runs fs vs in
      (
        wire crc32 f ++ ws,
        encode_all_cons f fs (wire crc32 f) ws (encode-wire crc32 f v) e,
        Runs.frame (examine-wire crc32 f ws v)
            (subst (λ x. Runs crc32 x fs [] 0) (sym (drop-wire crc32 f ws)) run),
      )

  -- Frames whose fields fit their widths, with payloads of at most MAX_PAYLOAD bytes, are encoded,
  -- and the parser reads back exactly those frames, in order and with no checksum error, however
  -- their bytes are cut into chunks.
  pub feed_all-encode_all :
      (fs : List Frame) (cs : List Bytes)
      → AllFrames fs
      → encode_all crc32 fs ≡ some (flatten cs)
      → (p : FrameParser) × (feed_all crc32 fresh cs ≡ some (fs, p)) × (p.crc_error_count ≡ 0)
  feed_all-encode_all fs cs v e =
      let (w, e', run) = encode_all-Runs fs v in
      let same : w ≡ flatten cs = some_inj (sym e' ∙ e) in
      let fed = feed-Fed crc32 fresh (flatten cs) in
      let d = Runs-det crc32 (subst (λ x. Runs crc32 x fs [] 0) same run) fed.runs in
      let (gs, p, q, a, b, c) = feed_all-eq-feed crc32 cs in
      let out : (gs, q) ≡ (fed.frames, fed.after) = some_inj (sym b ∙ fed.returned) in
      let g : gs ≡ fs = ap (λ x. x.0) out ∙ sym d.0 in
      (
        p,
        a ∙ ap (λ x. some (x, p)) g,
        omega (arith, c, ap (λ x. x.1.crc_error_count) out, fed.counted, d.2),
      )

-- What `encode` returns without raising is the frame of 24 bytes and the payload, and it returns
-- so only for fields that fit their widths and a payload of at most MAX_PAYLOAD bytes.
pub encode_accepts :
    (crc32 : Bytes → ℕ) (f : Frame) {w : Bytes}
    → encode crc32 f ≡ bytes w
    → IsFrame f × (w ≡ wire crc32 f) × (length w ≡ length f.payload + 24)
unfolding encode
encode_accepts crc32 f e = ground (arith, length-wire crc32 f)
