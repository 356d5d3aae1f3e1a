-- ===== src/Protocol/Examine.antt =====
-- The tests of `_try_one` on a buffer do not change when more bytes arrive behind it.
use market_feed_platform.Prelude.{
  ℕ, ◌+◌, ◌≤◌, ◌<◌, ◌≡◌, false, ◌++◌, arith, length, take, drop, slice, take-append, slice-append,
  length-append,
}
use market_feed_platform.Prelude.Bytes.{Bytes, unpack_be}
use market_feed_platform.Protocol.{
  magic, version, max_payload, unpack_header, short, garbage, corrupt, whole, examine, Frame,
  checksum,
}
use market_feed_platform.Protocol.Sync.{has_magic}

unpack_header-append : (a b : Bytes) → 20 ≤ length a → unpack_header (a ++ b) ≡ unpack_header a
unpack_header-append a b h = rw (
  take-append 4 a b (omega arith),
  slice-append 4 5 a b (omega arith) (omega arith),
  slice-append 5 6 a b (omega arith) (omega arith),
  slice-append 6 8 a b (omega arith) (omega arith),
  slice-append 8 16 a b (omega arith) (omega arith),
  slice-append 16 20 a b (omega arith) (omega arith),
)

module _ (crc32 : Bytes → ℕ) where
  pub examine_short : (buf : Bytes) → length buf < 20 → examine crc32 buf ≡ short
  unfolding examine
  examine_short buf h = ground arith

  pub examine_garbage :
      (buf : Bytes) → 20 ≤ length buf → has_magic buf ≡ false → examine crc32 buf ≡ garbage
  unfolding examine
  examine_garbage buf h m = ground arith

  -- The size of a frame that is found: a header and a checksum at least, and all of it in the buffer.
  pub whole_bounds :
      (buf : Bytes) {f : Frame} {k : ℕ}
      → examine crc32 buf ≡ whole f k
      → (24 ≤ k) × (k ≤ length buf)
  unfolding examine
  whole_bounds buf e = ground arith

  pub garbage_long : (buf : Bytes) → examine crc32 buf ≡ garbage → 20 ≤ length buf
  unfolding examine
  garbage_long buf e = ground arith

  pub corrupt_long : (buf : Bytes) → examine crc32 buf ≡ corrupt → 20 ≤ length buf
  unfolding examine
  corrupt_long buf e = ground arith

  module _ (a b : Bytes) where
    pub examine-append_garbage : examine crc32 a ≡ garbage → examine crc32 (a ++ b) ≡ garbage
    unfolding examine
    examine-append_garbage e = ground (arith, unpack_header-append a b, length-append a b)

    pub examine-append_corrupt : examine crc32 a ≡ corrupt → examine crc32 (a ++ b) ≡ corrupt
    unfolding examine
    examine-append_corrupt e =
        let n = unpack_be (slice 16 20 a) in
        ground (
          arith,
          unpack_header-append a b,
          length-append a b,
          slice-append (20 + n) (20 + n + 4) a b,
          take-append (20 + n) a b,
        )

    pub examine-append_whole :
        {f : Frame} {k : ℕ} → examine crc32 a ≡ whole f k → examine crc32 (a ++ b) ≡ whole f k
    unfolding examine
    examine-append_whole e =
        let n = unpack_be (slice 16 20 a) in
        ground (
          arith,
          unpack_header-append a b,
          length-append a b,
          slice-append (20 + n) (20 + n + 4) a b,
          take-append (20 + n) a b,
        )

  -- A buffer that starts with all of a good frame.
  pub examine_good :
      (buf body : Bytes) (t fl sq n : ℕ)
      → unpack_header buf
        ≡ record { tag = magic; ver = version; mtype = t; flags = fl; seq = sq; len = n }
      → n ≤ max_payload
      → 24 + n ≤ length buf
      → take (20 + n) buf ≡ body
      → unpack_be (slice (20 + n) (20 + n + 4) buf) ≡ checksum crc32 body
      → examine crc32 buf
        ≡ whole (record { msg_type = t; seq = sq; flags = fl; payload = drop 20 body }) (20 + n + 4)
  unfolding examine
  examine_good buf body t fl sq n h l m e c = ground (arith, h, e, c)
