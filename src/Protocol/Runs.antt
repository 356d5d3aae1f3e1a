-- ===== src/Protocol/Runs.antt =====
-- What the parser does with a buffer, as a relation: the frames that come out, the bytes that
-- stay, and the number of checksum errors on the way.
use market_feed_platform.Prelude.{ℕ, suc, ◌+◌, ◌≡◌, ap, some, List, [], ◌∷◌, drop}
use market_feed_platform.Prelude.Bytes.{Bytes}
use market_feed_platform.Protocol.{
  Frame, FrameParser, ok, need_more, retry, short, garbage, corrupt, whole, resync, try_one,
  examine, feed_loop, proceed,
}
use market_feed_platform.Protocol.Sync.{sync}
use mathlib.Core.Option

module _ (crc32 : Bytes → ℕ) where
  pub data Runs : Bytes → List Frame → Bytes → ℕ → Type 0 where
    wait : {a : Bytes} → examine crc32 a ≡ short → Runs a [] a 0
    skip :
        {a r : Bytes} {fs : List Frame} {n : ℕ}
        → examine crc32 a ≡ garbage
        → Runs (sync (drop 1 a)) fs r n
        → Runs a fs r n
    fault :
        {a r : Bytes} {fs : List Frame} {n : ℕ}
        → examine crc32 a ≡ corrupt
        → Runs (sync (drop 1 a)) fs r n
        → Runs a fs r (suc n)
    frame :
        {a r : Bytes} {f : Frame} {k : ℕ} {fs : List Frame} {n : ℕ}
        → examine crc32 a ≡ whole f k
        → Runs (drop k a) fs r n
        → Runs a (f ∷ fs) r n

-- One round of `feed`, by what `_try_one` says.
module _ (crc32 : Bytes → ℕ) (p q : FrameParser) where
  pub feed_loop_stop :
      (fuel : ℕ) → try_one crc32 p ≡ (need_more, q) → feed_loop crc32 (suc fuel) p ≡ some ([], q)
  feed_loop_stop fuel e = unfold feed_loop in ap (proceed (feed_loop crc32 fuel)) e

  pub feed_loop_again :
      (fuel : ℕ)
      → try_one crc32 p ≡ (retry, q)
      → feed_loop crc32 (suc fuel) p ≡ feed_loop crc32 fuel q
  feed_loop_again fuel e = unfold feed_loop in ap (proceed (feed_loop crc32 fuel)) e

  pub feed_loop_yield :
      (fuel : ℕ) (f : Frame)
      → try_one crc32 p ≡ (ok f, q)
      → feed_loop crc32 (suc fuel) p ≡ Option.map (λ r. (f ∷ r.0, r.1)) (feed_loop crc32 fuel q)
  feed_loop_yield fuel f e = unfold feed_loop in ap (proceed (feed_loop crc32 fuel)) e

module _ (crc32 : Bytes → ℕ) (p : FrameParser) where
  pub try_one_short : examine crc32 p.buf ≡ short → try_one crc32 p ≡ (need_more, p)
  try_one_short e = unfold try_one in rw (e, try_one)

  pub try_one_garbage : examine crc32 p.buf ≡ garbage → try_one crc32 p ≡ resync p
  try_one_garbage e = unfold try_one in rw (e, try_one)

  pub try_one_corrupt :
      examine crc32 p.buf ≡ corrupt
      → try_one crc32 p ≡ resync (record p { crc_error_count = p.crc_error_count + 1 })
  try_one_corrupt e = unfold try_one in rw (e, try_one)

  pub try_one_whole :
      {f : Frame} {k : ℕ}
      → examine crc32 p.buf ≡ whole f k
      → try_one crc32 p ≡ (ok f, record p { buf = drop k p.buf })
  try_one_whole e = unfold try_one in rw (e, try_one)
