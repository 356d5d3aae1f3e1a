-- ===== src/Protocol/Total.antt =====
-- The loop of `feed` ends, and has run the buffer.
use market_feed_platform.Prelude.{
  ℕ, zero, suc, ◌+◌, ◌≤◌, ◌<◌, ◌≡◌, refl, sym, ◌∙◌, ap, inl, inr, Option, some, List, [], ◌∷◌, ◌++◌,
  arith, length, drop, length-drop,
}
use mathlib.Core.Path.{subst}
use mathlib.Core.Option
use market_feed_platform.Prelude.Bytes.{Bytes}
use market_feed_platform.Protocol.{
  Frame, FrameParser, Verdict, short, garbage, corrupt, whole, resync, try_one, examine, feed_loop,
  feed,
}
use market_feed_platform.Protocol.Sync.{
  sync, length-sync-le, buf-resync, status-resync, crc_error_count-resync,
}
use market_feed_platform.Protocol.Examine.{examine_short, whole_bounds, garbage_long, corrupt_long}
use market_feed_platform.Protocol.Runs.{
  Runs, feed_loop_stop, feed_loop_again, feed_loop_yield, try_one_short, try_one_garbage,
  try_one_corrupt, try_one_whole,
}

-- A loop that was given `buf` and `n` checksum errors has returned, and has run `buf`.
pub record Fed (crc32 : Bytes → ℕ) (buf : Bytes) (n : ℕ) (out : Option (List Frame × FrameParser))
    : Type 0 where
  pub frames : List Frame
  pub after : FrameParser
  pub errors : ℕ
  pub returned : out ≡ some (frames, after)
  pub runs : Runs crc32 buf frames after.buf errors
  pub counted : after.crc_error_count ≡ n + errors

module _ (crc32 : Bytes → ℕ) where
  Fed-resync :
      (fuel : ℕ) (p q : FrameParser)
      → 20 ≤ length q.buf
      → try_one crc32 p ≡ resync q
      → Fed crc32 (resync q).1.buf (resync q).1.crc_error_count (feed_loop crc32 fuel (resync q).1)
      → Fed crc32 (sync (drop 1 q.buf)) q.crc_error_count (feed_loop crc32 (suc fuel) p)
  Fed-resync fuel p q h t ih = elim (status-resync q (omega arith)) [
    | inl s ↦ record {
      frames = ih.frames;
      after = ih.after;
      errors = ih.errors;
      returned =
          feed_loop_again crc32 p (resync q).1 fuel (t ∙ ap (λ x. (x, (resync q).1)) s)
          ∙ ih.returned;
      runs =
          subst (λ x. Runs crc32 x ih.frames ih.after.buf ih.errors) (buf-resync q (omega arith))
            ih.runs;
      counted = ih.counted ∙ ap (λ (x : ℕ). x + ih.errors) (crc_error_count-resync q);
    }
    | inr s ↦ record {
      frames = [];
      after = (resync q).1;
      errors = 0;
      returned = feed_loop_stop crc32 p (resync q).1 fuel (t ∙ ap (λ x. (x, (resync q).1)) s.0);
      runs =
          subst (λ x. Runs crc32 (sync (drop 1 q.buf)) [] x 0) (sym (buf-resync q (omega arith)))
            (Runs.wait (examine_short crc32 (sync (drop 1 q.buf)) (omega arith)));
      counted = omega (arith, crc_error_count-resync q);
    }
  ]

  Fed-whole :
      (fuel : ℕ) (p : FrameParser) (f : Frame) (k : ℕ)
      → examine crc32 p.buf ≡ whole f k
      → Fed crc32
          (drop k p.buf)
          p.crc_error_count
          (feed_loop crc32 fuel (record p { buf = drop k p.buf }))
      → Fed crc32 p.buf p.crc_error_count (feed_loop crc32 (suc fuel) p)
  Fed-whole fuel p f k e ih = record {
    frames = f ∷ ih.frames;
    after = ih.after;
    errors = ih.errors;
    returned =
        feed_loop_yield crc32 p (record p { buf = drop k p.buf }) fuel f (try_one_whole crc32 p e)
        ∙ ap (Option.map (λ r. (f ∷ r.0, r.1))) ih.returned;
    runs = Runs.frame e ih.runs;
    counted = ih.counted;
  }

  -- One round, by the verdict on the buffer.
  module _ (fuel : ℕ) (p : FrameParser) (h : length p.buf < suc fuel)
      (ih : (q : FrameParser)
        → length q.buf < fuel
        → Fed crc32 q.buf q.crc_error_count (feed_loop crc32 fuel q)) where
    resumed :
        (q : FrameParser)
        → length q.buf < suc fuel
        → 20 ≤ length q.buf
        → try_one crc32 p ≡ resync q
        → Fed crc32 (sync (drop 1 q.buf)) q.crc_error_count (feed_loop crc32 (suc fuel) p)
    resumed q l m t = Fed-resync fuel p q m t (
        ih (resync q).1 (
          omega (
            arith,
            ap (length {0}) (buf-resync q (omega arith)),
            length-sync-le (drop 1 q.buf),
            length-drop 1 q.buf,
          )))

    round :
        (v : Verdict)
        → examine crc32 p.buf ≡ v
        → Fed crc32 p.buf p.crc_error_count (feed_loop crc32 (suc fuel) p)
    round short x = record {
      frames = [];
      after = p;
      errors = 0;
      returned = feed_loop_stop crc32 p p fuel (try_one_short crc32 p x);
      runs = Runs.wait x;
      counted = omega arith;
    }
    round garbage x =
        let r = resumed p h (garbage_long crc32 p.buf x) (try_one_garbage crc32 p x) in
        record {
          frames = r.frames;
          after = r.after;
          errors = r.errors;
          returned = r.returned;
          runs = Runs.skip x r.runs;
          counted = r.counted;
        }
    round corrupt x =
        let r =
          resumed (record p { crc_error_count = p.crc_error_count + 1 }) h
            (corrupt_long crc32 p.buf x) (try_one_corrupt crc32 p x) in
        record {
          frames = r.frames;
          after = r.after;
          errors = suc r.errors;
          returned = r.returned;
          runs = Runs.fault x r.runs;
          counted = omega (arith, r.counted);
        }
    round (whole f k) x = Fed-whole fuel p f k x (
        ih (record p { buf = drop k p.buf })
          (omega (arith, length-drop k p.buf, whole_bounds crc32 p.buf x)))

  -- With more fuel than bytes the loop returns, and what it returns is the run of the buffer.
  pub feed_loop-Fed :
      (fuel : ℕ) (p : FrameParser)
      → length p.buf < fuel
      → Fed crc32 p.buf p.crc_error_count (feed_loop crc32 fuel p)
  feed_loop-Fed zero p h = absurd (omega arith)
  feed_loop-Fed (suc fuel) p h = round fuel p h (feed_loop-Fed fuel) (examine crc32 p.buf) refl

  pub feed-Fed :
      (p : FrameParser) (chunk : Bytes)
      → Fed crc32 (p.buf ++ chunk) p.crc_error_count (feed crc32 p chunk)
  unfolding feed
  feed-Fed p chunk =
      feed_loop-Fed (length (p.buf ++ chunk) + 1) (record p { buf = p.buf ++ chunk }) (omega arith)
