-- ===== src/Protocol/Chunks.antt =====
-- How a stream is cut into chunks does not matter: runs of a buffer and of more bytes behind it.
use market_feed_platform.Prelude.{
  ℕ, suc, ◌+◌, ◌≤◌, ◌<◌, ◌≡◌, refl, sym, ◌∙◌, ap, inl, inr, Option, none, some, List, [], ◌∷◌, ◌++◌,
  arith, length, drop, drop-append, Bool-cases,
}
use mathlib.Core.Path.{subst}
use mathlib.Core.List.{append_assoc, append-nil, flatten}
use native.Mathlib.Decide.{dec_lt}
use mathlib.Core.Option
use market_feed_platform.Prelude.Bytes.{Bytes}
use market_feed_platform.Protocol.{
  Frame, FrameParser, short, garbage, corrupt, whole, examine, feed, fresh,
}
use market_feed_platform.Protocol.Sync.{
  has_magic, sync, sync_idem, sync-append, sync_magic, sync_skip, length-sync-le,
}
use market_feed_platform.Protocol.Examine.{
  examine_short, examine_garbage, whole_bounds, garbage_long, corrupt_long, examine-append_garbage,
  examine-append_corrupt, examine-append_whole,
}
use market_feed_platform.Protocol.Runs.{Runs}
use market_feed_platform.Protocol.Total.{feed-Fed}

module _ (crc32 : Bytes → ℕ) where
  -- A run of `a` with the rest of the run left open up to the place where it is taken up.
  record RunsTo (a : Bytes) (fs : List Frame) (r : Bytes) (n : ℕ) : Type 0 where
    rest : Bytes
    runs : Runs crc32 a fs rest n
    same : sync rest ≡ sync r

  -- Three ways in which a buffer stands to its next place.
  data Place (a : Bytes) : Type 0 where
    here : sync a ≡ a → Place a
    few : length a < 20 → Place a
    later : examine crc32 a ≡ garbage → sync (drop 1 a) ≡ sync a → Place a

  place : (a : Bytes) → Place a
  place [] = Place.few (omega arith)
  place (b ∷ bs) = elim (dec_lt (length (b ∷ bs)) 20) [
    | yes p ↦ Place.few p
    | no p ↦ elim (Bool-cases (has_magic (b ∷ bs))) [
      | inl m ↦ Place.here (sync_magic (b ∷ bs) m)
      | inr m ↦
          Place.later (examine_garbage crc32 (b ∷ bs) (omega arith) m)
            (sym (sync_skip b bs (omega arith) m))
    ]
  ]

  -- Dropping the bytes before the next place changes nothing that comes out.
  Runs-of_garbage :
      {a r : Bytes} {fs : List Frame} {n : ℕ}
      → examine crc32 a ≡ garbage
      → Runs crc32 a fs r n
      → Runs crc32 (sync (drop 1 a)) fs r n
  Runs-of_garbage e (Runs.wait x) = absurd (cc)
  Runs-of_garbage e (Runs.skip x run) = run
  Runs-of_garbage e (Runs.fault x run) = absurd (cc)
  Runs-of_garbage e (Runs.frame x run) = absurd (cc)

  Runs-of_short :
      {a r : Bytes} {fs : List Frame} {n : ℕ}
      → examine crc32 a ≡ short
      → Runs crc32 a fs r n
      → (fs ≡ []) × (r ≡ a) × (n ≡ 0)
  Runs-of_short e (Runs.wait x) = (refl, refl, refl)
  Runs-of_short e (Runs.skip x run) = absurd (cc)
  Runs-of_short e (Runs.fault x run) = absurd (cc)
  Runs-of_short e (Runs.frame x run) = absurd (cc)

  Runs-of_corrupt :
      {a r : Bytes} {fs : List Frame} {n : ℕ}
      → examine crc32 a ≡ corrupt
      → Runs crc32 a fs r n
      → (k : ℕ) × (n ≡ suc k) × Runs crc32 (sync (drop 1 a)) fs r k
  Runs-of_corrupt e (Runs.wait x) = absurd (cc)
  Runs-of_corrupt e (Runs.skip x run) = absurd (cc)
  Runs-of_corrupt e (Runs.fault {n = n} x run) = (n, refl, run)
  Runs-of_corrupt e (Runs.frame x run) = absurd (cc)

  Runs-of_whole :
      {a r : Bytes} {fs : List Frame} {n : ℕ} {f : Frame} {k : ℕ}
      → examine crc32 a ≡ whole f k
      → Runs crc32 a fs r n
      → (gs : List Frame) × (fs ≡ f ∷ gs) × Runs crc32 (drop k a) gs r n
  Runs-of_whole e (Runs.wait x) = absurd (cc)
  Runs-of_whole e (Runs.skip x run) = absurd (cc)
  Runs-of_whole e (Runs.fault x run) = absurd (cc)
  Runs-of_whole {f = f} {k = k} e
        (Runs.frame {a = a} {r = r} {f = f'} {k = k'} {fs = fs} {n = n} x run) =
      let same_k : k' ≡ k = ground (arith, e, x) in
      let same_f : f' ≡ f = ground (arith, e, x) in
      (fs, ap (λ t. t ∷ fs) same_f, subst (λ t. Runs crc32 (drop t a) fs r n) same_k run)

  to_sync : {a r : Bytes} {fs : List Frame} {n : ℕ} → Runs crc32 a fs r n → RunsTo (sync a) fs r n
  to_sync {a} {r} {fs} {n} run = elim (place a) [
    | Place.here e ↦ record {
      rest = r;
      runs = subst (λ x. Runs crc32 x fs r n) (sym e) run;
      same = refl;
    }
    | Place.few l ↦
        let (f, s, z) = Runs-of_short (examine_short crc32 a l) run in
        record {
          rest = sync a;
          runs =
              rw (f, z)
                (Runs.wait (examine_short crc32 (sync a) (omega (arith, length-sync-le a))));
          same = sync_idem a ∙ ap sync (sym s);
        }
    | Place.later g e ↦ record {
      rest = r;
      runs = subst (λ x. Runs crc32 x fs r n) e (Runs-of_garbage g run);
      same = refl;
    }
  ]

  of_sync : {a r : Bytes} {fs : List Frame} {n : ℕ} → Runs crc32 (sync a) fs r n → RunsTo a fs r n
  of_sync {a} {r} {fs} {n} run = elim (place a) [
    | Place.here e ↦ record { rest = r; runs = subst (λ x. Runs crc32 x fs r n) e run; same = refl }
    | Place.few l ↦
        let (f, s, z) =
          Runs-of_short (examine_short crc32 (sync a) (omega (arith, length-sync-le a))) run in
        record {
          rest = a;
          runs = rw (f, z) (Runs.wait (examine_short crc32 a l));
          same = sym (sync_idem a) ∙ ap sync (sym s);
        }
    | Place.later g e ↦ record {
      rest = r;
      runs = Runs.skip g (subst (λ x. Runs crc32 x fs r n) (sym e) run);
      same = refl;
    }
  ]

  -- Buffers with one next place run alike.
  Runs-of_sync_eq :
      {a b r : Bytes} {fs : List Frame} {n : ℕ}
      → sync a ≡ sync b
      → Runs crc32 a fs r n
      → RunsTo b fs r n
  Runs-of_sync_eq {fs = fs} {n = n} e run =
      let s = to_sync run in
      let t = of_sync (subst (λ x. Runs crc32 x fs s.rest n) e s.runs) in
      record { rest = t.rest; runs = t.runs; same = t.same ∙ s.same }

  -- After a resynchronisation inside `a`, the bytes of `b` behind it are no different.
  resume :
      (a b : Bytes) {fs : List Frame} {r : Bytes} {n : ℕ}
      → 20 ≤ length a
      → RunsTo (sync (drop 1 a) ++ b) fs r n
      → RunsTo (sync (drop 1 (a ++ b))) fs r n
  resume a b h t =
      let u =
        Runs-of_sync_eq
          (sync-append (drop 1 a) b
            ∙ sym (sync_idem (drop 1 a ++ b))
            ∙ ap (λ x. sync (sync x)) (sym (drop-append 1 a b (omega arith))))
          t.runs in
      record { rest = u.rest; runs = u.runs; same = u.same ∙ t.same }

  -- First the run of `a`, then that of what it left with `b` behind it, is the run of both.
  Runs-append :
      {a q : Bytes} {fs : List Frame} {m : ℕ} (b : Bytes) {gs : List Frame} {r : Bytes} {n : ℕ}
      → Runs crc32 a fs q m
      → Runs crc32 (q ++ b) gs r n
      → RunsTo (a ++ b) (fs ++ gs) r (m + n)
  Runs-append b {gs} {r} {n} (Runs.wait {a = a} x) run =
      let z : n ≡ 0 + n = omega arith in
      record { rest = r; runs = subst (λ k. Runs crc32 (a ++ b) gs r k) z run; same = refl }
  Runs-append b (Runs.skip {a = a} x rec) run =
      let t = resume a b (garbage_long crc32 a x) (Runs-append b rec run) in
      record {
        rest = t.rest;
        runs = Runs.skip (examine-append_garbage crc32 a b x) t.runs;
        same = t.same;
      }
  Runs-append b {n = n} (Runs.fault {a = a} {n = m} x rec) run =
      let t = resume a b (corrupt_long crc32 a x) (Runs-append b rec run) in
      let z : suc (m + n) ≡ suc m + n = omega arith in
      record {
        rest = t.rest;
        runs = rw (← z) (Runs.fault (examine-append_corrupt crc32 a b x) t.runs);
        same = t.same;
      }
  Runs-append b (Runs.frame {a = a} {k = k} x rec) run =
      let t = Runs-append b rec run in
      record {
        rest = t.rest;
        runs =
            Runs.frame (examine-append_whole crc32 a b x)
              (rw (drop-append k a b (omega (arith, whole_bounds crc32 a x))) t.runs);
        same = t.same;
      }

  -- What comes out of a buffer, and the number of its checksum errors, are determined.
  pub Runs-det :
      {a r s : Bytes} {fs gs : List Frame} {m n : ℕ}
      → Runs crc32 a fs r m
      → Runs crc32 a gs s n
      → (fs ≡ gs) × (r ≡ s) × (m ≡ n)
  Runs-det (Runs.wait x) q = let (f, r, n) = Runs-of_short x q in (sym f, sym r, sym n)
  Runs-det (Runs.skip x p) q = Runs-det p (Runs-of_garbage x q)
  Runs-det (Runs.fault x p) q =
      let (k, e, q') = Runs-of_corrupt x q in
      let d = Runs-det p q' in (d.0, d.1, ap suc d.2 ∙ sym e)
  Runs-det (Runs.frame {f = f} x p) q =
      let (gs', e, q') = Runs-of_whole x q in
      let d = Runs-det p q' in (ap (λ t. f ∷ t) d.0 ∙ sym e, d.1, d.2)

  -- What stays in the buffer waits for more bytes.
  Runs-end : {a r : Bytes} {fs : List Frame} {n : ℕ} → Runs crc32 a fs r n → examine crc32 r ≡ short
  Runs-end (Runs.wait x) = x
  Runs-end (Runs.skip x run) = Runs-end run
  Runs-end (Runs.fault x run) = Runs-end run
  Runs-end (Runs.frame x run) = Runs-end run

-- `feed` once for each chunk.
pub feed_all : (Bytes → ℕ) → FrameParser → List Bytes → Option (List Frame × FrameParser)
feed_all crc32 p [] = some ([], p)
feed_all crc32 p (c ∷ cs) = elim (feed crc32 p c) [
  | none ↦ none
  | some (fs, q) ↦ Option.map (λ r. (fs ++ r.0, r.1)) (feed_all crc32 q cs)
]

module _ (crc32 : Bytes → ℕ) where
  feed_all_cons :
      (p q q' : FrameParser) (c : Bytes) (cs : List Bytes) (fs gs : List Frame)
      → feed crc32 p c ≡ some (fs, q)
      → feed_all crc32 q cs ≡ some (gs, q')
      → feed_all crc32 p (c ∷ cs) ≡ some (fs ++ gs, q')
  unfolding feed_all
  feed_all_cons p q q' c cs fs gs e d = ground (arith, e, d)

  -- What a sequence of feeds has done, as one run of the whole stream.
  record Streamed (p : FrameParser) (cs : List Bytes) : Type 0 where
    frames : List Frame
    after : FrameParser
    errors : ℕ
    returned : feed_all crc32 p cs ≡ some (frames, after)
    counted : after.crc_error_count ≡ p.crc_error_count + errors
    whole_run : RunsTo crc32 (p.buf ++ flatten cs) frames after.buf errors

  streamed : (cs : List Bytes) (p : FrameParser) → examine crc32 p.buf ≡ short → Streamed p cs
  unfolding feed_all flatten
  streamed [] p h = record {
    frames = [];
    after = p;
    errors = 0;
    returned = refl;
    counted = omega arith;
    whole_run = record { rest = p.buf; runs = rw (append-nil p.buf) (Runs.wait h); same = refl };
  }
  streamed (c ∷ cs) p h =
      let first = feed-Fed crc32 p c in
      let more = streamed cs first.after (Runs-end crc32 first.runs) in
      let run = Runs-append crc32 (flatten cs) first.runs more.whole_run.runs in
      record {
        frames = first.frames ++ more.frames;
        after = more.after;
        errors = first.errors + more.errors;
        returned =
            feed_all_cons p first.after more.after c cs first.frames more.frames first.returned
              more.returned;
        counted = omega (arith, first.counted, more.counted);
        whole_run = record {
          rest = run.rest;
          runs = rw (← append_assoc p.buf c (flatten cs)) run.runs;
          same = run.same ∙ more.whole_run.same;
        };
      }

  -- Feeding a stream in any chunks, one after the other, returns the frames that feeding it at
  -- once returns, in the same order, and counts as many checksum errors.
  pub feed_all-eq-feed :
      (cs : List Bytes)
      → (fs : List Frame) × (p : FrameParser) × (q : FrameParser) × (feed_all crc32 fresh cs
          ≡ some (fs, p))
        × (feed crc32 fresh (flatten cs) ≡ some (fs, q))
        × (p.crc_error_count ≡ q.crc_error_count)
  feed_all-eq-feed cs =
      let s = streamed cs fresh (examine_short crc32 [] (omega arith)) in
      let f = feed-Fed crc32 fresh (flatten cs) in
      let d = Runs-det crc32 s.whole_run.runs f.runs in
      (
        s.frames,
        s.after,
        f.after,
        s.returned,
        f.returned ∙ ap (λ x. some (x, f.after)) (sym d.0),
        omega (arith, s.counted, f.counted, d.2),
      )
