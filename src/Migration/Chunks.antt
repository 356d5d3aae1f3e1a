-- ===== src/Migration/Chunks.antt =====
-- src/mdfeed/migration/engine.py and sqlite_source.py: the chunks of a source table whose rowids
-- increase, and what a checkpoint says of them.
use market_feed_platform.Prelude.{
  ℕ, zero, suc, ◌+◌, ◌≤◌, ◌<◌, ◌≡◌, refl, sym, ap, ◌∙◌, arith, true, false, ◌&&◌, Option, none,
  some, List, [], ◌∷◌, ◌++◌, take, drop, length, length-append, ltb, leb, ==_refl,
}
use mathlib.Core.Path.{subst}
use mathlib.Core.List.{append_assoc, append-nil}
use market_feed_platform.Migration.{
  Checkpoint, select, read_sqlite_chunk, read_sqlite_rowid_range, checkpoint_rowid,
  checkpoint_count, last_rowid, contents, checkpoint_hash_from_source, validate_checkpoint,
  validate_row,
}

module _ {Row : Type 0} where
  -- The rowids after `a` increase.
  abbrev pub Increasing : ℕ → List (ℕ × Row) → Type 0
  Increasing a [] = Unit
  Increasing a ((i, r) ∷ rows) = (a < i) × Increasing i rows

  last_rowid-append :
      (a : ℕ) (xs ys : List (ℕ × Row)) → last_rowid a (xs ++ ys) ≡ last_rowid (last_rowid a xs) ys
  last_rowid-append a [] ys = refl
  last_rowid-append a ((i, r) ∷ xs) ys = last_rowid-append i xs ys

  Increasing-last :
      (a : ℕ) (xs ys : List (ℕ × Row)) → Increasing a (xs ++ ys) → Increasing (last_rowid a xs) ys
  Increasing-last a [] ys h = h
  Increasing-last a ((i, r) ∷ xs) ys h = Increasing-last i xs ys h.1

  last_above : (a : ℕ) (xs ys : List (ℕ × Row)) → Increasing a (xs ++ ys) → a ≤ last_rowid a xs
  last_above a [] ys h = omega arith
  last_above a ((i, r) ∷ xs) ys h = omega (arith, h.0, last_above i xs ys h.1)

  -- What is up to `a`, and what is after it.
  passed_over :
      (a b : ℕ) (xs ys : List (ℕ × Row))
      → Increasing b (xs ++ ys)
      → last_rowid b xs ≤ a
      → select (λ r. ltb a r.0) (xs ++ ys) ≡ select (λ r. ltb a r.0) ys
  unfolding select
  passed_over a b [] ys h le = refl
  passed_over a b ((i, r) ∷ xs) ys h le =
      let rest = passed_over a i xs ys h.1 le in
      let e : ltb a i ≡ false = ground (arith, last_above i xs ys h.1, le) in rw e rest

  taken_all :
      (a b : ℕ) (ys : List (ℕ × Row)) → Increasing b ys → a ≤ b → select (λ r. ltb a r.0) ys ≡ ys
  unfolding select
  taken_all a b [] h le = refl
  taken_all a b ((i, r) ∷ ys) h le =
      let e : ltb a i ≡ true = ground (arith, h.0, le) in
      rw (e, taken_all a i ys h.1 (omega (arith, h.0, le))) refl

  -- A chunk is the beginning of what was not copied.
  pub chunk_of :
      (n : ℕ) (done rest : List (ℕ × Row))
      → Increasing 0 (done ++ rest)
      → read_sqlite_chunk (last_rowid 0 done) n (done ++ rest) ≡ take n rest
  unfolding read_sqlite_chunk
  chunk_of n done rest h =
      let a = last_rowid 0 done in
      ap (take n) (
        passed_over a 0 done rest h (omega arith)
        ∙ taken_all a a rest (Increasing-last 0 done rest h) (omega arith))

  -- The rows of a range.
  below_range :
      (lo hi b : ℕ) (xs ys : List (ℕ × Row))
      → Increasing b (xs ++ ys)
      → last_rowid b xs < lo
      → read_sqlite_rowid_range lo hi (xs ++ ys) ≡ read_sqlite_rowid_range lo hi ys
  unfolding read_sqlite_rowid_range select
  below_range lo hi b [] ys h lt = refl
  below_range lo hi b ((i, r) ∷ xs) ys h lt =
      let rest = below_range lo hi i xs ys h.1 lt in
      let e : leb lo i ≡ false = ground (arith, last_above i xs ys h.1, lt) in rw e rest

  in_range :
      (lo hi b : ℕ) (xs ys : List (ℕ × Row))
      → Increasing b (xs ++ ys)
      → lo ≤ b
      → last_rowid b xs ≤ hi
      → read_sqlite_rowid_range lo hi (xs ++ ys) ≡ xs ++ read_sqlite_rowid_range lo hi ys
  unfolding read_sqlite_rowid_range select
  in_range lo hi b [] ys h lb le = refl
  in_range lo hi b ((i, r) ∷ xs) ys h lb le =
      let rest = in_range lo hi i xs ys h.1 (omega (arith, h.0, lb)) le in
      let e : leb lo i ≡ true = ground (arith, h.0, lb) in
      let f : leb i hi ≡ true = ground (arith, last_above i xs ys h.1, le) in
      rw (e, f) (ap (λ zs. (i, r) ∷ zs) rest)

  above_range :
      (lo hi b : ℕ) (ys : List (ℕ × Row))
      → Increasing b ys
      → hi ≤ b
      → read_sqlite_rowid_range lo hi ys ≡ []
  unfolding read_sqlite_rowid_range select
  above_range lo hi b [] h le = refl
  above_range lo hi b ((i, r) ∷ ys) h le =
      let rest = above_range lo hi i ys h.1 (omega (arith, h.0, le)) in
      let f : (leb lo i && leb i hi) ≡ false = ground (arith, h.0, le) in rw f rest

  -- The range of a chunk gives the chunk again.
  range_of :
      (done : List (ℕ × Row)) (i : ℕ) (r : Row) (more later : List (ℕ × Row))
      → Increasing 0 (done ++ (((i, r) ∷ more) ++ later))
      → read_sqlite_rowid_range i (last_rowid i more) (done ++ (((i, r) ∷ more) ++ later))
        ≡ (i, r) ∷ more
  unfolding read_sqlite_rowid_range select
  range_of done i r more later h =
      let tail = Increasing-last 0 done (((i, r) ∷ more) ++ later) h in
      let hi = last_rowid i more in
      let top = last_above i more later tail.1 in
      let e : leb i i ≡ true = ground arith in
      let f : leb i hi ≡ true = ground (arith, top) in
      let after = above_range i hi hi later (Increasing-last i more later tail.1) (omega arith) in
      let inside = in_range i hi i more later tail.1 (omega arith) (omega arith) in
      below_range i hi 0 done (((i, r) ∷ more) ++ later) h tail.0
      ∙ rw (e, f) (ap (λ zs. (i, r) ∷ zs) (inside ∙ ap (λ zs. more ++ zs) after ∙ append-nil more))

  take-drop : (n : ℕ) (xs : List (ℕ × Row)) → take n xs ++ drop n xs ≡ xs
  take-drop zero xs = refl
  take-drop (suc n) [] = refl
  take-drop (suc n) (x ∷ xs) = ap (λ zs. x ∷ zs) (take-drop n xs)

  pub length-contents : (xs : List (ℕ × Row)) → length (contents xs) ≡ length xs
  length-contents [] = refl
  length-contents (x ∷ xs) = ap suc (length-contents xs)

  contents-append : (xs ys : List (ℕ × Row)) → contents (xs ++ ys) ≡ contents xs ++ contents ys
  contents-append [] ys = refl
  contents-append (x ∷ xs) ys = ap (λ zs. x.1 ∷ zs) (contents-append xs ys)

-- How far a table is copied: the checkpoint and the stored rows are those of a first part of the
-- source table, and the checkpoint passes its validation.
pub record Copied {Row : Type 0} (h : List (ℕ × Row) → ℕ) (rows : List (ℕ × Row))
    (c : Option Checkpoint) (stored : List Row) : Type 0 where
  pub done : List (ℕ × Row)
  pub rest : List (ℕ × Row)
  pub split : rows ≡ done ++ rest
  pub reached : checkpoint_rowid c ≡ last_rowid 0 done
  pub counted : checkpoint_count c ≡ length done
  pub copied : stored ≡ contents done
  pub valid : validate_row h rows stored c ≡ none

module _ {Row : Type 0} (h : List (ℕ × Row) → ℕ) where
  -- The checkpoint of a chunk.
  abbrev pub checkpoint_of : Option Checkpoint → ℕ → List (ℕ × Row) → Checkpoint
  checkpoint_of c first chunk = record {
    first_source_rowid = first;
    last_source_rowid = last_rowid first chunk;
    chunk_row_count = length chunk;
    row_count = checkpoint_count c + length chunk;
    chunk_hash = h chunk;
  }

  hashed :
      (rows : List (ℕ × Row)) (lo hi : ℕ) (chunk : List (ℕ × Row))
      → read_sqlite_rowid_range lo hi rows ≡ chunk
      → checkpoint_hash_from_source h rows lo hi (length chunk) ≡ some (h chunk)
  unfolding checkpoint_hash_from_source
  hashed rows lo hi chunk e = rw (e, ==_refl (length chunk)) refl

  validated :
      (rows : List (ℕ × Row)) (stored : List Row) (c : Option Checkpoint) (first : ℕ)
      (chunk : List (ℕ × Row))
      → read_sqlite_rowid_range first (last_rowid first chunk) rows ≡ chunk
      → length stored ≡ checkpoint_count c + length chunk
      → validate_checkpoint h rows stored (checkpoint_of c first chunk) ≡ none
  unfolding validate_checkpoint
  validated rows stored c first chunk e n =
      rw (hashed rows first (last_rowid first chunk) chunk e, validate_checkpoint)
        (rw (==_refl (h chunk), n, ==_refl (checkpoint_count c + length chunk)) refl)

  -- A committed chunk takes the table further.
  pub commit-Copied :
      (rows : List (ℕ × Row)) (c : Option Checkpoint) (stored : List Row) (n i : ℕ) (r : Row)
      (more : List (ℕ × Row)) (p : Copied h rows c stored)
      → Increasing 0 rows
      → take n p.rest ≡ (i, r) ∷ more
      → Copied h rows
          (some (checkpoint_of c i ((i, r) ∷ more)))
          (stored ++ contents ((i, r) ∷ more))
  commit-Copied rows c stored n i r more p inc e =
      let chunk = (i, r) ∷ more in
      let whole : p.rest ≡ chunk ++ drop n p.rest =
        sym (take-drop n p.rest) ∙ ap (λ zs. zs ++ drop n p.rest) e in
      let split : rows ≡ p.done ++ (chunk ++ drop n p.rest) =
        p.split ∙ ap (λ zs. p.done ++ zs) whole in
      let ranged =
        range_of p.done i r more (drop n p.rest) (subst (λ z. Increasing 0 z) split inc) in
      record {
        done = p.done ++ chunk;
        rest = drop n p.rest;
        split = split ∙ sym (append_assoc p.done chunk (drop n p.rest));
        reached = sym (last_rowid-append 0 p.done chunk);
        counted = omega (arith, p.counted, length-append p.done chunk);
        copied = ap (λ z. z ++ contents chunk) p.copied ∙ sym (contents-append p.done chunk);
        valid =
            validated rows (stored ++ contents chunk) c i chunk
              (subst (λ z. read_sqlite_rowid_range i (last_rowid i more) z ≡ chunk) (sym split)
                ranged)
              (omega (
                arith,
                length-append stored (contents chunk),
                length-contents chunk,
                ap length p.copied,
                length-contents p.done,
                p.counted,
              ));
      }
