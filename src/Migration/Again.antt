-- ===== src/Migration/Again.antt =====
-- src/mdfeed/migration/engine.py: `run_migration`, run again after it was killed.
use market_feed_platform.Prelude.{
  ℕ, ◌≤◌, ◌<◌, ◌≡◌, refl, sym, ap, arith, inl, inr, Bool-cases, Option-cases, Bool, true, false,
  none, some, List, [], ◌∷◌, length, ◌==◌, ==_refl,
}
use mathlib.Core.Path.{subst}
use market_feed_platform.Migration.{
  completed, catalog, Target, empty, put, contents, Copy, finished, killed, stopped,
  sqlite_table_digest, sqlite_table_digests, canonical_sqlite_digest, postgres_table_digest,
  postgres_table_digests, canonical_postgres_digest, Digesting, row_count_in, any_rows,
  assert_empty_or_matching, ensure_run, complete_run, Outcome, migrated, interrupted, raised, Run,
  running, digest_of, conclude, run_migration,
}
use market_feed_platform.Migration.Chunks.{Increasing, length-contents}
use market_feed_platform.Migration.Resume.{Kept}
use market_feed_platform.Migration.Runs.{
  Each, Each-all, total, Through, migrate_tables-Through, validated,
}

module _ {Row : Type 0} (h : List (ℕ × Row) → ℕ) (by : Digesting Row) (run : ℕ)
    (source : ℕ → List (ℕ × Row)) (increasing : (t : ℕ) → Increasing 0 (source t)) where
  abbrev print : ℕ
  print = (digest_of h by source).fingerprint

  -- The run is written down with the source's fingerprint.
  abbrev Enrolled : Target Row → Type 0
  Enrolled tgt = (r : Run) × (tgt.runs run ≡ some r) × (r.source_fingerprint ≡ print)

  -- A target at which the run can go on.
  abbrev Ready : Target Row → Type 0
  Ready tgt = Kept h run source increasing tgt × (assert_empty_or_matching run print tgt ≡ none)

  Enrolled-matching :
      (tgt : Target Row) → Enrolled tgt → assert_empty_or_matching run print tgt ≡ none
  unfolding assert_empty_or_matching
  Enrolled-matching tgt e = rw (e.1, assert_empty_or_matching) (ground (arith, e.2))

  matching-fingerprint :
      (tgt : Target Row) (r : Run)
      → tgt.runs run ≡ some r
      → assert_empty_or_matching run print tgt ≡ none
      → r.source_fingerprint ≡ print
  unfolding assert_empty_or_matching
  matching-fingerprint tgt r e a = ground (arith, e, a)

  ensure-Enrolled :
      (tgt : Target Row)
      → assert_empty_or_matching run print tgt ≡ none
      → Enrolled (ensure_run run print tgt)
  unfolding ensure_run put
  ensure-Enrolled tgt a = elim (Option-cases (tgt.runs run)) [
    | inl new ↦
        rw (new, ensure_run)
          (record { source_fingerprint = print; state = running }, rw (==_refl run) refl, refl)
    | inr known ↦
        rw (known.1, ensure_run) (known.0, known.1, matching-fingerprint tgt known.0 known.1 a)
  ]

  ensure-Kept :
      (tgt : Target Row)
      → Kept h run source increasing tgt
      → Kept h run source increasing (ensure_run run print tgt)
  unfolding ensure_run
  ensure-Kept tgt k t = elim (Option-cases (tgt.runs run)) [
    | inl new ↦ rw (new, ensure_run) (k t)
    | inr known ↦ rw (known.1, ensure_run) (k t)
  ]

  complete-Enrolled : (tgt : Target Row) → Enrolled tgt → Enrolled (complete_run run tgt)
  unfolding complete_run put
  complete-Enrolled tgt e = (record e.0 { state = completed }, rw (==_refl run, e.1) refl, e.2)

  counts-Each :
      Each (λ t. row_count_in (digest_of h by source).tables t ≡ length (source t)) catalog
  unfolding row_count_in canonical_sqlite_digest sqlite_table_digests sqlite_table_digest
  counts-Each =
      Each-all (λ t. length (contents (source t)) ≡ length (source t))
        (λ t. length-contents (source t)) catalog

  -- The end of a run leaves the target ready.
  conclude-Ready :
      (later : ℕ → List (ℕ × Row)) (n budget : ℕ) (tgt : Target Row) (x : Copy × Target Row)
      → Enrolled tgt
      → Through h run source increasing catalog n budget tgt x
      → Ready (conclude h by run (digest_of h by source) later x).1
  conclude-Ready later n budget tgt (stopped e, tgt') en w = absurd w
  conclude-Ready later n budget tgt (killed, tgt') en w = (
    w.0,
    Enrolled-matching tgt'
        (subst (λ z. (r : Run) × (z run ≡ some r) × (r.source_fingerprint ≡ print)) (sym w.1) en),
  )
  conclude-Ready later n budget tgt (finished b, tgt') en w =
      let en' : Enrolled tgt' =
        subst (λ z. (r : Run) × (z run ≡ some r) × (r.source_fingerprint ≡ print)) (sym w.1) en in
      let ready : Ready tgt' = (w.0, Enrolled-matching tgt' en') in
      elim (Bool-cases ((digest_of h by later).fingerprint == print)) [
        | inr changed ↦ rw changed ready
        | inl same ↦
            elim (Bool-cases (print == (canonical_postgres_digest by tgt'.rows).fingerprint)) [
              | inr differ ↦ rw (same, differ) ready
              | inl agree ↦
                  rw (same, agree)
                    (
                      unfold complete_run in w.0,
                      Enrolled-matching (complete_run run tgt') (complete-Enrolled tgt' en'),
                    )
            ]
      ]

  run-Ready :
      (lock_free : Bool) (budget n : ℕ) (later : ℕ → List (ℕ × Row)) (tgt : Target Row)
      → Ready tgt
      → Ready (run_migration h by lock_free budget run n source later tgt).1
  unfolding run_migration
  run-Ready false budget n later tgt r = r
  run-Ready true budget n later tgt r =
      let tgt' = ensure_run run print tgt in
      rw (r.1, validated h run source increasing tgt catalog r.0, run_migration)
        (conclude-Ready later n budget tgt' _ (ensure-Enrolled tgt r.1) (
          migrate_tables-Through h run source increasing
            (row_count_in (digest_of h by source).tables) catalog n budget tgt' counts-Each
            (ensure-Kept tgt r.0)))

  -- The digests agree when every table is copied.
  same_digests :
      ((t : ℕ) → by.postgres_rows t (contents (source t)) ≡ by.sqlite_rows t (contents (source t)))
      → (rows : ℕ → List Row) (ts : List ℕ) → Each (λ t. rows t ≡ contents (source t)) ts
      → sqlite_table_digests by (λ t. contents (source t)) ts ≡ postgres_table_digests by rows ts
  unfolding sqlite_table_digests postgres_table_digests sqlite_table_digest postgres_table_digest
  same_digests alike rows [] e = refl
  same_digests alike rows (t ∷ ts) e = rw (e.0, alike t, same_digests alike rows ts e.1) refl

  same_print :
      ((t : ℕ) → by.postgres_rows t (contents (source t)) ≡ by.sqlite_rows t (contents (source t)))
      → (rows : ℕ → List Row) → Each (λ t. rows t ≡ contents (source t)) catalog
      → print ≡ (canonical_postgres_digest by rows).fingerprint
  unfolding canonical_sqlite_digest canonical_postgres_digest
  same_print alike rows e = ap by.fingerprint_of (same_digests alike rows catalog e)

  -- The run is completed, and the tables of the target are those of the source.
  abbrev pub Migrated : Outcome × Target Row → Type 0
  Migrated (migrated r, tgt) = Each (λ t. tgt.rows t ≡ contents (source t)) catalog
  Migrated (interrupted, tgt) = ⊥
  Migrated (raised e, tgt) = ⊥

  conclude-Migrated :
      ((t : ℕ) → by.postgres_rows t (contents (source t)) ≡ by.sqlite_rows t (contents (source t)))
      → (n budget : ℕ) (tgt : Target Row) (x : Copy × Target Row) → 0 < n
      → total source catalog ≤ budget
      → Through h run source increasing catalog n budget tgt x
      → Migrated (conclude h by run (digest_of h by source) source x)
  conclude-Migrated alike n budget tgt (stopped e, tgt') lt le w = absurd w
  conclude-Migrated alike n budget tgt (killed, tgt') lt le w = absurd (omega (arith, le, w.2))
  conclude-Migrated alike n budget tgt (finished b, tgt') lt le w =
      let full = w.3 lt in
      let agree : (print == (canonical_postgres_digest by tgt'.rows).fingerprint) ≡ true =
        ground (arith, same_print alike tgt'.rows full) in
      rw (==_refl print, agree) (unfold complete_run in full)

  run-Migrated :
      ((t : ℕ) → by.postgres_rows t (contents (source t)) ≡ by.sqlite_rows t (contents (source t)))
      → (budget n : ℕ) (tgt : Target Row) → 0 < n
      → total source catalog ≤ budget
      → Ready tgt
      → Migrated (run_migration h by true budget run n source source tgt)
  unfolding run_migration
  run-Migrated alike budget n tgt lt le r =
      let tgt' = ensure_run run print tgt in
      rw (r.1, validated h run source increasing tgt catalog r.0, run_migration)
        (conclude-Migrated alike n budget tgt' _ lt le (
          migrate_tables-Through h run source increasing
            (row_count_in (digest_of h by source).tables) catalog n budget tgt' counts-Each
            (ensure-Kept tgt r.0)))

  empty-Ready : Ready empty
  unfolding assert_empty_or_matching any_rows
  empty-Ready = (
    λ t. record {
      done = [];
      rest = source t;
      split = refl;
      reached = refl;
      counted = refl;
      copied = refl;
      valid = refl;
    },
    refl,
  )

-- A process that tried: whether it got the lock, how many chunks it committed before it was killed,
-- if it was, the size of its chunks, and the source when it was done.
pub record Try (Row : Type 0) : Type 0 where
  pub lock_free : Bool
  pub budget : ℕ
  pub chunk_size : ℕ
  pub later : ℕ → List (ℕ × Row)

module _ {Row : Type 0} (h : List (ℕ × Row) → ℕ) (by : Digesting Row) (run : ℕ)
    (source : ℕ → List (ℕ × Row)) where
  unfoldable pub attempts : List (Try Row) → Target Row → Target Row
  attempts [] tgt = tgt
  attempts (a ∷ tries) tgt =
      attempts tries (run_migration h by a.lock_free a.budget run a.chunk_size source a.later tgt).1

  attempts-Ready :
      (increasing : (t : ℕ) → Increasing 0 (source t)) (tries : List (Try Row)) (tgt : Target Row)
      → Ready h by run source increasing tgt
      → Ready h by run source increasing (attempts tries tgt)
  unfolding attempts
  attempts-Ready increasing [] tgt r = r
  attempts-Ready increasing (a ∷ tries) tgt r =
      attempts-Ready increasing tries _
        (run-Ready h by run source increasing a.lock_free a.budget a.chunk_size a.later tgt r)

  -- Let the rowids of each source table increase from one on, and let both databases yield the
  -- source's rows for the digest in the same order and normalised alike.  However many processes have tried
  -- one run of the migration of this source on an empty target before, each stopped by the lock,
  -- killed after any chunk or ended, a process that gets the lock, reads chunks of at least one row,
  -- finds the source unchanged at its end and may commit as many chunks as the source has rows
  -- completes the migration, and then each table has exactly the rows of the source, in their
  -- order.
  pub run-attempts-Migrated :
      (increasing : (t : ℕ) → Increasing 0 (source t))
      (alike : (t : ℕ)
        → by.postgres_rows t (contents (source t)) ≡ by.sqlite_rows t (contents (source t)))
      (tries : List (Try Row)) (budget chunk_size : ℕ)
      → 0 < chunk_size
      → total source catalog ≤ budget
      → Migrated h by run source increasing
          (run_migration h by true budget run chunk_size source source (attempts tries empty))
  run-attempts-Migrated increasing alike tries budget chunk_size lt le =
      run-Migrated h by run source increasing alike budget chunk_size (attempts tries empty) lt le
        (attempts-Ready increasing tries empty (empty-Ready h by run source increasing))
