-- ===== src/Migration/Verify.antt =====
-- src/mdfeed/migration/engine.py: what `run_migration` reports is what `verify_migration` finds.
use market_feed_platform.Prelude.{
  ℕ, ◌≡◌, refl, sym, arith, inl, inr, Bool-cases, Option-cases, Bool, true, false, Option, none,
  some, List, [], zero, suc, ◌==◌, ==_refl,
}
use mathlib.Core.Path.{subst}
use market_feed_platform.Migration.{
  checkpoint_count, ltb, ◌∷◌, catalog, Target, put, Copy, finished, killed, stopped, migrate_table,
  and_then, migrate_tables, copy_round, commit, validate_checkpoints, canonical_postgres_digest,
  Digesting, StorageDigest, row_count_in, assert_empty_or_matching, ensure_run, complete_run, Run,
  running, Outcome, migrated, interrupted, raised, Receipt, digest_of, conclude, run_migration,
  migration_status, verify_migration,
}

module _ {Row : Type 0} (h : List (ℕ × Row) → ℕ) where
  -- The copying does not touch the table of runs.
  abbrev RunsKept : (ℕ → Option Run) → Copy × Target Row → Type 0
  RunsKept runs (c, tgt) = tgt.runs ≡ runs

  commit_keeps :
      (run t i : ℕ) (chunk : List (ℕ × Row)) (tgt : Target Row)
      → (commit h run t i chunk tgt).runs ≡ tgt.runs
  unfolding commit
  commit_keeps run t i chunk tgt = refl

  round_keeps :
      (run t n budget : ℕ) (chunk : List (ℕ × Row)) (rest : Target Row → Copy × Target Row)
      (tgt : Target Row)
      → ((mid : Target Row) → RunsKept mid.runs (rest mid))
      → RunsKept tgt.runs (copy_round h run t n rest budget chunk tgt)
  round_keeps run t n budget [] rest tgt go = refl
  round_keeps run t n budget ((i, r) ∷ more) rest tgt go =
      let mid = commit h run t i ((i, r) ∷ more) tgt in
      let same = commit_keeps run t i ((i, r) ∷ more) tgt in
      elim (Bool-cases (ltb n (checkpoint_count (mid.checkpoints run t)))) [
        | inl over ↦ rw over same
        | inr fits ↦ rw fits (subst (λ z. RunsKept z (rest mid)) same (go mid))
      ]

  last_keeps :
      (chunk : List (ℕ × Row)) (tgt : Target Row)
      → RunsKept tgt.runs (elim chunk [ [] ↦ (finished 0, tgt) | r ∷ more ↦ (killed, tgt) ])
  last_keeps [] tgt = refl
  last_keeps (x ∷ chunk) tgt = refl

  table_keeps :
      (budget run t : ℕ) (rows : List (ℕ × Row)) (n size : ℕ) (tgt : Target Row)
      → RunsKept tgt.runs (migrate_table h run t rows n size budget tgt)
  unfolding migrate_table
  table_keeps zero run t rows n size tgt = last_keeps _ tgt
  table_keeps (suc b) run t rows n size tgt =
      round_keeps run t n (suc b) _ (migrate_table h run t rows n size b) tgt
        (λ mid. table_keeps b run t rows n size mid)

  next_keeps :
      (runs : ℕ → Option Run) (next : ℕ → Target Row → Copy × Target Row) (x : Copy × Target Row)
      → ((b : ℕ) (mid : Target Row) → RunsKept mid.runs (next b mid))
      → RunsKept runs x
      → RunsKept runs (and_then h next x)
  next_keeps runs next (finished b, mid) go w = subst (λ z. RunsKept z (next b mid)) w (go b mid)
  next_keeps runs next (killed, mid) go w = w
  next_keeps runs next (stopped e, mid) go w = w

  tables_keep :
      (run : ℕ) (source : ℕ → List (ℕ × Row)) (counts : ℕ → ℕ) (size : ℕ) (ts : List ℕ) (budget : ℕ)
      (tgt : Target Row)
      → RunsKept tgt.runs (migrate_tables h run source counts size ts budget tgt)
  unfolding migrate_tables
  tables_keep run source counts size [] budget tgt = refl
  tables_keep run source counts size (t ∷ ts) budget tgt =
      next_keeps tgt.runs (migrate_tables h run source counts size ts)
        (migrate_table h run t (source t) (counts t) size budget tgt)
        (λ b mid. tables_keep run source counts size ts b mid)
        (table_keeps budget run t (source t) (counts t) size tgt)

module _ {Row : Type 0} (h : List (ℕ × Row) → ℕ) (by : Digesting Row) (run : ℕ)
    (source : ℕ → List (ℕ × Row)) where
  abbrev digest : StorageDigest
  digest = digest_of h by source

  -- The run is written down with this source's fingerprint.
  abbrev Registered : (ℕ → Option Run) → Type 0
  Registered runs = (r : Run) × (runs run ≡ some r) × (r.source_fingerprint ≡ digest.fingerprint)

  known-Registered :
      (tgt : Target Row) (r : Run)
      → tgt.runs run ≡ some r
      → assert_empty_or_matching run digest.fingerprint tgt ≡ none
      → r.source_fingerprint ≡ digest.fingerprint
  unfolding assert_empty_or_matching
  known-Registered tgt r e a = ground (arith, e, a)

  ensure-Registered :
      (tgt : Target Row)
      → assert_empty_or_matching run digest.fingerprint tgt ≡ none
      → Registered (ensure_run run digest.fingerprint tgt).runs
  unfolding ensure_run put
  ensure-Registered tgt a = elim (Option-cases (tgt.runs run)) [
    | inl new ↦
        rw (new, ensure_run)
          (
            record { source_fingerprint = digest.fingerprint; state = running },
            rw (==_refl run) refl,
            refl,
          )
    | inr known ↦
        rw (known.1, ensure_run) (known.0, known.1, known-Registered tgt known.0 known.1 a)
  ]

  -- The run that a receipt was given for.
  abbrev Verified : Outcome × Target Row → Type 0
  Verified (migrated r, tgt) =
      (r.completed ≡ true)
      × (r.target.fingerprint ≡ digest.fingerprint)
      × (verify_migration h by run source tgt ≡ some r)
  Verified (interrupted, tgt) = Unit
  Verified (raised e, tgt) = Unit

  abbrev receipt : Target Row → Receipt
  receipt tgt = record {
    run_id = run;
    source_fingerprint = digest.fingerprint;
    completed = true;
    source = digest;
    target = canonical_postgres_digest by tgt.rows;
  }

  complete_status :
      (tgt : Target Row)
      → Registered tgt.runs
      → (digest.fingerprint == (canonical_postgres_digest by tgt.rows).fingerprint) ≡ true
      → migration_status h by run source (complete_run run tgt) ≡ some (receipt tgt)
  unfolding migration_status complete_run put
  complete_status tgt e agree =
      rw (==_refl run, e.1) (rw (e.2, ==_refl digest.fingerprint, agree) refl)

  conclude-Verified :
      (later : ℕ → List (ℕ × Row)) (x : Copy × Target Row)
      → Registered x.1.runs
      → Verified (conclude h by run digest later x)
  conclude-Verified later (killed, tgt) e = tt
  conclude-Verified later (stopped f, tgt) e = tt
  conclude-Verified later (finished n, tgt) e =
      let target = canonical_postgres_digest by tgt.rows in
      elim (Bool-cases ((digest_of h by later).fingerprint == digest.fingerprint)) [
        | inr changed ↦ rw changed tt
        | inl same ↦ elim (Bool-cases (digest.fingerprint == target.fingerprint)) [
          | inr differ ↦ rw (same, differ) tt
          | inl agree ↦
              rw (same, agree)
                (
                  refl,
                  ground (arith, agree),
                  unfold verify_migration in
                      rw (complete_status tgt e agree, verify_migration) refl,
                )
        ]
      ]

  kept-Registered :
      (runs : ℕ → Option Run) (x : Copy × Target Row)
      → RunsKept h runs x
      → Registered runs
      → Registered x.1.runs
  kept-Registered runs (c, tgt) w e = subst Registered (sym w) e

  run_migration-Verified :
      (lock_free : Bool) (budget chunk_size : ℕ) (later : ℕ → List (ℕ × Row)) (tgt : Target Row)
      → Verified (run_migration h by lock_free budget run chunk_size source later tgt)
  unfolding run_migration
  run_migration-Verified false budget chunk_size later tgt = tt
  run_migration-Verified true budget chunk_size later tgt =
      let counts = row_count_in digest.tables in
      elim (Option-cases (assert_empty_or_matching run digest.fingerprint tgt)) [
        | inr refused ↦ rw (refused.1, run_migration) tt
        | inl fits ↦ elim (Option-cases (validate_checkpoints h run source tgt catalog)) [
          | inr bad ↦ rw (fits, bad.1, run_migration) tt
          | inl good ↦
              let mid = ensure_run run digest.fingerprint tgt in
              let end = migrate_tables h run source counts chunk_size catalog budget mid in
              rw (fits, good, run_migration)
                (conclude-Verified later end (
                  kept-Registered mid.runs end
                    (tables_keep h run source counts chunk_size catalog budget mid)
                    (ensure-Registered tgt fits)))
        ]
      ]

  -- A migration that reports completion says so of equal digests: the target's fingerprint is that
  -- of the source, and `verify_migration` of the same run, source and target returns the same
  -- receipt.
  pub verify-run_migration :
      (lock_free : Bool) (budget chunk_size : ℕ) (later : ℕ → List (ℕ × Row))
      (tgt after : Target Row) (r : Receipt)
      → run_migration h by lock_free budget run chunk_size source later tgt ≡ (migrated r, after)
      → (r.completed ≡ true)
        × (r.target.fingerprint ≡ digest.fingerprint)
        × (verify_migration h by run source after ≡ some r)
  verify-run_migration lock_free budget chunk_size later tgt after r e =
      subst Verified e (run_migration-Verified lock_free budget chunk_size later tgt)
