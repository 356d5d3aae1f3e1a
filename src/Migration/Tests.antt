-- ===== src/Migration/Tests.antt =====
-- The migration's theorems at a small source.
use market_feed_platform.Prelude.{
  zero, suc, ℕ, ◌≡◌, refl, arith, ◌*◌, ◌+◌, true, false, some, List, [], ◌∷◌,
}
use market_feed_platform.Migration.{
  Target, empty, TableDigest, Receipt, digest_of, canonical_sqlite_digest,
  canonical_postgres_digest, Digesting, run_migration, verify_migration, select, read_sqlite_chunk,
  put, commit, migrate_table, migrate_tables, validate_checkpoints, sqlite_table_digest,
  sqlite_table_digests, postgres_table_digest, postgres_table_digests, row_count_in, any_rows,
  assert_empty_or_matching, ensure_run, complete_run,
}
use market_feed_platform.Migration.Chunks.{Increasing}
use market_feed_platform.Migration.Runs.{total}
use market_feed_platform.Migration.Again.{Try, attempts, Migrated, run-attempts-Migrated}
use market_feed_platform.Migration.Verify.{verify-run_migration}

-- Five instruments and two trades.
abbrev source : ℕ → List (ℕ × ℕ)
source zero = (1, 10) ∷ (2, 20) ∷ (5, 50) ∷ (6, 60) ∷ (9, 90) ∷ []
source (suc zero) = (3, 30) ∷ (4, 40) ∷ []
source (suc (suc t)) = []

increasing : (t : ℕ) → Increasing 0 (source t)
increasing zero = (omega arith, (omega arith, (omega arith, (omega arith, (omega arith, tt)))))
increasing (suc zero) = (omega arith, (omega arith, tt))
increasing (suc (suc t)) = tt

-- A hash for small tables.
abbrev chunk_hash : List (ℕ × ℕ) → ℕ
chunk_hash [] = 7
chunk_hash ((i, r) ∷ rows) = i + 31 * r + 97 * chunk_hash rows

abbrev content_hash : List ℕ → ℕ
content_hash [] = 5
content_hash (r ∷ rows) = r + 101 * content_hash rows

abbrev fingerprint : List TableDigest → ℕ
fingerprint [] = 3
fingerprint (d ∷ ds) = d.content_hash + d.row_count + 1009 * fingerprint ds

-- Rows that both databases order by their numbers, as they stand.
abbrev by_number : Digesting ℕ
by_number = record {
  sqlite_rows = λ t rows. rows;
  postgres_rows = λ t rows. rows;
  hash_of = content_hash;
  fingerprint_of = fingerprint;
}

-- The first process is killed after two chunks of two rows, the second one does not get the lock.
abbrev tries : List (Try ℕ)
tries =
    record { lock_free = true; budget = 2; chunk_size = 2; later = source }
    ∷ record { lock_free = false; budget = 9; chunk_size = 2; later = source }
    ∷ []

abbrev first_tries : Target ℕ
first_tries = attempts chunk_hash by_number 1 source tries empty

killed_in_between : first_tries.rows 0 ≡ 10 ∷ 20 ∷ 50 ∷ 60 ∷ []
unfolding attempts run_migration canonical_sqlite_digest sqlite_table_digests sqlite_table_digest
    canonical_postgres_digest postgres_table_digests postgres_table_digest row_count_in any_rows
    assert_empty_or_matching ensure_run validate_checkpoints migrate_tables migrate_table
    read_sqlite_chunk select commit put
killed_in_between = refl

run-attempts-Migrated_example : Migrated chunk_hash by_number 1 source increasing (
    run_migration chunk_hash by_number true 7 1 3 source source
      (attempts chunk_hash by_number 1 source tries empty))
unfolding total
run-attempts-Migrated_example =
    run-attempts-Migrated chunk_hash by_number 1 source increasing (λ t. refl) tries 7 3
      (omega arith) (omega arith)

abbrev after : Target ℕ
after = (run_migration chunk_hash by_number true 7 1 2 source source empty).1

abbrev receipt : Receipt
receipt = record {
  run_id = 1;
  source_fingerprint = (digest_of chunk_hash by_number source).fingerprint;
  completed = true;
  source = digest_of chunk_hash by_number source;
  target = canonical_postgres_digest by_number after.rows;
}

verify-run_migration_example :
    (receipt.completed ≡ true)
    × (receipt.target.fingerprint ≡ (digest_of chunk_hash by_number source).fingerprint)
    × (verify_migration chunk_hash by_number 1 source after ≡ some receipt)
unfolding run_migration canonical_sqlite_digest sqlite_table_digests sqlite_table_digest
    canonical_postgres_digest postgres_table_digests postgres_table_digest row_count_in any_rows
    assert_empty_or_matching ensure_run validate_checkpoints migrate_tables migrate_table
    read_sqlite_chunk select commit put complete_run
verify-run_migration_example =
    verify-run_migration chunk_hash by_number 1 source true 7 2 source empty after receipt refl
