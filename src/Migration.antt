-- ===== src/Migration.antt =====
-- src/mdfeed/migration/engine.py, with what it uses of sqlite_source.py, postgres_target.py, types.py
-- and storage/catalog.py: the copy of a SQLite database into PostgreSQL, in chunks with checkpoints.
-- A table is its number in CATALOG.  A source table is its rows with their rowids, in their order;
-- the target is there with its schema, its tables as maps from the table's number.  The hashes,
-- the order in which each database yields a table's rows for its digest, and what
-- `_normalize_sqlite_row` and `_normalize_postgres_row` make of these rows are parameters.  A budget says how many chunks a process commits before it is killed.
pub mod Chunks
pub mod Resume
pub mod Runs
pub mod Again
pub mod Verify
mod Tests
use market_feed_platform.Prelude.{
  ℕ, zero, suc, ◌+◌, Bool, true, false, not, ◌&&◌, ◌||◌, Option, none, some, List, [], ◌∷◌, ◌++◌,
  map, take, length, ltb, leb, ◌==◌, if◌then◌else◌,
}

-- `CATALOG`: instruments, trades, book_top, bars_1m, signals, feed_stats, latest, quality_events.
abbrev pub catalog : List ℕ
catalog = 0 ∷ 1 ∷ 2 ∷ 3 ∷ 4 ∷ 5 ∷ 6 ∷ 7 ∷ []

pub record Checkpoint : Type 0 where
  pub first_source_rowid : ℕ
  pub last_source_rowid : ℕ
  pub chunk_row_count : ℕ
  pub row_count : ℕ
  pub chunk_hash : ℕ

pub data RunState : Type 0 where
  running completed : RunState

pub record Run : Type 0 where
  pub source_fingerprint : ℕ
  pub state : RunState

pub record Target (Row : Type 0) : Type 0 where
  pub rows : ℕ → List Row
  pub runs : ℕ → Option Run
  pub checkpoints : ℕ → ℕ → Option Checkpoint

abbrev pub empty : {Row : Type 0} → Target Row
empty = record { rows = λ t. []; runs = λ r. none; checkpoints = λ r t. none }

-- The exceptions.
pub data Failure : Type 0 where
  already_running : Failure
  run_fingerprint_changed : Failure
  target_not_empty : Failure
  checkpoint_source_count : Failure
  checkpoint_tampered : Failure
  checkpoint_target_count : Failure
  exceeds_source : Failure
  source_changed : Failure
  digests_differ : Failure

-- The counts of nulls and the ranges of times are left out.
pub record TableDigest : Type 0 where
  pub name : ℕ
  pub row_count : ℕ
  pub content_hash : ℕ

pub record StorageDigest : Type 0 where
  pub fingerprint : ℕ
  pub tables : List TableDigest

pub record Receipt : Type 0 where
  pub run_id : ℕ
  pub source_fingerprint : ℕ
  pub completed : Bool
  pub source : StorageDigest
  pub target : StorageDigest

abbrev pub contents : {Row : Type 0} → List (ℕ × Row) → List Row
contents rows = map (λ r. r.1) rows

-- `SELECT … WHERE`
unfoldable pub select {ℓ} : {A : Type ℓ} → (A → Bool) → List A → List A
select p [] = []
select p (x ∷ xs) = let rest = select p xs in if p x then x ∷ rest else rest

unfoldable pub read_sqlite_chunk : {Row : Type 0} → ℕ → ℕ → List (ℕ × Row) → List (ℕ × Row)
read_sqlite_chunk after limit rows = take limit (select (λ r. ltb after r.0) rows)

unfoldable pub read_sqlite_rowid_range : {Row : Type 0} → ℕ → ℕ → List (ℕ × Row) → List (ℕ × Row)
read_sqlite_rowid_range lo hi rows = select (λ r. leb lo r.0 && leb r.0 hi) rows

-- `_checkpoint_rowid`, `_checkpoint_count`
abbrev pub checkpoint_rowid : Option Checkpoint → ℕ
checkpoint_rowid none = 0
checkpoint_rowid (some c) = c.last_source_rowid

abbrev pub checkpoint_count : Option Checkpoint → ℕ
checkpoint_count none = 0
checkpoint_count (some c) = c.row_count

-- `chunk[-1][0]`
abbrev pub last_rowid : {Row : Type 0} → ℕ → List (ℕ × Row) → ℕ
last_rowid a [] = a
last_rowid a ((i, r) ∷ rows) = last_rowid i rows

unfoldable pub put {ℓ} : {A : Type ℓ} → ℕ → A → (ℕ → A) → ℕ → A
put k a f n = if n == k then a else f n

-- How the copying of tables ends: with the chunks that may still be committed, killed, or with an
-- exception.
pub data Copy : Type 0 where
  finished : ℕ → Copy
  killed : Copy
  stopped : Failure → Copy

module _ {Row : Type 0} (chunk_content_hash : List (ℕ × Row) → ℕ) where
  -- The transaction for a chunk.
  unfoldable pub commit : ℕ → ℕ → ℕ → List (ℕ × Row) → Target Row → Target Row
  commit run t first chunk tgt =
      let c : Checkpoint = record {
        first_source_rowid = first;
        last_source_rowid = last_rowid first chunk;
        chunk_row_count = length chunk;
        row_count = checkpoint_count (tgt.checkpoints run t) + length chunk;
        chunk_hash = chunk_content_hash chunk;
      } in
      record tgt {
        rows = put t (tgt.rows t ++ contents chunk) tgt.rows;
        checkpoints = put run (put t (some c) (tgt.checkpoints run)) tgt.checkpoints;
      }

  abbrev copy_round :
      ℕ
      → ℕ
      → ℕ
      → (Target Row → Copy × Target Row)
      → ℕ
      → List (ℕ × Row)
      → Target Row
      → Copy × Target Row
  copy_round run t source_count rest budget [] tgt = (finished budget, tgt)
  copy_round run t source_count rest budget ((first, row) ∷ more) tgt =
      let tgt' = commit run t first ((first, row) ∷ more) tgt in
      if ltb source_count (checkpoint_count (tgt'.checkpoints run t))
      then (stopped exceeds_source, tgt')
      else rest tgt'

  -- The loop of `_migrate_table`.
  unfoldable pub migrate_table : ℕ → ℕ → List (ℕ × Row) → ℕ → ℕ → ℕ → Target Row → Copy × Target Row
  migrate_table run t rows source_count chunk_size zero tgt =
      elim (read_sqlite_chunk (checkpoint_rowid (tgt.checkpoints run t)) chunk_size rows) [
        | [] ↦ (finished 0, tgt)
        | r ∷ more ↦ (killed, tgt)
      ]
  migrate_table run t rows source_count chunk_size (suc n) tgt =
      copy_round run t source_count (migrate_table run t rows source_count chunk_size n) (suc n)
        (read_sqlite_chunk (checkpoint_rowid (tgt.checkpoints run t)) chunk_size rows) tgt

  -- The tables one after the other.
  abbrev and_then : (ℕ → Target Row → Copy × Target Row) → Copy × Target Row → Copy × Target Row
  and_then next (finished n, tgt) = next n tgt
  and_then next (killed, tgt) = (killed, tgt)
  and_then next (stopped e, tgt) = (stopped e, tgt)

  unfoldable pub migrate_tables :
      ℕ → (ℕ → List (ℕ × Row)) → (ℕ → ℕ) → ℕ → List ℕ → ℕ → Target Row → Copy × Target Row
  migrate_tables run source counts chunk_size [] budget tgt = (finished budget, tgt)
  migrate_tables run source counts chunk_size (t ∷ ts) budget tgt =
      and_then (migrate_tables run source counts chunk_size ts)
        (migrate_table run t (source t) (counts t) chunk_size budget tgt)

  -- `_checkpoint_hash_from_source`, where `none` is its exception.
  unfoldable pub checkpoint_hash_from_source : List (ℕ × Row) → ℕ → ℕ → ℕ → Option ℕ
  checkpoint_hash_from_source rows first last count =
      let chunk = read_sqlite_rowid_range first last rows in
      if length chunk == count then some (chunk_content_hash chunk) else none

  -- One round of `_validate_checkpoints`.
  unfoldable pub validate_checkpoint : List (ℕ × Row) → List Row → Checkpoint → Option Failure
  validate_checkpoint rows stored c =
      elim (checkpoint_hash_from_source rows c.first_source_rowid c.last_source_rowid
        c.chunk_row_count) [
          | none ↦ some checkpoint_source_count
          | some expected ↦
              if not (c.chunk_hash == expected)
              then some checkpoint_tampered
              else if not (length stored == c.row_count)
              then some checkpoint_target_count
              else none
        ]

  abbrev pub validate_row : List (ℕ × Row) → List Row → Option Checkpoint → Option Failure
  validate_row rows stored none = none
  validate_row rows stored (some c) = validate_checkpoint rows stored c

  abbrev or_else : Option Failure → Option Failure → Option Failure
  or_else none b = b
  or_else (some e) b = some e

  unfoldable pub validate_checkpoints :
      ℕ → (ℕ → List (ℕ × Row)) → Target Row → List ℕ → Option Failure
  validate_checkpoints run source tgt [] = none
  validate_checkpoints run source tgt (t ∷ ts) =
      or_else (validate_row (source t) (tgt.rows t) (tgt.checkpoints run t))
        (validate_checkpoints run source tgt ts)

-- What the digests rest on: the rows that the digest's query yields of a table in SQLite and in
-- PostgreSQL, each in the order of that database's ORDER BY and normalised, and the hashes of such
-- rows and of the digests of all tables.
pub record Digesting (Row : Type 0) : Type 0 where
  pub sqlite_rows : ℕ → List Row → List Row
  pub postgres_rows : ℕ → List Row → List Row
  pub hash_of : List Row → ℕ
  pub fingerprint_of : List TableDigest → ℕ

module _ {Row : Type 0} (by : Digesting Row) where
  unfoldable pub sqlite_table_digest : ℕ → List Row → TableDigest
  sqlite_table_digest t rows = record {
    name = t;
    row_count = length rows;
    content_hash = by.hash_of (by.sqlite_rows t rows);
  }

  unfoldable pub postgres_table_digest : ℕ → List Row → TableDigest
  postgres_table_digest t rows = record {
    name = t;
    row_count = length rows;
    content_hash = by.hash_of (by.postgres_rows t rows);
  }

  unfoldable pub sqlite_table_digests : (ℕ → List Row) → List ℕ → List TableDigest
  sqlite_table_digests rows [] = []
  sqlite_table_digests rows (t ∷ ts) = sqlite_table_digest t (rows t) ∷ sqlite_table_digests rows ts

  unfoldable pub postgres_table_digests : (ℕ → List Row) → List ℕ → List TableDigest
  postgres_table_digests rows [] = []
  postgres_table_digests rows (t ∷ ts) =
      postgres_table_digest t (rows t) ∷ postgres_table_digests rows ts

  unfoldable pub canonical_sqlite_digest : (ℕ → List Row) → StorageDigest
  canonical_sqlite_digest rows =
      let tables = sqlite_table_digests rows catalog in
      record { fingerprint = by.fingerprint_of tables; tables = tables }

  unfoldable pub canonical_postgres_digest : (ℕ → List Row) → StorageDigest
  canonical_postgres_digest rows =
      let tables = postgres_table_digests rows catalog in
      record { fingerprint = by.fingerprint_of tables; tables = tables }

-- `StorageDigest.table`; every table of CATALOG has a digest.
unfoldable pub row_count_in : List TableDigest → ℕ → ℕ
row_count_in [] t = 0
row_count_in (d ∷ ds) t = if d.name == t then d.row_count else row_count_in ds t

unfoldable pub any_rows : {Row : Type 0} → (ℕ → List Row) → List ℕ → Bool
any_rows rows [] = false
any_rows rows (t ∷ ts) = ltb 0 (length (rows t)) || any_rows rows ts

unfoldable pub assert_empty_or_matching : {Row : Type 0} → ℕ → ℕ → Target Row → Option Failure
assert_empty_or_matching run print tgt = elim (tgt.runs run) [
  | some r ↦ if r.source_fingerprint == print then none else some run_fingerprint_changed
  | none ↦ if any_rows tgt.rows catalog then some target_not_empty else none
]

-- `ON CONFLICT (run_id) DO UPDATE` touches nothing but the time.
unfoldable pub ensure_run : {Row : Type 0} → ℕ → ℕ → Target Row → Target Row
ensure_run run print tgt = elim (tgt.runs run) [
  | some r ↦ tgt
  | none ↦ record tgt {
    runs = put run (some (record { source_fingerprint = print; state = running })) tgt.runs;
  }
]

abbrev completed_run : Option Run → Option Run
completed_run none = none
completed_run (some r) = some (record r { state = completed })

unfoldable pub complete_run : {Row : Type 0} → ℕ → Target Row → Target Row
complete_run run tgt = record tgt { runs = put run (completed_run (tgt.runs run)) tgt.runs }

-- What the process comes to.
pub data Outcome : Type 0 where
  migrated : Receipt → Outcome
  interrupted : Outcome
  raised : Failure → Outcome

module _ {Row : Type 0} (chunk_content_hash : List (ℕ × Row) → ℕ) (by : Digesting Row) where
  abbrev pub digest_of : (ℕ → List (ℕ × Row)) → StorageDigest
  digest_of source = canonical_sqlite_digest by (λ t. contents (source t))

  -- The two checks at the end; `later` is the source as it is then.
  abbrev pub conclude :
      ℕ → StorageDigest → (ℕ → List (ℕ × Row)) → Copy × Target Row → Outcome × Target Row
  conclude run source_digest later (killed, tgt) = (interrupted, tgt)
  conclude run source_digest later (stopped e, tgt) = (raised e, tgt)
  conclude run source_digest later (finished n, tgt) =
      let target_digest = canonical_postgres_digest by tgt.rows in
      if not ((digest_of later).fingerprint == source_digest.fingerprint)
      then (raised source_changed, tgt)
      else if not (source_digest.fingerprint == target_digest.fingerprint)
      then (raised digests_differ, tgt)
      else (
        migrated (record {
          run_id = run;
          source_fingerprint = source_digest.fingerprint;
          completed = true;
          source = source_digest;
          target = target_digest;
        }),
        complete_run run tgt,
      )

  unfoldable pub run_migration :
      Bool
      → ℕ
      → ℕ
      → ℕ
      → (ℕ → List (ℕ × Row))
      → (ℕ → List (ℕ × Row))
      → Target Row
      → Outcome × Target Row
  run_migration lock_free budget run chunk_size source later tgt =
      let d = digest_of source in
      if not lock_free
      then (raised already_running, tgt)
      else elim (assert_empty_or_matching run d.fingerprint tgt) [
        | some e ↦ (raised e, tgt)
        | none ↦ elim (validate_checkpoints chunk_content_hash run source tgt catalog) [
          | some e ↦ (raised e, tgt)
          | none ↦ conclude run d later (
              migrate_tables chunk_content_hash run source (row_count_in d.tables) chunk_size
                catalog budget (ensure_run run d.fingerprint tgt))
        ]
      ]

  abbrev is_completed : RunState → Bool
  is_completed completed = true
  is_completed running = false

  abbrev status_of : ℕ → StorageDigest → StorageDigest → Option Run → Option Receipt
  status_of run d target none = some (record {
    run_id = run;
    source_fingerprint = d.fingerprint;
    completed = false;
    source = d;
    target = target;
  })
  status_of run d target (some r) =
      if not (r.source_fingerprint == d.fingerprint)
      then none
      else some (record {
        run_id = run;
        source_fingerprint = d.fingerprint;
        completed = is_completed r.state && d.fingerprint == target.fingerprint;
        source = d;
        target = target;
      })

  -- `none` is the exception of `_run_state`.
  unfoldable pub migration_status : ℕ → (ℕ → List (ℕ × Row)) → Target Row → Option Receipt
  migration_status run source tgt =
      status_of run (digest_of source) (canonical_postgres_digest by tgt.rows) (tgt.runs run)

  unfoldable pub verify_migration : ℕ → (ℕ → List (ℕ × Row)) → Target Row → Option Receipt
  verify_migration run source tgt = elim (migration_status run source tgt) [
    | none ↦ none
    | some r ↦ if r.completed then some r else none
  ]
