-- ===== src/Gaps.antt =====
-- src/mdfeed/gaps.py: the life of a gap in the stored data, from its opening to a recovery that a
-- verified receipt covers.
-- Times are UTC instants in microseconds, so `_to_utc` is the identity on them; a naive datetime,
-- on which it raises ValueError, has no value here.  Texts are native strings.  The store of
-- receipts is not part of this file: `mark_recovered_from_store` takes its lookup as an argument.
pub mod Recovery
pub mod Reach
pub mod Summary
mod Tests
use market_feed_platform.Prelude.{
  ℕ, ◌+◌, ◌-◌, ◌/◌, max, Bool, true, false, not, ◌&&◌, ◌||◌, Option, none, some, List, [], ◌∷◌,
  ◌++◌, map, ltb, leb, ◌==◌, if◌then◌else◌, length,
}
use Prim.Native.String.{String}
use text.Mathlib.Text.{◌==◌ as str_eq}
use mathlib.Core.Option

pub data GapState : Type 0 where
  opened : GapState
  ended_unrecovered : GapState
  backfilling : GapState
  recovered : GapState

pub record GapScope : Type 0 where
  pub venues : List String
  pub symbols : List String
  pub tables : List String

pub record BackfillReceipt : Type 0 where
  pub id : String
  pub covered_start : ℕ
  pub covered_end : ℕ
  pub scope : GapScope
  pub evidence_type : String
  pub actual_reconciliation_id : String
  pub authoritative_coverage_id : String
  pub missing_intervals : ℕ
  pub missing_rows : ℕ
  pub verified_at : ℕ

pub record GapRecord : Type 0 where
  pub id : String
  pub started_at : ℕ
  pub ended_at : Option ℕ
  pub state : GapState
  pub required_scope : GapScope
  pub reason : String
  pub backfill_receipt_id : Option String
  pub recovered_at : Option ℕ
  pub reconciliation_result : Option String

-- The places that raise `GapTransitionError`, in the order of the source.
pub data GapTransitionError : Type 0 where
  only_open_closes : GapTransitionError
  only_closed_backfills : GapTransitionError
  open_gap : GapTransitionError
  no_end_time : GapTransitionError
  unresolved_scope : GapTransitionError
  wrong_evidence : GapTransitionError
  missing_ids : GapTransitionError
  interval_not_covered : GapTransitionError
  scope_differs : GapTransitionError
  data_missing : GapTransitionError
  receipt_missing : GapTransitionError

pub data Transition : Type 0 where
  ok : GapRecord → Transition
  raise : GapTransitionError → Transition

abbrev pub unknown_scope : String
unknown_scope = "UNKNOWN_HISTORICAL_UNIVERSE"

-- `x in xs`
unfoldable pub contains : String → List String → Bool
contains x [] = false
contains x (y ∷ ys) = str_eq x y || contains x ys

-- `set(required).issubset(actual)`
unfoldable pub subset : List String → List String → Bool
subset [] ys = true
subset (x ∷ xs) ys = contains x ys && subset xs ys

-- `_covers`
unfoldable pub covers_part : List String → List String → Bool
covers_part actual required = contains "*" actual || subset required actual

-- `GapScope.covers`
unfoldable pub covers : GapScope → GapScope → Bool
covers s r =
    covers_part s.venues r.venues
    && covers_part s.symbols r.symbols
    && covers_part s.tables r.tables

-- `==` of tuples of texts
unfoldable pub texts_eq : List String → List String → Bool
texts_eq [] [] = true
texts_eq (x ∷ xs) (y ∷ ys) = str_eq x y && texts_eq xs ys
texts_eq _ _ = false

-- `==` of the frozen dataclass `GapScope`
unfoldable pub scope_eq : GapScope → GapScope → Bool
scope_eq s r =
    texts_eq s.venues r.venues && texts_eq s.symbols r.symbols && texts_eq s.tables r.tables

abbrev is_empty : List String → Bool
is_empty [] = true
is_empty (x ∷ xs) = false

-- `_scope_resolved`
unfoldable pub scope_resolved : GapScope → Bool
scope_resolved s =
    let parts = s.venues ++ s.symbols ++ s.tables in
    not (is_empty s.venues)
    && not (is_empty s.symbols)
    && not (is_empty s.tables)
    && not (contains unknown_scope parts)
    && not (contains "*" parts)

unfoldable pub close_gap : GapRecord → ℕ → Transition
close_gap r ended = elim r.state [
  | opened ↦ ok (record {
    id = r.id;
    started_at = r.started_at;
    ended_at = some ended;
    state = ended_unrecovered;
    required_scope = r.required_scope;
    reason = "gap has an end time but no verified backfill receipt";
    backfill_receipt_id = none;
    recovered_at = none;
    reconciliation_result = none;
  })
  | _ ↦ raise only_open_closes
]

-- `_replace_state`
abbrev pub replace_state : GapRecord → GapState → String → GapRecord
replace_state r s why = record r { state = s; reason = why }

unfoldable pub begin_backfill : GapRecord → Transition
begin_backfill r = elim r.state [
  | ended_unrecovered ↦ ok (replace_state r backfilling "backfill is in progress")
  | _ ↦ raise only_closed_backfills
]

abbrev pub is_open : GapState → Bool
is_open opened = true
is_open _ = false

-- The tests of `mark_recovered` after its first two, for a gap that ended at `ended`.
unfoldable pub judge : GapRecord → ℕ → BackfillReceipt → Transition
judge r ended receipt =
    if not (scope_resolved r.required_scope) || not (scope_resolved receipt.scope)
    then raise unresolved_scope
    else if not (str_eq receipt.evidence_type "stored_reconciliation")
    then raise wrong_evidence
    else if str_eq receipt.actual_reconciliation_id ""
        || str_eq receipt.authoritative_coverage_id ""
    then raise missing_ids
    else if ltb r.started_at receipt.covered_start || ltb receipt.covered_end ended
    then raise interval_not_covered
    else if not (scope_eq receipt.scope r.required_scope)
    then raise scope_differs
    else if not (receipt.missing_intervals == 0) || not (receipt.missing_rows == 0)
    then raise data_missing
    else ok (record {
      id = r.id;
      started_at = r.started_at;
      ended_at = r.ended_at;
      state = recovered;
      required_scope = r.required_scope;
      reason = "recovered by verified stored reconciliation";
      backfill_receipt_id = some receipt.id;
      recovered_at = some receipt.verified_at;
      reconciliation_result = some receipt.actual_reconciliation_id;
    })

unfoldable pub mark_recovered : GapRecord → BackfillReceipt → Transition
mark_recovered r receipt =
    if is_open r.state
    then raise open_gap
    else elim r.ended_at [ none ↦ raise no_end_time | some ended ↦ judge r ended receipt ]

unfoldable pub mark_recovered_from_store :
    GapRecord → String → (String → Option BackfillReceipt) → Transition
mark_recovered_from_store r receipt_id get_verified = elim (get_verified receipt_id) [
  | none ↦ raise receipt_missing
  | some receipt ↦ mark_recovered r receipt
]
