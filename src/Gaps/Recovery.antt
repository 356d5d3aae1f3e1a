-- ===== src/Gaps/Recovery.antt =====
-- What it takes to mark a gap recovered, and what the recovered record says.
use market_feed_platform.Prelude.{
  ℕ, ◌≤◌, ◌≡◌, ◌≢◌, refl, inl, inr, arith, Option-cases, true, some, List, [], ◌∷◌,
}
use Prim.Native.String.{String}
use text.Mathlib.TextEquality.{eq_iff}
use market_feed_platform.Gaps.{
  opened, recovered, GapScope, BackfillReceipt, GapRecord, ok, texts_eq, scope_eq, scope_resolved,
  judge, mark_recovered,
}

pub texts_eq→eq : (xs ys : List String) → texts_eq xs ys ≡ true → xs ≡ ys
unfolding texts_eq
texts_eq→eq [] [] h = refl
texts_eq→eq [] (y ∷ ys) h = absurd (cc)
texts_eq→eq (x ∷ xs) [] h = absurd (cc)
texts_eq→eq (x ∷ xs) (y ∷ ys) h = ground (arith, eq_iff x y, texts_eq→eq xs ys)

scope_eq→eq : (s r : GapScope) → scope_eq s r ≡ true → s ≡ r
unfolding scope_eq
scope_eq→eq s r h = ground (
  arith,
  texts_eq→eq s.venues r.venues,
  texts_eq→eq s.symbols r.symbols,
  texts_eq→eq s.tables r.tables,
)

-- The evidence that a receipt gives for a gap that ended at `ended`.
pub record Evidence (r : GapRecord) (receipt : BackfillReceipt) (ended : ℕ) : Type 0 where
  pub closed : r.state ≢ opened
  pub ends : r.ended_at ≡ some ended
  pub from_start : receipt.covered_start ≤ r.started_at
  pub to_end : ended ≤ receipt.covered_end
  pub same_scope : receipt.scope ≡ r.required_scope
  pub resolved : scope_resolved r.required_scope ≡ true
  pub reconciled : receipt.evidence_type ≡ "stored_reconciliation"
  pub has_reconciliation : receipt.actual_reconciliation_id ≢ ""
  pub has_coverage : receipt.authoritative_coverage_id ≢ ""
  pub no_interval : receipt.missing_intervals ≡ 0
  pub no_row : receipt.missing_rows ≡ 0

-- The record of a recovered gap: the gap as it was, with the receipt.
abbrev pub recovered_by : GapRecord → BackfillReceipt → GapRecord
recovered_by r receipt = record r {
  state = recovered;
  reason = "recovered by verified stored reconciliation";
  backfill_receipt_id = some receipt.id;
  recovered_at = some receipt.verified_at;
  reconciliation_result = some receipt.actual_reconciliation_id;
}

ended_of :
    (r r' : GapRecord) (receipt : BackfillReceipt)
    → mark_recovered r receipt ≡ ok r'
    → (ended : ℕ) × (r.ended_at ≡ some ended) × (r.state ≢ opened) × (judge r ended receipt ≡ ok r')
unfolding mark_recovered
ended_of r r' receipt h = elim (Option-cases r.ended_at) [
  | inl e ↦ absurd (ground (arith, e))
  | inr (ended, e) ↦ (ended, e, ground (arith, e), ground (arith, e))
]

-- What `judge` has checked when it answers.
judge_sound :
    (r r' : GapRecord) (receipt : BackfillReceipt) (ended : ℕ)
    → r.ended_at ≡ some ended
    → r.state ≢ opened
    → judge r ended receipt ≡ ok r'
    → Evidence r receipt ended × (r' ≡ recovered_by r receipt)
unfolding judge
judge_sound r r' receipt ended e closed h = ground (
  arith,
  scope_eq→eq receipt.scope r.required_scope,
  eq_iff receipt.evidence_type "stored_reconciliation",
  eq_iff receipt.actual_reconciliation_id "",
  eq_iff receipt.authoritative_coverage_id "",
)

-- A gap is marked recovered only on full evidence: it has ended, the receipt covers its whole
-- interval and exactly its resolved scope, is a stored reconciliation with both ids, and reports
-- nothing missing.  Nothing of the gap but its state, reason and receipt fields changes.
pub mark_recovered_sound :
    (r r' : GapRecord) (receipt : BackfillReceipt)
    → mark_recovered r receipt ≡ ok r'
    → (ended : ℕ) × Evidence r receipt ended × (r' ≡ recovered_by r receipt)
mark_recovered_sound r r' receipt h =
    let (ended, e, closed, j) = ended_of r r' receipt h in
    let (v, same) = judge_sound r r' receipt ended e closed j in (ended, v, same)
