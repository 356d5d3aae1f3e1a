-- ===== src/Gaps/Tests.antt =====
-- The life of one gap, and the theorems at it.
use market_feed_platform.Prelude.{ℕ, ◌+◌, ◌≡◌, ◌↔◌, refl, true, none, some, [], ◌∷◌}
use market_feed_platform.Gaps.{
  opened, ended_unrecovered, GapScope, BackfillReceipt, GapRecord, contains, texts_eq, scope_eq,
  scope_resolved, judge, close_gap, mark_recovered,
}
use market_feed_platform.Gaps.Recovery.{Evidence, recovered_by, mark_recovered_sound}
use market_feed_platform.Gaps.Reach.{
  Step, Reach, IsValid, SameGap, Reach-IsValid, Step-ne-recovered,
}
use market_feed_platform.Gaps.Summary.{AllRecovered, summarize, summarize_healthy}

abbrev scope : GapScope
scope = record {
  venues = "UPBIT" ∷ [];
  symbols = "KRW-BTC" ∷ "KRW-ETH" ∷ [];
  tables = "trades" ∷ [];
}

abbrev gap : GapRecord
gap = record {
  id = "collection-stop";
  started_at = 1000;
  ended_at = none;
  state = opened;
  required_scope = scope;
  reason = "collection stopped";
  backfill_receipt_id = none;
  recovered_at = none;
  reconciliation_result = none;
}

abbrev closed_gap : GapRecord
closed_gap = record gap {
  ended_at = some 5_000_000;
  state = ended_unrecovered;
  reason = "gap has an end time but no verified backfill receipt";
}

abbrev receipt : BackfillReceipt
receipt = record {
  id = "receipt-1";
  covered_start = 900;
  covered_end = 5_000_000;
  scope = scope;
  evidence_type = "stored_reconciliation";
  actual_reconciliation_id = "rec-1";
  authoritative_coverage_id = "cov-1";
  missing_intervals = 0;
  missing_rows = 0;
  verified_at = 6_000_000;
}

abbrev healed : GapRecord
healed = recovered_by closed_gap receipt

closing : Step gap closed_gap
closing = Step.close 5_000_000 (unfold close_gap in refl)

recovering : Step closed_gap healed
recovering =
    Step.recover receipt
      (unfold mark_recovered judge scope_resolved scope_eq texts_eq contains in refl)

life : Reach gap healed
life = Reach.next (Reach.next Reach.here closing) recovering

Reach-IsValid_example : IsValid healed × SameGap gap healed
Reach-IsValid_example = Reach-IsValid {r = gap} {t = healed} (refl, refl) life

Step-ne-recovered_example : closed_gap.state ≡ ended_unrecovered
Step-ne-recovered_example = Step-ne-recovered {r = gap} {t = closed_gap} refl closing

mark_recovered_sound_example :
    (ended : ℕ) × Evidence closed_gap receipt ended × (healed ≡ recovered_by closed_gap receipt)
unfolding mark_recovered judge scope_resolved scope_eq texts_eq contains
mark_recovered_sound_example = mark_recovered_sound closed_gap healed receipt refl

-- One of two gaps is still open.
summarize_healthy_example :
    let s = summarize (healed ∷ gap ∷ []) 9_000_000 in
    ((s.healthy ≡ true) ↔ AllRecovered (healed ∷ gap ∷ []))
    × (s.complete ≡ s.healthy)
    × (s.open_count + s.recovered_count ≡ s.count)
summarize_healthy_example = summarize_healthy (healed ∷ gap ∷ []) 9_000_000
