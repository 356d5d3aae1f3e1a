-- ===== src/Gaps/Reach.antt =====
-- The states that a gap record can come to from an open one.
use market_feed_platform.Prelude.{ℕ, ◌≡◌, ◌≢◌, refl, sym, ◌∙◌, arith, true, none, some}
use mathlib.Core.Path.{subst}
use market_feed_platform.Gaps.{
  GapState, opened, ended_unrecovered, backfilling, recovered, BackfillReceipt, GapRecord, ok,
  scope_resolved, close_gap, begin_backfill, mark_recovered,
}
use market_feed_platform.Gaps.Recovery.{recovered_by, mark_recovered_sound}

-- One transition that does not raise.
pub data Step (r r' : GapRecord) : Type 0 where
  close : (ended : ℕ) → close_gap r ended ≡ ok r' → Step r r'
  backfill : begin_backfill r ≡ ok r' → Step r r'
  recover : (receipt : BackfillReceipt) → mark_recovered r receipt ≡ ok r' → Step r r'

pub data Reach (r : GapRecord) : GapRecord → Type 0 where
  here : Reach r r
  next : {s t : GapRecord} → Reach r s → Step s t → Reach r t

-- What holds of a record in each state: an open gap has no end, a closed one has; only a recovered
-- gap has a receipt, and then its scope is resolved.
abbrev pub Fits : GapState → GapRecord → Type 0
Fits opened r = (r.ended_at ≡ none) × (r.backfill_receipt_id ≡ none)
Fits ended_unrecovered r = (r.ended_at ≢ none) × (r.backfill_receipt_id ≡ none)
Fits backfilling r = (r.ended_at ≢ none) × (r.backfill_receipt_id ≡ none)
Fits recovered r =
    (r.ended_at ≢ none)
    × (r.backfill_receipt_id ≢ none)
    × (r.recovered_at ≢ none)
    × (r.reconciliation_result ≢ none)
    × (scope_resolved r.required_scope ≡ true)

abbrev pub IsValid : GapRecord → Type 0
IsValid r = Fits r.state r

-- The fields that no transition changes.
pub record SameGap (r r' : GapRecord) : Type 0 where
  pub id : r'.id ≡ r.id
  pub started_at : r'.started_at ≡ r.started_at
  pub required_scope : r'.required_scope ≡ r.required_scope

close_gap-IsValid :
    (r r' : GapRecord) (ended : ℕ)
    → close_gap r ended ≡ ok r'
    → IsValid r
    → IsValid r' × SameGap r r' × (r.state ≡ opened) × (r'.ended_at ≡ some ended)
unfolding close_gap
close_gap-IsValid r r' ended e v = ground arith

begin_backfill-IsValid :
    (r r' : GapRecord) → begin_backfill r ≡ ok r' → IsValid r → IsValid r' × SameGap r r'
unfolding begin_backfill
begin_backfill-IsValid r r' e v = ground arith

mark_recovered-IsValid :
    (r r' : GapRecord) (receipt : BackfillReceipt)
    → mark_recovered r receipt ≡ ok r'
    → IsValid r' × SameGap r r'
mark_recovered-IsValid r r' receipt e =
    let (ended, ev, same) = mark_recovered_sound r r' receipt e in
    let valid : IsValid (recovered_by r receipt) = ground (arith, ev.ends, ev.resolved) in
    let kept : SameGap r (recovered_by r receipt) = record {
      id = refl;
      started_at = refl;
      required_scope = refl;
    } in
    (subst IsValid (sym same) valid, subst (SameGap r) (sym same) kept)

Step-IsValid : {r r' : GapRecord} → Step r r' → IsValid r → IsValid r' × SameGap r r'
Step-IsValid {r} {r'} (close ended e) v = let t = close_gap-IsValid r r' ended e v in (t.0, t.1)
Step-IsValid {r} {r'} (backfill e) v = begin_backfill-IsValid r r' e v
Step-IsValid {r} {r'} (recover receipt e) v = mark_recovered-IsValid r r' receipt e

-- Whatever transitions a gap takes from a valid record, the record stays valid, and keeps its id,
-- its start and its required scope.
pub Reach-IsValid : {r t : GapRecord} → IsValid r → Reach r t → IsValid t × SameGap r t
Reach-IsValid v here = (v, record { id = refl; started_at = refl; required_scope = refl })
Reach-IsValid v (next path st) =
    let (u, same) = Reach-IsValid v path in
    let (w, same') = Step-IsValid st u in
    (
      w,
      record {
        id = same'.id ∙ same.id;
        started_at = same'.started_at ∙ same.started_at;
        required_scope = same'.required_scope ∙ same.required_scope;
      },
    )

-- An open gap is not recovered by a step: it has to be closed first.
pub Step-ne-recovered :
    {r t : GapRecord} → r.state ≡ opened → Step r t → t.state ≡ ended_unrecovered
Step-ne-recovered {r} {t} o (close ended e) = unfold close_gap in ground (arith, o, e)
Step-ne-recovered {r} {t} o (backfill e) = unfold begin_backfill in ground (arith, o, e)
Step-ne-recovered {r} {t} o (recover receipt e) =
    let (ended, ev, same) = mark_recovered_sound r t receipt e in absurd (ev.closed o)
