-- ===== src/Gaps/Summary.antt =====
-- src/mdfeed/gaps.py: what is reported of the gaps, one by one and together.
use market_feed_platform.Prelude.{
  ℕ, ◌+◌, ◌-◌, ◌/◌, ◌≤◌, max, ◌≡◌, ◌↔◌, refl, arith, Bool, true, false, Option, none, some, List,
  [], ◌∷◌, map, length, ◌==◌, if◌then◌else◌,
}
use Prim.Native.String.{String}
use market_feed_platform.Gaps.{GapState, recovered, GapScope, GapRecord}

pub record ScopeCounts : Type 0 where
  pub venues : ℕ
  pub symbols : ℕ
  pub tables : ℕ

-- `GapScope.counts`
unfoldable pub counts : GapScope → ScopeCounts
counts s = record { venues = length s.venues; symbols = length s.symbols; tables = length s.tables }

abbrev pub is_recovered : GapState → Bool
is_recovered recovered = true
is_recovered _ = false

-- The fields of `to_public_dict` that are computed; the times in UTC and KST are the same instants
-- written out.
pub record PublicGap : Type 0 where
  pub id : String
  pub state : GapState
  pub elapsed_seconds : ℕ
  pub required_scope_counts : ScopeCounts
  pub covered_scope_counts : ScopeCounts
  pub recovered : Bool
  pub blocking_reason : Option String

abbrev stop_of : Option ℕ → ℕ → ℕ
stop_of none now = now
stop_of (some e) now = e

-- `GapRecord.to_public_dict` at `now`
unfoldable pub to_public_dict : GapRecord → ℕ → PublicGap
unfolding counts
to_public_dict r now = record {
  id = r.id;
  state = r.state;
  elapsed_seconds = (stop_of r.ended_at now - r.started_at) / 1_000_000;
  required_scope_counts = counts r.required_scope;
  covered_scope_counts =
      if is_recovered r.state
      then counts r.required_scope
      else record { venues = 0; symbols = 0; tables = 0 };
  recovered = is_recovered r.state;
  blocking_reason = if is_recovered r.state then none else some r.reason;
}

-- `data_completeness`: "complete" or "incomplete"
pub record Summary : Type 0 where
  pub count : ℕ
  pub open_count : ℕ
  pub recovered_count : ℕ
  pub unrecovered_duration_seconds : ℕ
  pub healthy : Bool
  pub complete : Bool
  pub items : List PublicGap

unfoldable pub open_items : List PublicGap → List PublicGap
open_items [] = []
open_items (g ∷ gs) = if is_recovered g.state then open_items gs else g ∷ open_items gs

-- `max(…, default=0)`
unfoldable pub longest : List PublicGap → ℕ
longest [] = 0
longest (g ∷ gs) = max g.elapsed_seconds (longest gs)

abbrev public_all : List GapRecord → ℕ → List PublicGap
public_all rs now = map (λ r. to_public_dict r now) rs

unfoldable pub summarize : List GapRecord → ℕ → Summary
summarize rs now =
    let items = map (λ r. to_public_dict r now) rs in
    let unhealed = open_items items in
    record {
      count = length items;
      open_count = length unhealed;
      recovered_count = length items - length unhealed;
      unrecovered_duration_seconds = longest unhealed;
      healthy = length unhealed == 0;
      complete = length unhealed == 0;
      items = items;
    }

-- Every record is recovered.
abbrev pub AllRecovered : List GapRecord → Type 0
AllRecovered [] = Unit
AllRecovered (r ∷ rs) = (r.state ≡ recovered) × AllRecovered rs

length-open_items : (gs : List PublicGap) → length (open_items gs) ≤ length gs
unfolding open_items
length-open_items [] = omega arith
length-open_items (g ∷ gs) = ground (arith, length-open_items gs)

open_items-recovered :
    (rs : List GapRecord) (now : ℕ) → AllRecovered rs → length (open_items (public_all rs now)) ≡ 0
unfolding open_items to_public_dict
open_items-recovered [] now h = refl
open_items-recovered (r ∷ rs) now h = ground (arith, h.0, open_items-recovered rs now h.1)

recovered-open_items :
    (rs : List GapRecord) (now : ℕ) → length (open_items (public_all rs now)) ≡ 0 → AllRecovered rs
unfolding open_items to_public_dict
recovered-open_items [] now h = tt
recovered-open_items (r ∷ rs) now h = ground (arith, recovered-open_items rs now)

-- The summary calls the data healthy and complete exactly when every gap is recovered, and its
-- counts of open and of recovered gaps add up to all of them.
pub summarize_healthy :
    (rs : List GapRecord) (now : ℕ)
    → let s = summarize rs now in
      ((s.healthy ≡ true) ↔ AllRecovered rs)
      × (s.complete ≡ s.healthy)
      × (s.open_count + s.recovered_count ≡ s.count)
unfolding summarize
summarize_healthy rs now = (
  (
    λ h. recovered-open_items rs now (ground (arith, h)),
    λ h. ground (arith, open_items-recovered rs now h),
  ),
  refl,
  omega (arith, length-open_items (public_all rs now)),
)
