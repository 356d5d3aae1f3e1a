-- ===== src/Orders/Reconcile.antt =====
-- src/mdfeed/ledger.py: `apply_totals`, the reconciliation of the broker's day totals.
use market_feed_platform.Prelude.{
  ℕ, ◌+◌, ◌-◌, Bool, false, not, ◌&&◌, ◌||◌, Option, none, some, List, [], ◌∷◌, ◌++◌, map, ltb, leb,
  ◌==◌, if◌then◌else◌,
}
use market_feed_platform.Prelude.Int.{ℤ, pos, ◌+ℤ◌, ◌-ℤ◌, ltb_ℤ, eqb_ℤ, pos_part, neg_part}
use market_feed_platform.Orders.{
  accepted, partial, filled, not_sent, is_live, is_unknown, is_fillable, Key, Order, day_totals,
  Fill, Totals, NoticeFill, unknown_resolved_sent, unknown_resolved_not_sent, filled_by, Event,
  Ledger, key_eq, set_state, update, events_for, sum_of, sum_ℤ_of,
}

abbrev pub unknown_grace : ℕ
unknown_grace = 30_000_000

abbrev pub notice_grace : ℕ
notice_grace = 60_000_000

unfoldable pub baseline_of : Key → List (Key × Totals) → Option Totals
baseline_of k [] = none
baseline_of k ((j, t) ∷ rows) = if key_eq k j then some t else baseline_of k rows

-- `INSERT OR IGNORE`
unfoldable pub set_totals_baseline : Key → Totals → Ledger → Ledger
set_totals_baseline k t l = elim (baseline_of k l.baselines) [
  | some u ↦ l
  | none ↦ record l { baselines = (k, t) ∷ l.baselines }
]

-- The rows `live`, `unknown` and `open_live` of a key.
unfoldable pub live_in : Key → Order → Bool
live_in k o = key_eq k o.key && is_live o.state

unfoldable pub unknown_in : Key → Order → Bool
unknown_in k o = key_eq k o.key && is_unknown o.state

unfoldable pub open_in : Key → Order → Bool
open_in k o = key_eq k o.key && is_fillable o.state && ltb o.filled_qty o.qty

pub data Break : Type 0 where
  no_baseline : Break
  unexplained_broker_orders : ℕ → Break
  ledger_orders_missing_at_broker : ℕ → Break
  broker_fills_below_ledger : ℕ → Break
  fills_exceed_orders : ℕ → ℕ → Break

-- An unknown order that is not at the broker after the time of grace.
unfoldable pub overdue : Key → ℕ → Order → Bool
overdue k now o = unknown_in k o && ltb unknown_grace (now - o.created_ts)

unfoldable pub accept_unknown : Key → ℕ → Ledger → Ledger
accept_unknown k now l = record l {
  orders = update (unknown_in k) (set_state accepted now) l.orders;
  events = l.events ++ events_for (unknown_in k) (λ o. unknown_resolved_sent) now l.orders;
}

unfoldable pub drop_overdue : Key → ℕ → Ledger → Ledger
drop_overdue k now l = record l {
  orders = update (overdue k now) (set_state not_sent now) l.orders;
  events = l.events ++ events_for (overdue k now) (λ o. unknown_resolved_not_sent) now l.orders;
}

-- The part on orders: the broker has others than the ledger, or the breaks and the ledger to go on
-- with.
pub data Explained : Type 0 where
  unexplained : ℕ → Explained
  explained : List Break → Ledger → Explained

-- How many more are ordered at the broker than in the ledger's live orders.
unfoldable pub extra_of : Key → Totals → Totals → List Order → ℤ
extra_of k base broker os =
    (pos broker.ord_qty -ℤ pos base.ord_qty) -ℤ pos (sum_of (live_in k) (λ o. o.qty) os)

-- A sum of quantities equals a positive number only where there is a row.
unfoldable pub explain : Key → Totals → Totals → ℕ → Ledger → Explained
explain k base broker now l =
    let extra = extra_of k base broker l.orders in
    let waiting = sum_of (unknown_in k) (λ o. o.qty) l.orders in
    if ltb_ℤ (pos 0) extra
    then if eqb_ℤ (pos waiting) extra
      then explained [] (accept_unknown k now l)
      else unexplained (pos_part extra)
    else explained
        (if ltb_ℤ extra (pos 0) then ledger_orders_missing_at_broker (neg_part extra) ∷ [] else [])
        (drop_overdue k now l)

-- The update of an order by a fill.
unfoldable pub fill_order : ℕ → ℕ → ℤ → Order → Order
fill_order now qty amt o =
    let total = o.filled_qty + qty in
    record o {
      filled_qty = total;
      filled_amt = o.filled_amt +ℤ amt;
      state = if total == o.qty then filled else partial;
      updated_ts = now;
    }

abbrev pub min : ℕ → ℕ → ℕ
min a b = if leb a b then a else b

abbrev pub fill_event : Fill → Event
fill_event f = record { ts = f.ts; kind = filled_by f.qty f.amt; order_id = some f.order_id }

-- The loop that shares out the fills: `left` and `amt_left` are still to be given, `share take` is
-- `round(amt_delta * take / delta)`, which is computed in floating point.
unfoldable pub allocate : Key → ℕ → (ℕ → ℤ) → ℕ → ℤ → List Order → List Order × List Fill
allocate k now share left amt_left [] = ([], [])
allocate k now share left amt_left (o ∷ os) =
    let gets = open_in k o && not (left == 0) in
    let n = min (o.qty - o.filled_qty) left in
    let amt = if n == left then amt_left else share n in
    let rest =
      allocate k now share (if gets then left - n else left)
        (if gets then amt_left -ℤ amt else amt_left) os in
    if gets
    then (
      fill_order now n amt o ∷ rest.0,
      record { order_id = o.id; qty = n; amt = amt; source = day_totals; ts = now } ∷ rest.1,
    )
    else (o ∷ rest.0, rest.1)

unfoldable pub is_among : (Order → Bool) → ℕ → List Order → Bool
is_among p oid [] = false
is_among p oid (o ∷ os) = (p o && o.id == oid) || is_among p oid os

-- The quantity of notices of the last `NOTICE_GRACE_S` seconds for the live orders of a key.
unfoldable pub recent : Key → ℕ → List Order → List NoticeFill → ℕ
recent k now os [] = 0
recent k now os (n ∷ ns) =
    (if ltb now (n.ts + notice_grace) && is_among (live_in k) n.order_id os then n.qty else 0)
    + recent k now os ns

unfoldable pub delta_of : Key → Totals → Totals → List Order → ℤ
delta_of k base broker os =
    (pos broker.ccld_qty -ℤ pos base.ccld_qty) -ℤ pos (sum_of (live_in k) (λ o. o.filled_qty) os)

unfoldable pub amt_delta_of : Key → Totals → Totals → List Order → ℤ
amt_delta_of k base broker os =
    (pos broker.ccld_amt -ℤ pos base.ccld_amt) -ℤ sum_ℤ_of (live_in k) (λ o. o.filled_amt) os

unfoldable pub room_of : Key → List Order → ℕ
room_of k os = sum_of (open_in k) (λ o. o.qty - o.filled_qty) os

module _ (share : ℤ → ℕ → ℕ → ℤ) where
  -- The part on fills, with the breaks that it adds.
  unfoldable pub settle : Key → Totals → Totals → ℕ → Ledger → List Break × Ledger
  settle k base broker now l =
      let delta = delta_of k base broker l.orders in
      let amt_delta = amt_delta_of k base broker l.orders in
      let d = pos_part delta in
      let room = room_of k l.orders in
      let given = allocate k now (λ n. share amt_delta n d) d amt_delta l.orders in
      if ltb_ℤ delta (pos 0)
      then if leb (neg_part delta) (recent k now l.orders l.notices)
        then ([], l)
        else (broker_fills_below_ledger (neg_part delta) ∷ [], l)
      else if d == 0
      then ([], l)
      else if ltb room d
      then (fills_exceed_orders d room ∷ [], l)
      else (
        [],
        record l {
          orders = given.0;
          fills = l.fills ++ given.1;
          events = l.events ++ map fill_event given.1;
        },
      )

  abbrev pub finish : Key → Totals → Totals → ℕ → Ledger → Explained → List Break × Ledger
  finish k base broker now l (unexplained n) = (unexplained_broker_orders n ∷ [], l)
  finish k base broker now l (explained breaks l') =
      let rest = settle k base broker now l' in (breaks ++ rest.0, rest.1)

  unfoldable pub apply_totals : ℕ → Key → Totals → Ledger → List Break × Ledger
  apply_totals now k broker l = elim (baseline_of k l.baselines) [
    | none ↦ (no_baseline ∷ [], l)
    | some base ↦ finish k base broker now l (explain k base broker now l)
  ]
