-- ===== src/Orders/Close.antt =====
-- src/mdfeed/ledger.py: `close_day`, the closing of a day, which reads the newest 100,000 orders of
-- the day.
use market_feed_platform.Prelude.{
  take, ℕ, ◌-◌, Bool, false, ◌&&◌, ◌||◌, Option, none, some, List, [], ◌∷◌, ◌++◌, ◌==◌,
  if◌then◌else◌,
}
use market_feed_platform.Orders.{
  State, expired, is_live, is_fillable, is_unknown, is_pending, is_rejected, is_not_sent, Order,
  Summary, order_expired, day_closed, Ledger, set_state, update, events_for, sum_of, sum_ℤ_of,
}

pub data Closed : Type 0 where
  closed : Summary → Closed
  unknown_orders : List ℕ → Closed
  breaks : ℕ → Closed

unfoldable pub day_close : ℕ → List (ℕ × Summary) → Option Summary
day_close date [] = none
day_close date ((d, s) ∷ rows) = if d == date then some s else day_close date rows

abbrev pub dated : ℕ → (State → Bool) → Order → Bool
dated date p o = o.key.trade_date == date && p o.state

unfoldable pub count : (Order → Bool) → List Order → ℕ
count p os = sum_of p (λ o. 1) os

unfoldable pub ids_of : (Order → Bool) → List Order → List ℕ
ids_of p [] = []
ids_of p (o ∷ os) = let rest = ids_of p os in if p o then o.id ∷ rest else rest

-- `ORDER BY id DESC`
unfoldable pub newest_first : ℕ → List Order → List Order
newest_first date [] = []
newest_first date (o ∷ os) =
    newest_first date os ++ (if o.key.trade_date == date then o ∷ [] else [])

-- `orders(trade_date, limit)`
unfoldable pub orders_on : ℕ → ℕ → List Order → List Order
orders_on date limit os = take limit (newest_first date os)

-- `limit=100_000`
abbrev pub close_limit : ℕ
close_limit = 100_000

abbrev pub of_state : (State → Bool) → Order → Bool
of_state p o = p o.state

unfoldable pub has_id : ℕ → List Order → Bool
has_id i [] = false
has_id i (o ∷ os) = o.id == i || has_id i os

-- `rows` are the rows that were read.
unfoldable pub summary_of : ℕ → List Order → Summary
summary_of now rows = record {
  ts = now;
  orders_sent = count (of_state is_live) rows;
  orders_rejected = count (of_state is_rejected) rows;
  orders_not_sent = count (of_state is_not_sent) rows;
  filled_qty = sum_of (of_state is_live) (λ o. o.filled_qty) rows;
  filled_amt = sum_ℤ_of (of_state is_live) (λ o. o.filled_amt) rows;
  expired_orders = count (of_state is_fillable) rows;
  expired_qty = sum_of (of_state is_fillable) (λ o. o.qty - o.filled_qty) rows;
}

abbrev pub is_unresolved : State → Bool
is_unresolved s = is_pending s || is_unknown s

-- The rows that the loop over the fillable ones sets to EXPIRED.
abbrev pub expires : ℕ → List Order → Order → Bool
expires date rows o = dated date is_fillable o && has_id o.id rows

-- The part of `close_day` that closes.
unfoldable pub expire : ℕ → ℕ → List Order → Ledger → Ledger
expire now date rows l =
    let s = summary_of now rows in
    record l {
      orders = update (expires date rows) (set_state expired now) l.orders;
      closes = (date, s) ∷ l.closes;
      events =
          l.events
          ++ events_for (of_state is_fillable) (λ o. order_expired (o.qty - o.filled_qty)) now rows
          ++ (record { ts = now; kind = day_closed s; order_id = none } ∷ []);
    }

unfoldable pub close_day : ℕ → ℕ → ℕ → Ledger → Closed × Ledger
close_day now date open_breaks l =
    let rows = orders_on date close_limit l.orders in
    elim (day_close date l.closes) [
      | some s ↦ (closed s, l)
      | none ↦ elim (ids_of (of_state is_unresolved) rows) [
        | n ∷ ns ↦ (unknown_orders (n ∷ ns), l)
        | [] ↦
            if open_breaks == 0
            then (closed (summary_of now rows), expire now date rows l)
            else (breaks open_breaks, l)
      ]
    ]
