-- ===== src/Orders.antt =====
-- src/mdfeed/ledger.py: the order ledger that is reconciled with the broker, its tables as lists.
-- Ids, dates, symbols and client order ids are numbers, an order number is its characters, instants
-- are microseconds and the clock's reading is an argument.  Orders stand in the order of their
-- ids.  Since the id is the primary key, `UPDATE … WHERE id=?` in a loop over rows writes the row
-- that the loop is at, and such a loop is one pass over the table.  The free texts of an order and
-- of an audit event are left out.
pub mod Reconcile
pub mod Notice
pub mod Allocate
pub mod Agreement
pub mod Sound
pub mod Settling
pub mod Noticing
pub mod Accounts
pub mod Operations
pub mod Notional
pub mod Holdings
pub mod Positions
pub mod Close
pub mod Closing
pub mod Again
mod Tests
use market_feed_platform.Prelude.{
  ℕ, suc, ◌+◌, ◌-◌, ◌*◌, Bool, true, false, not, ◌&&◌, ◌||◌, Option, none, some, List, [], ◌∷◌,
  ◌++◌, map, ltb, ◌==◌, if◌then◌else◌, length,
}
use market_feed_platform.Prelude.Int.{ℤ, pos, ◌+ℤ◌}

pub data Side : Type 0 where
  buy sell : Side

pub data State : Type 0 where
  pending_submit accepted partial filled rejected unknown not_sent expired : State

abbrev pub side_eq : Side → Side → Bool
side_eq buy buy = true
side_eq buy sell = false
side_eq sell buy = false
side_eq sell sell = true

-- `OPEN_STATES`
abbrev pub is_open : State → Bool
is_open pending_submit = true
is_open accepted = true
is_open partial = true
is_open unknown = true
is_open filled = false
is_open rejected = false
is_open not_sent = false
is_open expired = false

-- `LIVE_STATES`
abbrev pub is_live : State → Bool
is_live accepted = true
is_live partial = true
is_live filled = true
is_live expired = true
is_live pending_submit = false
is_live rejected = false
is_live unknown = false
is_live not_sent = false

-- `FILLABLE_STATES`
abbrev pub is_fillable : State → Bool
is_fillable accepted = true
is_fillable partial = true
is_fillable pending_submit = false
is_fillable filled = false
is_fillable rejected = false
is_fillable unknown = false
is_fillable not_sent = false
is_fillable expired = false

abbrev pub is_unknown : State → Bool
is_unknown unknown = true
is_unknown accepted = false
is_unknown partial = false
is_unknown pending_submit = false
is_unknown filled = false
is_unknown rejected = false
is_unknown not_sent = false
is_unknown expired = false

abbrev pub is_pending : State → Bool
is_pending pending_submit = true
is_pending unknown = false
is_pending accepted = false
is_pending partial = false
is_pending filled = false
is_pending rejected = false
is_pending not_sent = false
is_pending expired = false

-- What the totals of the broker are kept by.
pub record Key : Type 0 where
  pub trade_date : ℕ
  pub symbol : ℕ
  pub side : Side

pub record Order : Type 0 where
  pub id : ℕ
  pub client_order_id : ℕ
  pub key : Key
  pub qty : ℕ
  pub price : ℕ
  pub est_price : ℕ
  pub state : State
  pub odno : Option (List ℕ)
  pub filled_qty : ℕ
  pub filled_amt : ℤ
  pub created_ts : ℕ
  pub updated_ts : ℕ

pub data Source : Type 0 where
  day_totals notice : Source

pub record Fill : Type 0 where
  pub order_id : ℕ
  pub qty : ℕ
  pub amt : ℤ
  pub source : Source
  pub ts : ℕ

pub record Totals : Type 0 where
  pub ord_qty : ℕ
  pub ccld_qty : ℕ
  pub ccld_amt : ℕ

pub record NoticeFill : Type 0 where
  pub key : ℕ
  pub order_id : ℕ
  pub qty : ℕ
  pub amt : ℕ
  pub ts : ℕ

pub record Summary : Type 0 where
  pub ts : ℕ
  pub orders_sent : ℕ
  pub orders_rejected : ℕ
  pub orders_not_sent : ℕ
  pub filled_qty : ℕ
  pub filled_amt : ℤ
  pub expired_orders : ℕ
  pub expired_qty : ℕ

pub data EventKind : Type 0 where
  order_created : EventKind
  order_marked : State → EventKind
  recovered_pending_as_unknown : EventKind
  unknown_resolved_sent : EventKind
  unknown_resolved_not_sent : EventKind
  filled_by : ℕ → ℤ → EventKind
  notice_unmatched : EventKind
  notice_ignored : EventKind
  order_expired : ℕ → EventKind
  day_closed : Summary → EventKind

pub record Event : Type 0 where
  pub ts : ℕ
  pub kind : EventKind
  pub order_id : Option ℕ

pub record Ledger : Type 0 where
  pub orders : List Order
  pub next_id : ℕ
  pub fills : List Fill
  pub baselines : List (Key × Totals)
  pub notices : List NoticeFill
  pub closes : List (ℕ × Summary)
  pub events : List Event

abbrev pub empty : Ledger
empty = record {
  orders = [];
  next_id = 1;
  fills = [];
  baselines = [];
  notices = [];
  closes = [];
  events = [];
}

abbrev pub key_eq : Key → Key → Bool
key_eq a b = a.trade_date == b.trade_date && a.symbol == b.symbol && side_eq a.side b.side

abbrev pub set_state : State → ℕ → Order → Order
set_state s now o = record o { state = s; updated_ts = now }

-- `UPDATE orders SET … WHERE`
unfoldable pub update : (Order → Bool) → (Order → Order) → List Order → List Order
update p f [] = []
update p f (o ∷ os) = (if p o then f o else o) ∷ update p f os

-- `_event` for each row of a query.
unfoldable pub events_for : (Order → Bool) → (Order → EventKind) → ℕ → List Order → List Event
events_for p k now [] = []
events_for p k now (o ∷ os) =
    let rest = events_for p k now os in
    if p o then record { ts = now; kind = k o; order_id = some o.id } ∷ rest else rest

-- `SUM(column)`, or Python's `sum`, over the rows with a property.
unfoldable pub sum_of : (Order → Bool) → (Order → ℕ) → List Order → ℕ
sum_of p f [] = 0
sum_of p f (o ∷ os) = (if p o then f o else 0) + sum_of p f os

unfoldable pub sum_ℤ_of : (Order → Bool) → (Order → ℤ) → List Order → ℤ
sum_ℤ_of p f [] = pos 0
sum_ℤ_of p f (o ∷ os) = (if p o then f o else pos 0) +ℤ sum_ℤ_of p f os

-- `SELECT * FROM orders WHERE … ORDER BY id LIMIT 1`
unfoldable pub first : (Order → Bool) → List Order → Option Order
first p [] = none
first p (o ∷ os) = if p o then some o else first p os

-- What `new_order` returns: a row and whether it is new, or the exception of the table's CHECK.
pub data NewOrder : Type 0 where
  existing : Order → NewOrder
  created : Order → NewOrder
  raised : NewOrder

unfoldable pub order_row : ℕ → ℕ → Key → ℕ → ℕ → ℕ → ℕ → Order
order_row oid coid k qty price est now = record {
  id = oid;
  client_order_id = coid;
  key = k;
  qty = qty;
  price = price;
  est_price = if est == 0 then price else est;
  state = pending_submit;
  odno = none;
  filled_qty = 0;
  filled_amt = pos 0;
  created_ts = now;
  updated_ts = now;
}

unfoldable pub by_client_id : ℕ → List Order → Option Order
by_client_id coid os = first (λ o. o.client_order_id == coid) os

unfoldable pub new_order : ℕ → ℕ → Key → ℕ → ℕ → ℕ → Ledger → NewOrder × Ledger
new_order now coid k qty price est l = elim (by_client_id coid l.orders) [
  | some o ↦ (existing o, l)
  | none ↦
      let o = order_row l.next_id coid k qty price est now in
      if qty == 0 then (raised, l) else (
        created o,
        record l {
          orders = l.orders ++ (o ∷ []);
          next_id = l.next_id + 1;
          events =
              l.events
              ++ (record { ts = now; kind = order_created; order_id = some l.next_id } ∷ []);
        },
      )
]

-- `COALESCE(?, odno)`
abbrev pub coalesce {ℓ} : {A : Type ℓ} → Option A → Option A → Option A
coalesce none b = b
coalesce (some a) b = some a

unfoldable pub mark : ℕ → ℕ → State → Option (List ℕ) → Ledger → Ledger
mark now oid s odno l = record l {
  orders =
      update (λ o. o.id == oid)
        (λ o. record o { state = s; odno = coalesce odno o.odno; updated_ts = now }) l.orders;
  events = l.events ++ (record { ts = now; kind = order_marked s; order_id = some oid } ∷ []);
}

unfoldable pub recover_pending : ℕ → Ledger → Ledger
recover_pending now l = record l {
  orders = update (λ o. is_pending o.state) (set_state unknown now) l.orders;
  events =
      l.events
      ++ events_for (λ o. is_pending o.state) (λ o. recovered_pending_as_unknown) now l.orders;
}

unfoldable pub open_order : Key → Ledger → Option Order
open_order k l = first (λ o. key_eq k o.key && is_open o.state) l.orders

abbrev pub is_rejected : State → Bool
is_rejected rejected = true
is_rejected pending_submit = false
is_rejected accepted = false
is_rejected partial = false
is_rejected filled = false
is_rejected unknown = false
is_rejected not_sent = false
is_rejected expired = false

abbrev pub is_not_sent : State → Bool
is_not_sent not_sent = true
is_not_sent pending_submit = false
is_not_sent accepted = false
is_not_sent partial = false
is_not_sent filled = false
is_not_sent unknown = false
is_not_sent rejected = false
is_not_sent expired = false
