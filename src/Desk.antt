-- ===== src/Desk.antt =====
-- src/mdfeed/services/order_desk.py: `submit`, the desk's way of sending an order.  The submit
-- lock lets one request in at a time, but while that one waits for the broker, reconciliations,
-- notices and the close of the day go on with the ledger: `Stage` is where the request waits.  The
-- patterns for client order ids and symbols are the parameters `valid_id` and `valid_symbol`, and
-- a request that is no JSON object with the fields is `none`.  Logs and metrics are left out but
-- for the counter of results.
pub mod Calm
pub mod Counts
pub mod Guard
pub mod Open
pub mod Limits
mod Tests
use market_feed_platform.Prelude.{
  ℕ, suc, ◌+◌, ◌*◌, Bool, true, false, not, ◌&&◌, ◌||◌, Option, none, some, List, [], ◌∷◌, ltb,
  ◌==◌, if◌then◌else◌,
}
use market_feed_platform.Prelude.Int.{ℤ, pos, ltb_ℤ, pos_part}
use market_feed_platform.Orders.{
  Side, State, accepted, rejected, unknown, Key, Order, Totals, Ledger, NewOrder, existing, created,
  raised, by_client_id, new_order, mark, open_order, recover_pending,
}
use market_feed_platform.Orders.Reconcile.{baseline_of, set_totals_baseline, apply_totals}
use market_feed_platform.Orders.Notice.{apply_notice}
use market_feed_platform.Orders.Notional.{notional_today}
use market_feed_platform.Orders.Close.{day_close, close_day}

pub record Config : Type 0 where
  pub order_max_qty : ℕ
  pub order_max_krw : ℕ
  pub order_daily_max_krw : ℕ

-- The fields of a request; the side is `none` where it is neither of the two.
pub record Form : Type 0 where
  pub client_order_id : ℕ
  pub symbol : ℕ
  pub side : Option Side
  pub qty : ℤ
  pub price : ℤ

-- A request that passed the checks of its form, with the day.
pub record Request : Type 0 where
  pub client_order_id : ℕ
  pub key : Key
  pub qty : ℕ
  pub price : ℕ

pub data Response : Type 0 where
  bad_request : Response
  duplicate : Order → Response
  blocked : Response
  refused : Response
  uncertain : Response
  accepted_order : Response
  failed : Response

-- Where a request waits: for the price, for the day's totals, for the answer to its order.
pub data Stage : Type 0 where
  idle : Stage
  pricing : Request → Stage
  totalling : Request → ℕ → Stage
  sending : ℕ → Stage

pub data Result : Type 0 where
  accepted_result rejected_result unknown_result blocked_result : Result

pub record Desk : Type 0 where
  pub ledger : Ledger
  pub stage : Stage
  pub kicked : Bool
  pub results : List Result
  pub responses : List Response

-- `OrderDesk.__init__` on a ledger that is there.
unfoldable pub create : ℕ → Ledger → Desk
create now l = record {
  ledger = recover_pending now l;
  stage = idle;
  kicked = false;
  results = [];
  responses = [];
}

unfoldable pub answer : Response → Desk → Desk
answer r d = record d { stage = idle; responses = r ∷ d.responses }

-- `_blocked`
unfoldable pub block : Desk → Desk
block d = answer blocked (record d { results = blocked_result ∷ d.results })

-- The recording of the order, before it is sent.
abbrev pub sent : Desk → NewOrder × Ledger → Desk
sent d (created o, l) = record d { ledger = l; stage = sending o.id }
sent d (existing o, l) = record d { ledger = l; stage = sending o.id }
sent d (raised, l) = answer failed d

unfoldable pub record_order : ℕ → Request → ℕ → Desk → Desk
record_order now r unit d =
    sent d (new_order now r.client_order_id r.key r.qty r.price unit d.ledger)

-- After the limits were checked: the baseline is taken once for each key and day.
unfoldable pub ensure_baseline : ℕ → Request → ℕ → Desk → Desk
ensure_baseline now r unit d = elim (baseline_of r.key d.ledger.baselines) [
  | some t ↦ record_order now r unit d
  | none ↦ record d { stage = totalling r unit }
]

-- The checks with the price of one.
unfoldable pub check_limits : Config → ℕ → Request → ℕ → Desk → Desk
check_limits cfg now r unit d =
    let notional = unit * r.qty in
    let used = notional_today r.key.trade_date d.ledger.orders in
    if ltb cfg.order_max_krw notional
    then block d
    else if ltb cfg.order_daily_max_krw (used + notional)
    then block d
    else ensure_baseline now r unit d

-- `price or (await self.price(sym))["price"]`
unfoldable pub find_price : Config → ℕ → Request → Desk → Desk
find_price cfg now r d =
    if r.price == 0 then record d { stage = pricing r } else check_limits cfg now r r.price d

-- The checks on the ledger.
abbrev pub is_some {ℓ} : {A : Type ℓ} → Option A → Bool
is_some none = false
is_some (some a) = true

unfoldable pub check_ledger : Config → ℕ → Request → Desk → Desk
check_ledger cfg now r d = elim (by_client_id r.client_order_id d.ledger.orders) [
  | some o ↦ answer (duplicate o) d
  | none ↦
      if is_some (day_close r.key.trade_date d.ledger.closes)
      then block d
      else if is_some (open_order r.key d.ledger)
      then block d
      else find_price cfg now r d
]

module _ (valid_id valid_symbol : ℕ → Bool) where
  -- The checks of the form, before the lock.
  unfoldable pub well_formed : Config → Form → Bool
  well_formed cfg f =
      valid_id f.client_order_id
      && valid_symbol f.symbol
      && is_some f.side
      && not (ltb_ℤ f.qty (pos 1) || ltb_ℤ (pos cfg.order_max_qty) f.qty || ltb_ℤ f.price (pos 0))

  abbrev pub request_of : ℕ → Form → Side → Request
  request_of day f side = record {
    client_order_id = f.client_order_id;
    key = record { trade_date = day; symbol = f.symbol; side = side };
    qty = pos_part f.qty;
    price = pos_part f.price;
  }

  -- `submit` up to its first wait; it starts when the lock is free.
  unfoldable pub submit : Config → ℕ → ℕ → Option Form → Desk → Desk
  submit cfg now day none d = record d { responses = bad_request ∷ d.responses }
  submit cfg now day (some f) d = elim f.side [
    | none ↦ record d { responses = bad_request ∷ d.responses }
    | some side ↦
        if not (well_formed cfg f)
        then record d { responses = bad_request ∷ d.responses }
        else elim d.stage [
          | idle ↦ check_ledger cfg now (request_of day f side) d
          | pricing r ↦ d
          | totalling r unit ↦ d
          | sending oid ↦ d
        ]
  ]

-- The price comes, or the broker fails.
unfoldable pub on_price : Config → ℕ → Option ℕ → Desk → Desk
on_price cfg now answered d = elim d.stage [
  | pricing r ↦ elim answered [ none ↦ block d | some unit ↦ check_limits cfg now r unit d ]
  | idle ↦ d
  | totalling r unit ↦ d
  | sending oid ↦ d
]

-- The day's totals come, or the broker fails.
unfoldable pub on_totals : ℕ → Option Totals → Desk → Desk
on_totals now answered d = elim d.stage [
  | totalling r unit ↦ elim answered [
    | none ↦ block d
    | some t ↦ record_order now r unit (record d { ledger = set_totals_baseline r.key t d.ledger })
  ]
  | idle ↦ d
  | pricing r ↦ d
  | sending oid ↦ d
]

-- What the broker answers to an order.
pub data Reply : Type 0 where
  takes : List ℕ → Reply
  rejects : Reply
  unsure : Reply

-- The answer to the order is written down.
abbrev pub mark_reply : ℕ → ℕ → Reply → Desk → Desk
mark_reply now oid (takes odno) d = answer accepted_order (record d {
  ledger = mark now oid accepted (some odno) d.ledger;
  results = accepted_result ∷ d.results;
  kicked = true;
})
mark_reply now oid rejects d = answer refused (record d {
  ledger = mark now oid rejected none d.ledger;
  results = rejected_result ∷ d.results;
})
mark_reply now oid unsure d = answer uncertain (record d {
  ledger = mark now oid unknown none d.ledger;
  results = unknown_result ∷ d.results;
  kicked = true;
})

unfoldable pub on_reply : ℕ → Reply → Desk → Desk
on_reply now reply d = elim d.stage [
  | sending oid ↦ mark_reply now oid reply d
  | idle ↦ d
  | pricing r ↦ d
  | totalling r unit ↦ d
]

-- What else happens to the ledger: a reconciliation of a key, a notice of a fill, a close.
module _ (share : ℤ → ℕ → ℕ → ℤ) where
  unfoldable pub reconcile_key : ℕ → Key → Totals → Desk → Desk
  reconcile_key now k t d = record d { ledger = (apply_totals share now k t d.ledger).1 }

-- `_on_notice` of a fill
unfoldable pub on_notice : ℕ → ℕ → List ℕ → ℕ → ℕ → ℕ → Desk → Desk
on_notice now day odno qty price key d = record d {
  ledger = (apply_notice now day odno qty price key d.ledger).1;
  kicked = true;
}

-- `_maybe_close`, once it is late enough
unfoldable pub maybe_close : ℕ → ℕ → ℕ → Desk → Desk
maybe_close now day breaks d = record d { ledger = (close_day now day breaks d.ledger).1 }
