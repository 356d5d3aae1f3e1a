-- ===== src/Desk/Limits.antt =====
-- src/mdfeed/services/order_desk.py: the limits on the amounts of orders.
use market_feed_platform.Prelude.{
  ℕ, ◌+◌, ◌*◌, ◌≤◌, ◌≡◌, ◌⊎◌, refl, arith, inl, inr, Bool-cases, Option-cases, Bool, true, false,
  not, Option, none, some, List, [], ◌∷◌, ◌++◌, ltb, ◌==◌, if◌then◌else◌,
}
use market_feed_platform.Orders.Close.{day_close}
use market_feed_platform.Orders.{
  Side, open_order, Order, Ledger, by_client_id, order_row, new_order, sum_of,
}
use market_feed_platform.Orders.Reconcile.{baseline_of}
use market_feed_platform.Orders.Notional.{notional_today, exposure, counts_on}
use market_feed_platform.Desk.{
  Config, Form, Request, Stage, idle, pricing, totalling, sending, Desk, answer, block,
  record_order, ensure_baseline, check_limits, find_price, is_some, check_ledger, well_formed,
  request_of, submit,
}

-- The orders stay, or there is one more within both limits.
abbrev pub Within : Config → ℕ → List Order → List Order → Type 0
Within cfg day os os' =
    (os' ≡ os)
    ⊎ ((o : Order) × (os' ≡ os ++ (o ∷ []))
        × (o.qty * o.est_price ≤ cfg.order_max_krw)
        × (notional_today day os' ≤ cfg.order_daily_max_krw))

sum_of-end :
    (p : Order → Bool) (f : Order → ℕ) (os : List Order) (o : Order)
    → sum_of p f (os ++ (o ∷ [])) ≡ sum_of p f os + (if p o then f o else 0)
unfolding sum_of
sum_of-end p f [] o = omega arith
sum_of-end p f (x ∷ os) o = omega (arith, sum_of-end p f os o)

-- What a new order adds to the amount of its day.
row_amounts :
    (oid coid now : ℕ) (r : Request) (unit : ℕ)
    → (if unit == 0 then r.price else unit) ≡ unit
    → let row = order_row oid coid r.key r.qty r.price unit now in
      (row.qty * row.est_price ≡ unit * r.qty)
      × (counts_on r.key.trade_date row ≡ true)
      × (exposure row ≡ unit * r.qty)
unfolding order_row
row_amounts oid coid now r unit e = (ground (arith, e), ground arith, ground (arith, e))

new_row :
    (cfg : Config) (now : ℕ) (r : Request) (unit : ℕ) (l : Ledger)
    → (if unit == 0 then r.price else unit) ≡ unit
    → unit * r.qty ≤ cfg.order_max_krw
    → notional_today r.key.trade_date l.orders + unit * r.qty ≤ cfg.order_daily_max_krw
    → let row = order_row l.next_id r.client_order_id r.key r.qty r.price unit now in
      Within cfg r.key.trade_date l.orders (l.orders ++ (row ∷ []))
unfolding notional_today
new_row cfg now r unit l e one all =
    let row = order_row l.next_id r.client_order_id r.key r.qty r.price unit now in
    let (amount, counted, exposed) = row_amounts l.next_id r.client_order_id now r unit e in
    let more = sum_of-end (counts_on r.key.trade_date) exposure l.orders row in
    inr (row, refl, omega (arith, amount, one), ground (arith, more, counted, exposed, all))

record_order-Within :
    (cfg : Config) (now : ℕ) (r : Request) (unit : ℕ) (d : Desk)
    → (if unit == 0 then r.price else unit) ≡ unit
    → unit * r.qty ≤ cfg.order_max_krw
    → notional_today r.key.trade_date d.ledger.orders + unit * r.qty ≤ cfg.order_daily_max_krw
    → Within cfg r.key.trade_date d.ledger.orders (record_order now r unit d).ledger.orders
unfolding record_order new_order answer
record_order-Within cfg now r unit d e one all =
    elim (Option-cases (by_client_id r.client_order_id d.ledger.orders)) [
      | inr found ↦ rw (found.1, record_order, new_order) (inl refl)
      | inl new ↦ elim (Bool-cases (r.qty == 0)) [
        | inl z ↦ rw (new, z, record_order, new_order) (inl refl)
        | inr z ↦ rw (new, z, record_order, new_order) (new_row cfg now r unit d.ledger e one all)
      ]
    ]

ensure_baseline-Within :
    (cfg : Config) (now : ℕ) (r : Request) (unit : ℕ) (d : Desk)
    → (if unit == 0 then r.price else unit) ≡ unit
    → unit * r.qty ≤ cfg.order_max_krw
    → notional_today r.key.trade_date d.ledger.orders + unit * r.qty ≤ cfg.order_daily_max_krw
    → Within cfg r.key.trade_date d.ledger.orders (ensure_baseline now r unit d).ledger.orders
unfolding ensure_baseline
ensure_baseline-Within cfg now r unit d e one all =
    elim (Option-cases (baseline_of r.key d.ledger.baselines)) [
      | inl new ↦ rw (new, ensure_baseline) (inl refl)
      | inr known ↦ rw (known.1, ensure_baseline) (record_order-Within cfg now r unit d e one all)
    ]

check_limits-Within :
    (cfg : Config) (now : ℕ) (r : Request) (unit : ℕ) (d : Desk)
    → (if unit == 0 then r.price else unit) ≡ unit
    → Within cfg r.key.trade_date d.ledger.orders (check_limits cfg now r unit d).ledger.orders
unfolding check_limits block answer
check_limits-Within cfg now r unit d e =
    let used = notional_today r.key.trade_date d.ledger.orders in
    elim (Bool-cases (ltb cfg.order_max_krw (unit * r.qty))) [
      | inl over ↦ rw over (inl refl)
      | inr fits ↦ elim (Bool-cases (ltb cfg.order_daily_max_krw (used + unit * r.qty))) [
        | inl over ↦ rw (fits, over) (inl refl)
        | inr below ↦
            rw (fits, below)
              (ensure_baseline-Within cfg now r unit d e (ground (arith, fits))
                (ground (arith, below)))
      ]
    ]

find_price-Within :
    (cfg : Config) (now : ℕ) (r : Request) (d : Desk)
    → Within cfg r.key.trade_date d.ledger.orders (find_price cfg now r d).ledger.orders
unfolding find_price
find_price-Within cfg now r d = elim (Bool-cases (r.price == 0)) [
  | inl market ↦ rw market (inl refl)
  | inr limit ↦ rw limit (check_limits-Within cfg now r r.price d (ground (arith, limit)))
]

check_ledger-Within :
    (cfg : Config) (now : ℕ) (r : Request) (d : Desk)
    → Within cfg r.key.trade_date d.ledger.orders (check_ledger cfg now r d).ledger.orders
unfolding check_ledger block answer
check_ledger-Within cfg now r d =
    elim (Option-cases (by_client_id r.client_order_id d.ledger.orders)) [
      | inr found ↦ rw (found.1, check_ledger) (inl refl)
      | inl new ↦ elim (Bool-cases (is_some (day_close r.key.trade_date d.ledger.closes))) [
        | inl closed_day ↦ rw (new, closed_day, check_ledger) (inl refl)
        | inr open_day ↦ elim (Option-cases (open_order r.key d.ledger)) [
          | inr busy ↦ rw (new, open_day, busy.1, check_ledger) (inl refl)
          | inl free ↦ rw (new, open_day, free, check_ledger) (find_price-Within cfg now r d)
        ]
      ]
    ]

module _ (valid_id valid_symbol : ℕ → Bool) where
  enter-Within :
      (cfg : Config) (now day : ℕ) (f : Form) (side : Side) (d : Desk) (s : Stage)
      → f.side ≡ some side
      → not (well_formed valid_id valid_symbol cfg f) ≡ false
      → d.stage ≡ s
      → Within cfg day d.ledger.orders
          (submit valid_id valid_symbol cfg now day (some f) d).ledger.orders
  unfolding submit
  enter-Within cfg now day f side d idle es ew e =
      rw (es, ew, e, submit)
        (check_ledger-Within cfg now (request_of valid_id valid_symbol day f side) d)
  enter-Within cfg now day f side d (pricing r) es ew e = rw (es, ew, e, submit) (inl refl)
  enter-Within cfg now day f side d (totalling r unit) es ew e = rw (es, ew, e, submit) (inl refl)
  enter-Within cfg now day f side d (sending oid) es ew e = rw (es, ew, e, submit) (inl refl)

  -- A request that does not have to wait leaves the orders as they are or adds one order.  The
  -- amount of that order is within the limit for one order, and the amount of the day's orders
  -- with it is within the limit for the day.
  pub submit-Within :
      (cfg : Config) (now day : ℕ) (asked : Option Form) (d : Desk)
      → Within cfg day d.ledger.orders
          (submit valid_id valid_symbol cfg now day asked d).ledger.orders
  unfolding submit
  submit-Within cfg now day none d = inl refl
  submit-Within cfg now day (some f) d = elim (Option-cases f.side) [
    | inl neither ↦ rw (neither, submit) (inl refl)
    | inr known ↦ elim (Bool-cases (not (well_formed valid_id valid_symbol cfg f))) [
      | inl bad ↦ rw (known.1, bad, submit) (inl refl)
      | inr good ↦ enter-Within cfg now day f known.0 d d.stage known.1 good refl
    ]
  ]
