-- ===== src/Orders/Tests.antt =====
-- The order ledger's theorems at concrete inputs.
use market_feed_platform.Prelude.{arith, true, ◌⊎◌, List, ℕ, ◌+◌, ◌≡◌, refl, some, none, [], ◌∷◌}
use market_feed_platform.Prelude.Int.{ℤ, pos, ◌+ℤ◌, ◌-ℤ◌}
use market_feed_platform.Orders.{
  Order, existing, buy, Key, Totals, Ledger, empty, accepted, unknown, new_order, mark, order_row,
  by_client_id, first, update, events_for, sum_of, sum_ℤ_of,
}
use market_feed_platform.Orders.Reconcile.{
  baseline_of, set_totals_baseline, apply_totals, live_in, unknown_in, open_in, overdue,
  accept_unknown, drop_overdue, extra_of, explain, fill_order, allocate, delta_of, amt_delta_of,
  room_of, settle,
}
use market_feed_platform.Orders.Allocate.{live_qty}
use market_feed_platform.Orders.Holdings.{
  Holdings, set_holdings_baseline, expected_qty, broker_qty, waits, diff_of, pending_qty,
  reconcile_holdings, mismatches, explained_qty, base_qty, base_symbols, order_symbols,
  broker_symbols, insert, has_date, recent_of,
}
use market_feed_platform.Orders.Positions.{reconcile_holdings-agrees}
use market_feed_platform.Orders.Agreement.{Filled, apply_totals_agrees}
use market_feed_platform.Orders.Again.{new_order_again}
use market_feed_platform.Orders.Sound.{Sound}
use market_feed_platform.Orders.Operations.{
  apply, Operation, order_new, order_mark, baseline, totals, noticed, close, run, run-Sound,
}
use market_feed_platform.Orders.Close.{
  day_close, ids_of, newest_first, orders_on, has_id, count, summary_of, expire, close_day,
}
use market_feed_platform.Orders.Closing.{Promise, close_day_closed}

abbrev key : Key
key = record { trade_date = 1; symbol = 7; side = buy }

abbrev share : ℤ → ℕ → ℕ → ℤ
share d n all = pos n

abbrev base : Totals
base = record { ord_qty = 5; ccld_qty = 5; ccld_amt = 500 }

-- One order is at the broker, another was sent with an unknown outcome.
abbrev two_orders : Ledger
two_orders =
    let first_in = (new_order 10 1 key 4 100 0 (set_totals_baseline key base empty)).1 in
    let both = (new_order 20 2 key 6 100 0 (mark 15 1 accepted (some (48 ∷ 49 ∷ [])) first_in)).1 in
    mark 25 2 unknown none both

-- The broker has both, and seven of the ten are filled.
abbrev broker : Totals
broker = record { ord_qty = 15; ccld_qty = 12; ccld_amt = 1200 }

apply_totals_agrees_example :
    (live_qty key (apply_totals share 30 key broker two_orders).1.orders + 5 ≡ 15)
    × Filled key base broker 30 (apply_totals share 30 key broker two_orders).1
unfolding new_order mark order_row by_client_id first update events_for sum_of sum_ℤ_of baseline_of
    set_totals_baseline apply_totals live_in unknown_in open_in overdue accept_unknown drop_overdue
    extra_of explain fill_order allocate delta_of amt_delta_of room_of settle ◌-ℤ◌
apply_totals_agrees_example = apply_totals_agrees share 30 key base broker two_orders refl refl

-- The button is pressed again for another quantity, when the order is at the broker.
abbrev pressed : Ledger
pressed = (new_order 10 1 key 4 100 0 (run share (baseline key base ∷ []) empty)).1

abbrev at_broker : Ledger
at_broker = run share (order_mark 15 1 accepted (some (48 ∷ 49 ∷ [])) ∷ []) pressed

new_order_again_example :
    (o : Order) × (o.id ≡ 1) × (new_order 20 1 key 9 200 0 at_broker ≡ (existing o, at_broker))
unfolding new_order by_client_id first run apply set_totals_baseline baseline_of order_row
new_order_again_example =
    new_order_again share (baseline key base ∷ [])
      (order_mark 15 1 accepted (some (48 ∷ 49 ∷ [])) ∷ []) 10 1 key 4 100 0
      (order_row 1 1 key 4 100 0 10) 20 key 9 200 0 refl

abbrev settled : Ledger
settled = (apply_totals share 30 key broker two_orders).1

close_day_closed_example :
    (◌≡◌ {A = ℕ} 0 0)
    × Promise 60 1 settled
        (summary_of 50 (newest_first 1 settled.orders))
        (close_day 50 1 0 settled)
unfolding new_order mark order_row by_client_id first update events_for sum_of sum_ℤ_of baseline_of
    set_totals_baseline apply_totals live_in unknown_in open_in overdue accept_unknown drop_overdue
    extra_of explain fill_order allocate delta_of amt_delta_of room_of settle ◌-ℤ◌ ◌+ℤ◌ day_close
    ids_of newest_first orders_on has_id count summary_of expire close_day
close_day_closed_example =
    close_day_closed 50 1 0 60 settled (summary_of 50 (newest_first 1 settled.orders)) (omega arith)
      refl refl

-- A day of the ledger, with a notice ahead of the totals.
abbrev day : List Operation
day =
    baseline key base
    ∷ order_new 10 1 key 4 100 0
    ∷ order_mark 15 1 accepted (some (48 ∷ 49 ∷ []))
    ∷ noticed 20 1 (49 ∷ []) 3 100 9
    ∷ totals 30 key (record { ord_qty = 9; ccld_qty = 9; ccld_amt = 900 })
    ∷ close 50 1 0
    ∷ []

run-Sound_example : Sound (run share day empty)
run-Sound_example = run-Sound share day

-- Five are held in the morning, and the broker still has five.
abbrev morning : Holdings
morning = set_holdings_baseline 1 ((7, 5) ∷ []) (record { taken = []; rows = [] })

reconcile_holdings-agrees_example :
    (expected_qty 1 7 morning two_orders.orders ≡ pos (broker_qty 7 ((7, 5) ∷ [])))
    ⊎ (waits (diff_of 1 7 ((7, 5) ∷ []) morning two_orders) (pending_qty 1 7 30 two_orders) ≡ true)
unfolding new_order mark order_row by_client_id first update sum_of baseline_of set_totals_baseline
    reconcile_holdings mismatches explained_qty base_qty broker_qty base_symbols order_symbols
    broker_symbols insert set_holdings_baseline has_date recent_of ◌-ℤ◌
reconcile_holdings-agrees_example =
    reconcile_holdings-agrees 1 30 ((7, 5) ∷ []) morning two_orders 7 refl
