-- ===== src/Desk/Tests.antt =====
-- The desk's theorems at concrete inputs.
use market_feed_platform.Prelude.{ℕ, ◌≤◌, ◌≡◌, refl, Bool, true, some, List, [], ◌∷◌}
use market_feed_platform.Prelude.Int.{ℤ, pos}
use market_feed_platform.Orders.{
  buy, Key, Totals, empty, first, sum_of, by_client_id, new_order, order_row, mark, update,
  open_order, recover_pending, events_for,
}
use market_feed_platform.Orders.Reconcile.{baseline_of, set_totals_baseline}
use market_feed_platform.Orders.Notional.{notional_today}
use market_feed_platform.Orders.Close.{day_close}
use market_feed_platform.Desk.{
  Config, Form, Desk, create, submit, answer, block, record_order, ensure_baseline, check_limits,
  find_price, check_ledger, well_formed, on_totals, takes, on_reply, accepted_result,
  blocked_result,
}
use market_feed_platform.Desk.Calm.{open_count, client_count}
use market_feed_platform.Desk.Open.{
  Act, request, totals_answer, order_answer, reconciliation, day_end, restart, act, run,
  run-create-once,
}
use market_feed_platform.Desk.Limits.{Within, submit-Within}

abbrev any : ℕ → Bool
any n = true

abbrev share : ℤ → ℕ → ℕ → ℤ
share d n all = pos n

abbrev config : Config
config = record { order_max_qty = 100; order_max_krw = 10_000; order_daily_max_krw = 15_000 }

-- An order for ten at 900.
abbrev form : ℕ → Form
form client = record {
  client_order_id = client;
  symbol = 7;
  side = some buy;
  qty = pos 10;
  price = pos 900;
}

abbrev key : Key
key = record { trade_date = 1; symbol = 7; side = buy }

abbrev totals : Totals
totals = record { ord_qty = 0; ccld_qty = 0; ccld_amt = 0 }

abbrev later_totals : Totals
later_totals = record { ord_qty = 10; ccld_qty = 10; ccld_amt = 9_000 }

-- The second request finds the first one's order open, the third one exceeds the day's limit.
abbrev acts : List Act
acts =
    request 10 1 (some (form 1))
    ∷ totals_answer 11 (some totals)
    ∷ order_answer 12 (takes (48 ∷ 49 ∷ []))
    ∷ request 13 1 (some (form 2))
    ∷ reconciliation 14 key later_totals
    ∷ request 15 1 (some (form 3))
    ∷ restart 16
    ∷ day_end 17 1 0
    ∷ []

run-create-once_example :
    (open_count key (run any any share config acts (create 5 empty)).ledger.orders ≤ 1)
    × (client_count 2 (run any any share config acts (create 5 empty)).ledger.orders ≤ 1)
run-create-once_example = run-create-once any any share config acts 5 key 2

-- The desk once the order is taken, and the requests after it.
abbrev taken : Desk
taken =
    run any any share config
      (request 10 1 (some (form 1))
        ∷ totals_answer 11 (some totals)
        ∷ order_answer 12 (takes (48 ∷ 49 ∷ []))
        ∷ request 13 1 (some (form 2))
        ∷ [])
      (create 5 empty)

second-blocked :
    (taken.results ≡ blocked_result ∷ accepted_result ∷ [])
    × (open_count key taken.ledger.orders ≡ 1)
unfolding run act submit well_formed check_ledger find_price check_limits ensure_baseline on_totals
    record_order on_reply answer block create by_client_id open_order first new_order order_row mark
    update sum_of recover_pending events_for baseline_of set_totals_baseline notional_today
    day_close
second-blocked = (refl, refl)

-- The day's totals are known, so that a request for one key goes through at once.
abbrev prepared : Desk
prepared = create 5 (set_totals_baseline key totals empty)

submit-Within_example :
    Within config 1 prepared.ledger.orders
      (submit any any config 10 1 (some (form 1)) prepared).ledger.orders
submit-Within_example = submit-Within any any config 10 1 (some (form 1)) prepared
