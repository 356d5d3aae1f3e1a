-- ===== src/Orders/Notional.antt =====
-- src/mdfeed/ledger.py: `notional_today`, the amount of a day's orders.
use market_feed_platform.Prelude.{ℕ, ◌*◌, Bool, not, ◌&&◌, ◌||◌, List, ltb, ◌==◌, if◌then◌else◌}
use market_feed_platform.Prelude.Int.{pos_part}
use market_feed_platform.Orders.{Order, is_rejected, is_not_sent, sum_of}

abbrev pub counts_on : ℕ → Order → Bool
counts_on date o = o.key.trade_date == date && not (is_rejected o.state || is_not_sent o.state)

-- `MAX(qty*est_price, filled_amt)`
abbrev pub exposure : Order → ℕ
exposure o =
    if ltb (o.qty * o.est_price) (pos_part o.filled_amt)
    then pos_part o.filled_amt
    else o.qty * o.est_price

unfoldable pub notional_today : ℕ → List Order → ℕ
notional_today date os = sum_of (counts_on date) exposure os
