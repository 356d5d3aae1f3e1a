-- ===== src/Orders/Operations.antt =====
-- Every operation of the order ledger keeps it sound.
use market_feed_platform.Prelude.{ℕ, Option, List, [], ◌∷◌}
use market_feed_platform.Prelude.Int.{ℤ}
use market_feed_platform.Orders.{
  State, Key, Totals, Ledger, empty, new_order, mark, recover_pending,
}
use market_feed_platform.Orders.Reconcile.{apply_totals, set_totals_baseline}
use market_feed_platform.Orders.Notice.{apply_notice}
use market_feed_platform.Orders.Close.{close_day}
use market_feed_platform.Orders.Sound.{
  Sound, new_order-Sound, mark-Sound, recover_pending-Sound, close_day-Sound, baseline-Sound,
  empty-Sound,
}
use market_feed_platform.Orders.Settling.{apply_totals-Sound}
use market_feed_platform.Orders.Noticing.{apply_notice-Sound}

-- The operations of the ledger, with the clock's readings.
pub data Operation : Type 0 where
  order_new : ℕ → ℕ → Key → ℕ → ℕ → ℕ → Operation
  order_mark : ℕ → ℕ → State → Option (List ℕ) → Operation
  recover : ℕ → Operation
  baseline : Key → Totals → Operation
  totals : ℕ → Key → Totals → Operation
  noticed : ℕ → ℕ → List ℕ → ℕ → ℕ → ℕ → Operation
  close : ℕ → ℕ → ℕ → Operation

module _ (share : ℤ → ℕ → ℕ → ℤ) where
  unfoldable pub apply : Operation → Ledger → Ledger
  apply (order_new now coid k qty price est) l = (new_order now coid k qty price est l).1
  apply (order_mark now oid st odno) l = mark now oid st odno l
  apply (recover now) l = recover_pending now l
  apply (baseline k t) l = set_totals_baseline k t l
  apply (totals now k broker) l = (apply_totals share now k broker l).1
  apply (noticed now date odno qty price key) l = (apply_notice now date odno qty price key l).1
  apply (close now date n) l = (close_day now date n l).1

  unfoldable pub run : List Operation → Ledger → Ledger
  run [] l = l
  run (op ∷ ops) l = run ops (apply op l)

  pub apply-Sound : (op : Operation) (l : Ledger) → Sound l → Sound (apply op l)
  unfolding apply
  apply-Sound (order_new now coid k qty price est) l s =
      new_order-Sound now coid k qty price est l s
  apply-Sound (order_mark now oid st odno) l s = mark-Sound now oid st odno l s
  apply-Sound (recover now) l s = recover_pending-Sound now l s
  apply-Sound (baseline k t) l s = baseline-Sound k t l s
  apply-Sound (totals now k broker) l s = apply_totals-Sound share now k broker l s
  apply-Sound (noticed now date odno qty price key) l s =
      apply_notice-Sound now date odno qty price key l s
  apply-Sound (close now date n) l s = close_day-Sound now date n l s

  run_keeps : (ops : List Operation) (l : Ledger) → Sound l → Sound (run ops l)
  unfolding run
  run_keeps [] l s = s
  run_keeps (op ∷ ops) l s = run_keeps ops (apply op l) (apply-Sound op l s)

  -- After any operations on a new ledger no order is filled beyond its quantity, the fills of each
  -- order are those of its rows in the table of fills, no two orders have one id, and each row of
  -- that table is for an order that exists.
  pub run-Sound : (ops : List Operation) → Sound (run ops empty)
  run-Sound ops = run_keeps ops empty empty-Sound
