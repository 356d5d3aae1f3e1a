-- ===== src/Desk/Open.antt =====
-- src/mdfeed/services/order_desk.py: whatever happens while requests wait, in any order, and across
-- restarts, no second order of a key is open and no client order id has two orders.
use market_feed_platform.Prelude.{ℕ, ◌≤◌, refl, arith, Bool, Option, List, [], ◌∷◌}
use market_feed_platform.Prelude.Int.{ℤ}
use market_feed_platform.Orders.{Key, Totals, empty, sum_of}
use market_feed_platform.Orders.Sound.{empty-Sound, close_day-Sound}
use market_feed_platform.Orders.Settling.{apply_totals-Sound}
use market_feed_platform.Orders.Noticing.{apply_notice-Sound}
use market_feed_platform.Desk.{
  Config, Form, Desk, create, submit, on_price, on_totals, Reply, on_reply, reconcile_key,
  on_notice, maybe_close,
}
use market_feed_platform.Desk.Calm.{
  open_count, client_count, apply_totals-Calm, apply_notice-Calm, close_day-Calm,
}
use market_feed_platform.Desk.Guard.{
  Booked, Guarded, Guarded-Calm, create-Guarded, on_price_at, on_totals_at, on_reply_at,
  submit-Guarded,
}

-- What happens at the desk: a request, the broker's answers to it, and what goes on meanwhile.
pub data Act : Type 0 where
  request : ℕ → ℕ → Option Form → Act
  price_answer : ℕ → Option ℕ → Act
  totals_answer : ℕ → Option Totals → Act
  order_answer : ℕ → Reply → Act
  reconciliation : ℕ → Key → Totals → Act
  notice_of_fill : ℕ → ℕ → List ℕ → ℕ → ℕ → ℕ → Act
  day_end : ℕ → ℕ → ℕ → Act
  restart : ℕ → Act

module _ (valid_id valid_symbol : ℕ → Bool) (share : ℤ → ℕ → ℕ → ℤ) (cfg : Config) where
  unfoldable pub act : Act → Desk → Desk
  act (request now day asked) d = submit valid_id valid_symbol cfg now day asked d
  act (price_answer now answered) d = on_price cfg now answered d
  act (totals_answer now answered) d = on_totals now answered d
  act (order_answer now reply) d = on_reply now reply d
  act (reconciliation now k t) d = reconcile_key share now k t d
  act (notice_of_fill now day odno qty price key) d = on_notice now day odno qty price key d
  act (day_end now day breaks) d = maybe_close now day breaks d
  act (restart now) d = create now d.ledger

  unfoldable pub run : List Act → Desk → Desk
  run [] d = d
  run (a ∷ acts) d = run acts (act a d)

  act-Guarded : (a : Act) (d : Desk) → Guarded d → Guarded (act a d)
  unfolding act reconcile_key on_notice maybe_close
  act-Guarded (request now day asked) d g =
      submit-Guarded valid_id valid_symbol cfg now day asked d g
  act-Guarded (price_answer now answered) d g = on_price_at cfg now answered d d.stage refl g
  act-Guarded (totals_answer now answered) d g = on_totals_at now answered d d.stage refl g
  act-Guarded (order_answer now reply) d g = on_reply_at now reply d d.stage refl g
  act-Guarded (reconciliation now k t) d g =
      Guarded-Calm d (reconcile_key share now k t d) refl (apply_totals-Calm share now k t d.ledger)
        (apply_totals-Sound share now k t d.ledger g.booked.sound) g
  act-Guarded (notice_of_fill now day odno qty price key) d g =
      Guarded-Calm d (on_notice now day odno qty price key d) refl
        (apply_notice-Calm now day odno qty price key d.ledger g.booked.sound.accounts)
        (apply_notice-Sound now day odno qty price key d.ledger g.booked.sound) g
  act-Guarded (day_end now day breaks) d g =
      Guarded-Calm d (maybe_close now day breaks d) refl (close_day-Calm now day breaks d.ledger)
        (close_day-Sound now day breaks d.ledger g.booked.sound) g
  act-Guarded (restart now) d g = create-Guarded now d.ledger g.booked

  run_keeps : (acts : List Act) (d : Desk) → Guarded d → Guarded (run acts d)
  unfolding run
  run_keeps [] d g = g
  run_keeps (a ∷ acts) d g = run_keeps acts (act a d) (act-Guarded a d g)

  empty-Booked : Booked empty
  unfolding sum_of
  empty-Booked = record { sound = empty-Sound; once = λ k. omega arith; single = λ c. omega arith }

  -- Whatever requests, answers of the broker, reconciliations, notices, closes of the day and
  -- restarts come in whatever order after the desk has started on an empty ledger, at most one
  -- order of each key is open and each client order id has at most one order.
  pub run-create-once :
      (acts : List Act) (now : ℕ) (k : Key) (client : ℕ)
      → (open_count k (run acts (create now empty)).ledger.orders ≤ 1)
        × (client_count client (run acts (create now empty)).ledger.orders ≤ 1)
  run-create-once acts now k client =
      let g = run_keeps acts (create now empty) (create-Guarded now empty empty-Booked) in
      (g.booked.once k, g.booked.single client)
