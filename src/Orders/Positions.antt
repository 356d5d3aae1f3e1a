-- ===== src/Orders/Positions.antt =====
-- src/mdfeed/ledger.py: a reconciliation of the holdings that finds nothing has compared everything.
use market_feed_platform.Prelude.{
  ℕ, ◌≡◌, ◌⊎◌, refl, sym, arith, inl, inr, Bool-cases, Bool, true, false, ◌||◌, List, [], ◌∷◌, ◌==◌,
}
use mathlib.Core.Path.{subst}
use market_feed_platform.Prelude.Int.{ℤ, pos, ◌-ℤ◌, eqb_ℤ, eq_of_parts, -ℤ_parts}
use market_feed_platform.Orders.{Side, buy, sell, Order, Ledger, sum_of}
use market_feed_platform.Orders.Holdings.{
  BaselineRow, Holdings, base_qty, filled_in, key, expected_qty, pending_qty, waits, broker_qty,
  base_symbols, order_symbols, broker_symbols, diff_of, explained_qty, mismatches,
  reconcile_holdings, among, among-insert,
}

base-absent :
    (date s : ℕ) (bs : List BaselineRow) (acc : List ℕ)
    → among s (base_symbols date bs acc) ≡ false
    → (base_qty date s bs ≡ 0) × (among s acc ≡ false)
unfolding base_symbols base_qty
base-absent date s [] acc e = (refl, e)
base-absent date s (b ∷ bs) acc e = elim (Bool-cases (b.trade_date == date)) [
  | inl today ↦
      let apart = among-insert s b.symbol (base_symbols date bs acc) in
      let rest = base-absent date s bs acc (ground (arith, today, e, apart)) in
      let other : (b.symbol == s) ≡ false = ground (arith, today, e, apart) in
      rw (today, other) rest
  | inr past ↦ rw past (base-absent date s bs acc (ground (arith, past, e)))
]

order-absent :
    (date s : ℕ) (os : List Order) (acc : List ℕ)
    → among s (order_symbols date os acc) ≡ false
    → ((side : Side) → filled_in (key date s side) os ≡ 0) × (among s acc ≡ false)
unfolding order_symbols sum_of
order-absent date s [] acc e = (λ side. refl, e)
order-absent date s (o ∷ os) acc e = elim (Bool-cases (o.key.trade_date == date)) [
  | inl today ↦
      let apart = among-insert s o.key.symbol (order_symbols date os acc) in
      let rest = order-absent date s os acc (ground (arith, today, e, apart)) in
      let other : (s == o.key.symbol) ≡ false = ground (arith, today, e, apart) in
      (λ side. ground (arith, other, rest.0 side), rest.1)
  | inr past ↦
      let rest = order-absent date s os acc (ground (arith, past, e)) in
      let other : (date == o.key.trade_date) ≡ false = ground (arith, past) in
      (λ side. ground (arith, other, rest.0 side), rest.1)
]

broker-absent :
    (s : ℕ) (qs : List (ℕ × ℕ)) → among s (broker_symbols qs) ≡ false → broker_qty s qs ≡ 0
unfolding broker_symbols broker_qty
broker-absent s [] e = refl
broker-absent s (q ∷ qs) e =
    let apart = among-insert s q.0 (broker_symbols qs) in
    let rest = broker-absent s qs (ground (arith, e, apart)) in
    let other : (q.0 == s) ≡ false = ground (arith, e, apart) in rw other rest

same_of_diff : (a b : ℤ) → eqb_ℤ (a -ℤ b) (pos 0) ≡ true → a ≡ b
same_of_diff a b e = eq_of_parts a b (ground (arith, -ℤ_parts a b, e))

or_second : (a b : Bool) → a ≡ false → (a || b) ≡ true → b ≡ true
or_second a b n e = ground (arith, n, e)

-- Where nothing is found, each symbol of the list is explained.
none_found :
    (date now : ℕ) (broker : List (ℕ × ℕ)) (h : Holdings) (l : Ledger) (ss : List ℕ) (s : ℕ)
    → mismatches date now broker h l ss ≡ []
    → among s ss ≡ true
    → explained_qty date s now broker h l ≡ true
unfolding mismatches among
none_found date now broker h l [] s e a = absurd (ground (arith, a))
none_found date now broker h l (x ∷ ss) s e a =
    elim (Bool-cases (explained_qty date x now broker h l)) [
      | inr found ↦ absurd (ground (arith, e, found))
      | inl fine ↦ elim (Bool-cases (s == x)) [
        | inl here ↦
            let same : s ≡ x = ground (arith, here) in
            subst (λ y. explained_qty date y now broker h l ≡ true) (sym same) fine
        | inr there ↦
            none_found date now broker h l ss s (ground (arith, e, fine)) (ground (arith, a, there))
      ]
    ]

explained_cases :
    (date s now : ℕ) (broker : List (ℕ × ℕ)) (h : Holdings) (l : Ledger)
    → explained_qty date s now broker h l ≡ true
    → (expected_qty date s h l.orders ≡ pos (broker_qty s broker))
      ⊎ (waits (diff_of date s broker h l) (pending_qty date s now l) ≡ true)
unfolding explained_qty
explained_cases date s now broker h l e =
    elim (Bool-cases (eqb_ℤ (diff_of date s broker h l) (pos 0))) [
      | inl nought ↦
          inl (same_of_diff (expected_qty date s h l.orders) (pos (broker_qty s broker)) nought)
      | inr other ↦ inr (
          or_second (eqb_ℤ (diff_of date s broker h l) (pos 0))
            (waits (diff_of date s broker h l) (pending_qty date s now l)) other e)
    ]

-- No row, no order and nothing at the broker.
absent_agrees :
    (date s : ℕ) (broker : List (ℕ × ℕ)) (h : Holdings) (l : Ledger)
    → among s (base_symbols date h.rows (order_symbols date l.orders (broker_symbols broker)))
      ≡ false
    → expected_qty date s h l.orders ≡ pos (broker_qty s broker)
absent_agrees date s broker h l a =
    let first = base-absent date s h.rows (order_symbols date l.orders (broker_symbols broker)) a in
    let second = order-absent date s l.orders (broker_symbols broker) first.1 in
    let third = broker-absent s broker second.1 in
    rw (first.0, second.0 buy, second.0 sell, third) (unfold ◌-ℤ◌ in refl)

-- When the reconciliation of the holdings finds nothing, the ledger agrees with the broker on every
-- symbol: what is held since the start of the day, with the day's buys and without its sells, is
-- what the broker holds, or else differs from it by no more than the recent notices, in their
-- direction.
pub reconcile_holdings-agrees :
    (date now : ℕ) (broker : List (ℕ × ℕ)) (h : Holdings) (l : Ledger) (s : ℕ)
    → reconcile_holdings date now broker h l ≡ []
    → (expected_qty date s h l.orders ≡ pos (broker_qty s broker))
      ⊎ (waits (diff_of date s broker h l) (pending_qty date s now l) ≡ true)
unfolding reconcile_holdings
reconcile_holdings-agrees date now broker h l s e =
    let symbols = base_symbols date h.rows (order_symbols date l.orders (broker_symbols broker)) in
    elim (Bool-cases (among s symbols)) [
      | inl there ↦
          explained_cases date s now broker h l (none_found date now broker h l symbols s e there)
      | inr absent ↦ inl (absent_agrees date s broker h l absent)
    ]
