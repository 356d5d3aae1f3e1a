-- ===== src/Desk/Counts.antt =====
-- src/mdfeed/services/order_desk.py and src/mdfeed/ledger.py: how many orders are open and how many
-- a client order id has, after a new order, a mark and a recovery.
use market_feed_platform.Prelude.{
  ℕ, ◌+◌, ◌≤◌, ◌≡◌, refl, sym, ap, ◌∙◌, arith, inl, inr, Bool-cases, Bool, true, ◌&&◌, Option, none,
  List, [], ◌∷◌, ◌++◌, ◌==◌, if◌then◌else◌,
}
use mathlib.Core.Path.{subst}
use market_feed_platform.Orders.{
  State, Side, buy, sell, side_eq, pending_submit, accepted, partial, filled, rejected, unknown,
  not_sent, expired, is_open, is_pending, Key, Order, Ledger, key_eq, set_state, update, sum_of,
  first, mark, recover_pending, coalesce,
}
use market_feed_platform.Orders.Sound.{Below}
use market_feed_platform.Desk.Calm.{open_count, client_count, PendingAt}

side_eq-same : (a b : Side) → side_eq a b ≡ true → a ≡ b
side_eq-same buy buy e = refl
side_eq-same buy sell e = absurd (ground (arith, e))
side_eq-same sell buy e = absurd (ground (arith, e))
side_eq-same sell sell e = refl

key_of : ℕ → ℕ → Side → Key
key_of d s x = record { trade_date = d; symbol = s; side = x }

key_eq-same : (a b : Key) → key_eq a b ≡ true → a ≡ b
unfolding key_of
key_eq-same a b e =
    let d : a.trade_date ≡ b.trade_date = ground (arith, e) in
    let s : a.symbol ≡ b.symbol = ground (arith, e) in
    let x = side_eq-same a.side b.side (ground (arith, e)) in
    ap (λ n. key_of n a.symbol a.side) d
    ∙ ap (λ n. key_of b.trade_date n a.side) s
    ∙ ap (λ y. key_of b.trade_date b.symbol y) x

module _ (p : Order → Bool) where
  sum_of-append :
      (os : List Order) (o : Order)
      → sum_of p (λ x. 1) (os ++ (o ∷ [])) ≡ sum_of p (λ x. 1) os + (if p o then 1 else 0)
  unfolding sum_of
  sum_of-append [] o = omega arith
  sum_of-append (x ∷ os) o = omega (arith, sum_of-append os o)

  pub none_found : (os : List Order) → first p os ≡ none → sum_of p (λ x. 1) os ≡ 0
  unfolding sum_of first
  none_found [] e = refl
  none_found (x ∷ os) e = elim (Bool-cases (p x)) [
    | inl hit ↦ absurd (ground (arith, hit, e))
    | inr miss ↦ rw miss (omega (arith, none_found os (ground (arith, miss, e))))
  ]

  pub none_counted : (os : List Order) → sum_of p (λ x. 1) os ≡ 0 → first p os ≡ none
  unfolding sum_of first
  none_counted [] e = refl
  none_counted (x ∷ os) e = elim (Bool-cases (p x)) [
    | inl hit ↦ absurd (ground (arith, hit, e))
    | inr miss ↦ rw miss (none_counted os (ground (arith, miss, e)))
  ]

-- A new order.
pub open_count-new :
    (k : Key) (os : List Order) (o : Order)
    → open_count o.key os ≡ 0
    → open_count k os ≤ 1
    → open_count k (os ++ (o ∷ [])) ≤ 1
open_count-new k os o z h = elim (Bool-cases (key_eq k o.key)) [
  | inl e ↦
      let same = key_eq-same k o.key e in
      let z' : open_count k os ≡ 0 = subst (λ j. open_count j os ≡ 0) (sym same) z in
      ground (arith, sum_of-append (λ x. key_eq k x.key && is_open x.state) os o, z')
  | inr e ↦ ground (arith, sum_of-append (λ x. key_eq k x.key && is_open x.state) os o, e, h)
]

pub client_count-new :
    (c : ℕ) (os : List Order) (o : Order)
    → client_count o.client_order_id os ≡ 0
    → client_count c os ≤ 1
    → client_count c (os ++ (o ∷ [])) ≤ 1
client_count-new c os o z h = elim (Bool-cases (o.client_order_id == c)) [
  | inl e ↦
      let same : o.client_order_id ≡ c = ground (arith, e) in
      let z' : client_count c os ≡ 0 = subst (λ j. client_count j os ≡ 0) same z in
      ground (arith, sum_of-append (λ x. x.client_order_id == c) os o, z')
  | inr e ↦ ground (arith, sum_of-append (λ x. x.client_order_id == c) os o, e, h)
]

pub PendingAt-new :
    (n : ℕ) (os : List Order) (o : Order)
    → is_pending o.state ≡ true
    → Below n os
    → PendingAt n (os ++ (o ∷ []))
PendingAt-new n [] o e b = (λ z. e, tt)
PendingAt-new n (x ∷ os) o e b = (λ z. absurd (omega (arith, z, b.0)), PendingAt-new n os o e b.1)

-- An update that keeps the key and the client order id, and opens only what was open.
module _ (p : Order → Bool) (f : Order → Order) where
  pub update-client_count :
      ((o : Order) → (f o).client_order_id ≡ o.client_order_id)
      → (c : ℕ) (os : List Order) → client_count c (update p f os) ≡ client_count c os
  unfolding update sum_of
  update-client_count same c [] = refl
  update-client_count same c (o ∷ os) = elim (Bool-cases (p o)) [
    | inl e ↦ rw (e, same o, update-client_count same c os) refl
    | inr e ↦ rw (e, update-client_count same c os) refl
  ]

  update-open_count :
      ((k : Key) (o : Order) → key_eq k (f o).key ≡ key_eq k o.key)
      → ((o : Order) → p o ≡ true → is_open o.state ≡ true)
      → (k : Key) (os : List Order) → open_count k (update p f os) ≤ open_count k os
  unfolding update sum_of
  update-open_count same was k [] = omega arith
  update-open_count same was k (o ∷ os) =
      let rest = update-open_count same was k os in
      elim (Bool-cases (p o)) [
        | inl e ↦ rw (e, same k o, was o e) (ground (arith, rest))
        | inr e ↦ rw e (ground (arith, rest))
      ]

pending-open : (s : State) → is_pending s ≡ true → is_open s ≡ true
pending-open pending_submit h = refl
pending-open accepted h = refl
pending-open partial h = refl
pending-open filled h = h
pending-open rejected h = h
pending-open unknown h = refl
pending-open not_sent h = h
pending-open expired h = h

pub open_count-recover :
    (k : Key) (now : ℕ) (l : Ledger)
    → open_count k (recover_pending now l).orders ≤ open_count k l.orders
unfolding recover_pending
open_count-recover k now l =
    update-open_count (λ o. is_pending o.state) (set_state unknown now) (λ j o. refl)
      (λ o e. pending-open o.state e) k l.orders

-- The mark of the order that waits.
abbrev marked : ℕ → State → Option (List ℕ) → Order → Order
marked now s odno o = record o { state = s; odno = coalesce odno o.odno; updated_ts = now }

open_count-marked :
    (k : Key) (now oid : ℕ) (s : State) (odno : Option (List ℕ)) (os : List Order)
    → PendingAt oid os
    → open_count k (update (λ o. o.id == oid) (marked now s odno) os) ≤ open_count k os
unfolding update sum_of
open_count-marked k now oid s odno [] h = omega arith
open_count-marked k now oid s odno (o ∷ os) h =
    let rest = open_count-marked k now oid s odno os h.1 in
    elim (Bool-cases (o.id == oid)) [
      | inl e ↦
          let was = pending-open o.state (h.0 (ground (arith, e))) in
          rw (e, was) (ground (arith, rest))
      | inr e ↦ rw e (ground (arith, rest))
    ]

pub open_count-mark :
    (k : Key) (now oid : ℕ) (s : State) (odno : Option (List ℕ)) (l : Ledger)
    → PendingAt oid l.orders
    → open_count k (mark now oid s odno l).orders ≤ open_count k l.orders
unfolding mark
open_count-mark k now oid s odno l h = open_count-marked k now oid s odno l.orders h

pub client_count-mark :
    (c now oid : ℕ) (s : State) (odno : Option (List ℕ)) (l : Ledger)
    → client_count c (mark now oid s odno l).orders ≡ client_count c l.orders
unfolding mark
client_count-mark c now oid s odno l =
    update-client_count (λ o. o.id == oid) (marked now s odno) (λ o. refl) c l.orders

pub client_count-recover :
    (c now : ℕ) (l : Ledger)
    → client_count c (recover_pending now l).orders ≡ client_count c l.orders
unfolding recover_pending
client_count-recover c now l =
    update-client_count (λ o. is_pending o.state) (set_state unknown now) (λ o. refl) c l.orders
