-- ===== src/Orders/Sound.antt =====
-- The soundness of the order ledger, and that it does not depend on states, marks and closes.
use market_feed_platform.Prelude.{
  ℕ, ◌+◌, ◌≤◌, ◌<◌, ◌≡◌, refl, sym, ◌∙◌, arith, inl, inr, Bool-cases, Option-cases, Bool, false,
  Option, List, [], ◌∷◌, ◌++◌, ◌==◌,
}
use market_feed_platform.Orders.{
  true, State, unknown, expired, Key, Order, Fill, Totals, Ledger, empty, set_state, update,
  by_client_id, order_row, new_order, mark, recover_pending, is_pending, coalesce,
}
use market_feed_platform.Orders.Reconcile.{baseline_of, set_totals_baseline}
use market_feed_platform.Orders.Accounts.{filled_by_rows, Absent, Accounts, Accounts-update}
use market_feed_platform.Orders.Close.{has_id, close_day, expire, expires, orders_on, close_limit}

abbrev pub Below : ℕ → List Order → Type 0
Below n [] = Unit
Below n (o ∷ os) = (o.id < n) × Below n os

-- Each row of fills is for an order that exists.
abbrev pub Owned : List Fill → List Order → Type 0
Owned [] os = Unit
Owned (f ∷ fs) os = (has_id f.order_id os ≡ true) × Owned fs os

-- No order is filled beyond its quantity, each order's fills are its rows in the table of fills,
-- the ids differ and come before the next one, and each row is for an order that exists.
pub record Sound (l : Ledger) : Type 0 where
  pub accounts : Accounts l.fills l.orders
  pub below : Below l.next_id l.orders
  pub owned : Owned l.fills l.orders
  pub fresh : (n : ℕ) → l.next_id ≤ n → filled_by_rows n l.fills ≡ 0

pub empty-Sound : Sound empty
unfolding filled_by_rows
empty-Sound = record { accounts = tt; below = tt; owned = tt; fresh = λ n h. refl }

pub Owned-later :
    (fs : List Fill) (xs ys : List Order)
    → ((i : ℕ) → has_id i xs ≡ true → has_id i ys ≡ true)
    → Owned fs xs
    → Owned fs ys
Owned-later [] xs ys go h = tt
Owned-later (f ∷ fs) xs ys go h = (go f.order_id h.0, Owned-later fs xs ys go h.1)

pub Owned-append :
    (fs gs : List Fill) (os : List Order) → Owned fs os → Owned gs os → Owned (fs ++ gs) os
Owned-append [] gs os h h' = h'
Owned-append (f ∷ fs) gs os h h' = (h.0, Owned-append fs gs os h.1 h')

has_id-append : (i : ℕ) (xs ys : List Order) → has_id i xs ≡ true → has_id i (xs ++ ys) ≡ true
unfolding has_id
has_id-append i [] ys h = absurd (ground (arith, h))
has_id-append i (x ∷ xs) ys h = ground (arith, h, has_id-append i xs ys)

pub Absent-above : (n m : ℕ) (os : List Order) → n ≤ m → Below n os → Absent m os
Absent-above n m [] h b = tt
Absent-above n m (o ∷ os) h b = (ground (arith, h, b.0), Absent-above n m os h b.1)

-- The new row.
append-Absent :
    (i : ℕ) (os : List Order) (o : Order)
    → (i == o.id) ≡ false
    → Absent i os
    → Absent i (os ++ (o ∷ []))
append-Absent i [] o e a = (e, tt)
append-Absent i (x ∷ os) o e a = (a.0, append-Absent i os o e a.1)

append-Accounts :
    (fs : List Fill) (os : List Order) (o : Order)
    → o.filled_qty ≡ 0
    → filled_by_rows o.id fs ≡ 0
    → Below o.id os
    → Accounts fs os
    → Accounts fs (os ++ (o ∷ []))
append-Accounts fs [] o z f b h = (omega (arith, z), f ∙ sym z, tt, tt)
append-Accounts fs (x ∷ os) o z f b h = (
  h.0,
  h.1,
  append-Absent x.id os o (ground (arith, b.0)) h.2,
  append-Accounts fs os o z f b.1 h.3,
)

append-Below : (os : List Order) (o : Order) → Below o.id os → Below (o.id + 1) (os ++ (o ∷ []))
append-Below [] o b = (omega arith, tt)
append-Below (x ∷ os) o b = (omega (arith, b.0), append-Below os o b.1)

pub new_order-Sound :
    (now coid : ℕ) (k : Key) (qty price est : ℕ) (l : Ledger)
    → Sound l
    → Sound (new_order now coid k qty price est l).1
unfolding new_order order_row
new_order-Sound now coid k qty price est l s = elim (Option-cases (by_client_id coid l.orders)) [
  | inr found ↦ rw (found.1, new_order) s
  | inl new ↦ elim (Bool-cases (qty == 0)) [
    | inl e ↦ rw (new, e, new_order) s
    | inr e ↦
        rw (new, e, new_order)
          (record {
            accounts =
                append-Accounts l.fills l.orders (order_row l.next_id coid k qty price est now) refl
                  (s.fresh l.next_id (omega arith)) s.below s.accounts;
            below = append-Below l.orders (order_row l.next_id coid k qty price est now) s.below;
            owned =
                Owned-later l.fills l.orders _
                  (λ i h.
                    has_id-append i l.orders (order_row l.next_id coid k qty price est now ∷ []) h)
                  s.owned;
            fresh = λ n h. s.fresh n (omega (arith, h));
          })
  ]
]

-- An update of the orders that changes neither ids nor quantities nor fills.
module _ (p : Order → Bool) (f : Order → Order)
    (same : (o : Order)
      → ((f o).id ≡ o.id) × ((f o).qty ≡ o.qty) × ((f o).filled_qty ≡ o.filled_qty)) where
  update-Below : (n : ℕ) (os : List Order) → Below n os → Below n (update p f os)
  unfolding update
  update-Below n [] b = tt
  update-Below n (o ∷ os) b = (ground (arith, b.0, same o), update-Below n os b.1)

  has_id-update : (i : ℕ) (os : List Order) → has_id i os ≡ true → has_id i (update p f os) ≡ true
  unfolding has_id update
  has_id-update i [] h = absurd (ground (arith, h))
  has_id-update i (o ∷ os) h = ground (arith, h, has_id-update i os, same o)

  update-Sound :
      (l l' : Ledger)
      → l'.orders ≡ update p f l.orders
      → l'.fills ≡ l.fills
      → l'.next_id ≡ l.next_id
      → Sound l
      → Sound l'
  update-Sound l l' eo ef en s = record {
    accounts = rw (eo, ef) (Accounts-update p f same l.fills l.orders s.accounts);
    below = rw (eo, en) (update-Below l.next_id l.orders s.below);
    owned =
        rw (eo, ef)
          (Owned-later l.fills l.orders (update p f l.orders) (λ i h. has_id-update i l.orders h)
            s.owned);
    fresh = λ n h. rw ef (s.fresh n (omega (arith, en, h)));
  }

pub mark-Sound :
    (now oid : ℕ) (st : State) (odno : Option (List ℕ)) (l : Ledger)
    → Sound l
    → Sound (mark now oid st odno l)
unfolding mark
mark-Sound now oid st odno l =
    update-Sound (λ o. o.id == oid)
      (λ o. record o { state = st; odno = coalesce odno o.odno; updated_ts = now })
      (λ o. (refl, refl, refl)) l (mark now oid st odno l) refl refl refl

pub state-Sound :
    (p : Order → Bool) (st : State) (now : ℕ) (l l' : Ledger)
    → l'.orders ≡ update p (set_state st now) l.orders
    → l'.fills ≡ l.fills
    → l'.next_id ≡ l.next_id
    → Sound l
    → Sound l'
state-Sound p st now = update-Sound p (set_state st now) (λ o. (refl, refl, refl))

pub recover_pending-Sound : (now : ℕ) (l : Ledger) → Sound l → Sound (recover_pending now l)
unfolding recover_pending
recover_pending-Sound now l =
    state-Sound (λ o. is_pending o.state) unknown now l (recover_pending now l) refl refl refl

expire-Sound :
    (now date : ℕ) (rows : List Order) (l : Ledger) → Sound l → Sound (expire now date rows l)
unfolding expire
expire-Sound now date rows l =
    state-Sound (expires date rows) expired now l (expire now date rows l) refl refl refl

pub close_day-Sound : (now date n : ℕ) (l : Ledger) → Sound l → Sound (close_day now date n l).1
unfolding close_day
close_day-Sound now date n l s =
    ground (arith, s, expire-Sound now date (orders_on date close_limit l.orders) l s)

pub baseline-Sound :
    (k : Key) (t : Totals) (l : Ledger) → Sound l → Sound (set_totals_baseline k t l)
unfolding set_totals_baseline
baseline-Sound k t l s = elim (Option-cases (baseline_of k l.baselines)) [
  | inr found ↦ rw (found.1, set_totals_baseline) s
  | inl new ↦
      rw (new, set_totals_baseline)
        (record { accounts = s.accounts; below = s.below; owned = s.owned; fresh = s.fresh })
]

-- Nothing but the audit events, the notices, the day records or the baselines changes.
pub tables-Sound :
    (l l' : Ledger)
    → l'.orders ≡ l.orders
    → l'.fills ≡ l.fills
    → l'.next_id ≡ l.next_id
    → Sound l
    → Sound l'
tables-Sound l l' eo ef en s = record {
  accounts = rw (eo, ef) s.accounts;
  below = rw (eo, en) s.below;
  owned = rw (eo, ef) s.owned;
  fresh = λ n h. rw ef (s.fresh n (omega (arith, en, h)));
}
