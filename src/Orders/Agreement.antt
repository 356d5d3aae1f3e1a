-- ===== src/Orders/Agreement.antt =====
-- `apply_totals` without a break leaves the ledger at the broker's totals.
use market_feed_platform.Prelude.{
  ℕ, ◌+◌, ◌≤◌, ◌<◌, ◌≡◌, ◌⊎◌, refl, sym, ap, ◌∙◌, arith, inl, inr, Bool-cases, true, false, some,
  List, [], ◌∷◌, ltb, leb, ◌==◌,
}
use mathlib.Core.Path.{subst}
use market_feed_platform.Prelude.Int.{ℤ, pos, negsuc, ltb_ℤ, eqb_ℤ, pos_part, neg_part, int_laws}
use market_feed_platform.Orders.{Key, Order, Totals, Ledger, sum_of}
use market_feed_platform.Orders.Reconcile.{
  unknown_in, accept_unknown, drop_overdue, Explained, unexplained, explained, extra_of, explain,
  recent, delta_of, amt_delta_of, room_of, settle, finish, apply_totals, baseline_of, Break,
}
use market_feed_platform.Orders.Allocate.{
  live_qty, live_filled, live-accept, live-drop, live_qty-allocate, live_filled-allocate,
}

negative : (d : ℤ) → ltb_ℤ d (pos 0) ≡ true → pos_part d ≡ 0
negative (pos n) h = ground arith
negative (negsuc n) h = refl

not_negative : (d : ℤ) → ltb_ℤ d (pos 0) ≡ false → neg_part d ≡ 0
not_negative (pos n) h = refl
not_negative (negsuc n) h = ground arith

extra_of_parts :
    (k : Key) (base broker : Totals) (os : List Order)
    → pos_part (extra_of k base broker os) + base.ord_qty + live_qty k os
      ≡ neg_part (extra_of k base broker os) + broker.ord_qty
unfolding extra_of
extra_of_parts k base broker os = omega int_laws

delta_of_parts :
    (k : Key) (base broker : Totals) (os : List Order)
    → pos_part (delta_of k base broker os) + base.ccld_qty + live_filled k os
      ≡ neg_part (delta_of k base broker os) + broker.ccld_qty
unfolding delta_of
delta_of_parts k base broker os = omega int_laws

-- What is known of the ledger after the part on orders.
abbrev Matched : Key → Totals → Totals → Explained → Type 0
Matched k base broker (unexplained n) = Unit
Matched k base broker (explained (b ∷ bs) l) = Unit
Matched k base broker (explained [] l) = live_qty k l.orders + base.ord_qty ≡ broker.ord_qty

explain-Matched :
    (k : Key) (base broker : Totals) (now : ℕ) (l : Ledger)
    → Matched k base broker (explain k base broker now l)
unfolding explain accept_unknown drop_overdue
explain-Matched k base broker now l =
    let e = extra_of k base broker l.orders in
    let w = sum_of (unknown_in k) (λ o. o.qty) l.orders in
    let parts = extra_of_parts k base broker l.orders in
    elim (Bool-cases (ltb_ℤ (pos 0) e)) [
      | inl more ↦ elim (Bool-cases (eqb_ℤ (pos w) e)) [
        | inl same ↦ rw (more, same) (ground (arith, parts, live-accept k now l.orders, more, same))
        | inr other ↦ rw (more, other) tt
      ]
      | inr enough ↦ elim (Bool-cases (ltb_ℤ e (pos 0))) [
        | inl less ↦ rw (enough, less) tt
        | inr equal ↦
            rw (enough, equal)
              (ground (arith, parts, live-drop k now l.orders, not_negative e equal, enough))
      ]
    ]

-- The ledger's fills are the broker's, or the broker is behind by no more than recent notices.
abbrev pub Filled : Key → Totals → Totals → ℕ → Ledger → Type 0
Filled k base broker now l =
    (live_filled k l.orders + base.ccld_qty ≡ broker.ccld_qty)
    ⊎ ((broker.ccld_qty < live_filled k l.orders + base.ccld_qty)
        × (live_filled k l.orders + base.ccld_qty
            ≤ broker.ccld_qty + recent k now l.orders l.notices))

-- What is known of the ledger after the part on fills.
abbrev Settled : Key → Totals → Totals → ℕ → Ledger → List Break × Ledger → Type 0
Settled k base broker now l (b ∷ bs, l') = live_qty k l'.orders ≡ live_qty k l.orders
Settled k base broker now l ([], l') =
    (live_qty k l'.orders ≡ live_qty k l.orders) × Filled k base broker now l'

settle-Settled :
    (share : ℤ → ℕ → ℕ → ℤ) (k : Key) (base broker : Totals) (now : ℕ) (l : Ledger)
    → Settled k base broker now l (settle share k base broker now l)
unfolding settle
settle-Settled share k base broker now l =
    let delta = delta_of k base broker l.orders in
    let d = pos_part delta in
    let parts = delta_of_parts k base broker l.orders in
    let by : ℕ → ℤ = λ n. share (amt_delta_of k base broker l.orders) n d in
    elim (Bool-cases (ltb_ℤ delta (pos 0))) [
      | inl below ↦
          let none_left = negative delta below in
          elim (Bool-cases (leb (neg_part delta) (recent k now l.orders l.notices))) [
            | inl waits ↦ rw (below, waits) (refl, ground (arith, parts, none_left, below, waits))
            | inr breaks ↦ rw (below, breaks) refl
          ]
      | inr above ↦
          let none_owed = not_negative delta above in
          elim (Bool-cases (d == 0)) [
            | inl level ↦ rw (above, level) (refl, inl (ground (arith, parts, none_owed, level)))
            | inr more ↦ elim (Bool-cases (ltb (room_of k l.orders) d)) [
              | inl over ↦ rw (above, more, over) refl
              | inr fits ↦
                  rw (above, more, fits)
                    (
                      live_qty-allocate k now by d (amt_delta_of k base broker l.orders) l.orders,
                      inl (
                          omega (
                            arith,
                            parts,
                            none_owed,
                            live_filled-allocate k now by d (amt_delta_of k base broker l.orders)
                                l.orders (ground (arith, fits)),
                          )),
                    )
            ]
          ]
    ]

Settled-end :
    (k : Key) (base broker : Totals) (now : ℕ) (l : Ledger) (r : List Break × Ledger)
    → live_qty k l.orders + base.ord_qty ≡ broker.ord_qty
    → Settled k base broker now l r
    → r.0 ≡ []
    → (live_qty k r.1.orders + base.ord_qty ≡ broker.ord_qty) × Filled k base broker now r.1
Settled-end k base broker now l ([], l') m s h = (omega (arith, m, s.0), s.1)
Settled-end k base broker now l (b ∷ bs, l') m s h = absurd (ground (arith, h))

finish-Settled :
    (share : ℤ → ℕ → ℕ → ℤ) (k : Key) (base broker : Totals) (now : ℕ) (l : Ledger) (x : Explained)
    → Matched k base broker x
    → (finish share k base broker now l x).0 ≡ []
    → (live_qty k (finish share k base broker now l x).1.orders + base.ord_qty ≡ broker.ord_qty)
      × Filled k base broker now (finish share k base broker now l x).1
finish-Settled share k base broker now l (unexplained n) m h = absurd (ground (arith, h))
finish-Settled share k base broker now l (explained (b ∷ bs) l') m h = absurd (ground (arith, h))
finish-Settled share k base broker now l (explained [] l') m h =
    Settled-end k base broker now l' (settle share k base broker now l') m
      (settle-Settled share k base broker now l') h

apply_totals_found :
    (share : ℤ → ℕ → ℕ → ℤ) (now : ℕ) (k : Key) (base broker : Totals) (l : Ledger)
    → baseline_of k l.baselines ≡ some base
    → apply_totals share now k broker l
      ≡ finish share k base broker now l (explain k base broker now l)
unfolding apply_totals
apply_totals_found share now k base broker l e = rw (e, apply_totals) refl

-- When `apply_totals` returns no break, the orders that the ledger holds to be at the broker add
-- up to the quantity that the broker reports since the baseline, and their fills to its fills, or
-- else the broker's fills are behind and the recent notices account for it.
pub apply_totals_agrees :
    (share : ℤ → ℕ → ℕ → ℤ) (now : ℕ) (k : Key) (base broker : Totals) (l : Ledger)
    → baseline_of k l.baselines ≡ some base
    → (apply_totals share now k broker l).0 ≡ []
    → let l' = (apply_totals share now k broker l).1 in
      (live_qty k l'.orders + base.ord_qty ≡ broker.ord_qty) × Filled k base broker now l'
apply_totals_agrees share now k base broker l e h =
    let same = apply_totals_found share now k base broker l e in
    subst
      (λ r. (live_qty k r.1.orders + base.ord_qty ≡ broker.ord_qty) × Filled k base broker now r.1)
      (sym same)
      (finish-Settled share k base broker now l (explain k base broker now l)
        (explain-Matched k base broker now l) (sym (ap (λ r. r.0) same) ∙ h))
