-- ===== src/Orders/Settling.antt =====
-- `apply_totals` keeps the order ledger sound.
use market_feed_platform.Prelude.{
  ◌||◌, ℕ, ◌-◌, ◌≡◌, refl, arith, inl, inr, Bool-cases, Option-cases, not, ◌&&◌, List, [], ◌∷◌,
  ◌++◌, ltb, leb, ◌==◌,
}
use market_feed_platform.Prelude.Int.{ℤ, pos, ltb_ℤ, eqb_ℤ, pos_part, neg_part, ◌-ℤ◌}
use market_feed_platform.Orders.{accepted, not_sent, Key, Order, Totals, Ledger, sum_of}
use market_feed_platform.Orders.Reconcile.{
  unknown_in, extra_of, overdue, Explained, unexplained, explained, explain, accept_unknown,
  drop_overdue, fill_order, allocate, recent, delta_of, amt_delta_of, room_of, settle, finish,
  apply_totals, baseline_of, open_in,
}
use market_feed_platform.Orders.Allocate.{given, paid}
use market_feed_platform.Orders.Accounts.{
  filled_by_rows-append, Accounts-allocate, unpaid, skipped, served,
}
use market_feed_platform.Orders.Sound.{
  Sound, Below, Absent-above, state-Sound, Owned, Owned-later, Owned-append,
}
use market_feed_platform.Orders.Close.{has_id}
use market_feed_platform.Prelude.{true, ==_refl}

-- The part on fills.
module _ (k : Key) (now : ℕ) (share : ℕ → ℤ) where
  allocate-Below :
      (n left : ℕ) (amt_left : ℤ) (os : List Order)
      → Below n os
      → Below n (allocate k now share left amt_left os).0
  allocate-Below n left amt_left [] b = unfold allocate in tt
  allocate-Below n left amt_left (o ∷ os) b = elim (Bool-cases (open_in k o && not (left == 0))) [
    | inr e ↦
        rw (skipped k now share left amt_left o os e) (b.0, allocate-Below n left amt_left os b.1)
    | inl e ↦ rw (served k now share left amt_left o os e) (
      unfold fill_order in b.0,
      allocate-Below n (left - given left o) (amt_left -ℤ paid share left amt_left o) os b.1,
    )
  ]

  has_id-fill_order :
      (i n : ℕ) (amt : ℤ) (o : Order) (os : List Order)
      → has_id i (fill_order now n amt o ∷ os) ≡ (o.id == i || has_id i os)
  unfolding has_id fill_order
  has_id-fill_order i n amt o os = refl

  has_id-allocate :
      (i left : ℕ) (amt_left : ℤ) (os : List Order)
      → has_id i os ≡ true
      → has_id i (allocate k now share left amt_left os).0 ≡ true
  unfolding has_id
  has_id-allocate i left amt_left [] h = absurd (ground (arith, h))
  has_id-allocate i left amt_left (o ∷ os) h = elim (Bool-cases (open_in k o && not (left == 0))) [
    | inr e ↦
        rw (skipped k now share left amt_left o os e)
          (ground (arith, h, has_id-allocate i left amt_left os))
    | inl e ↦
        let n = given left o in
        let amt = paid share left amt_left o in
        let rest = allocate k now share (left - n) (amt_left -ℤ amt) os in
        rw (served k now share left amt_left o os e, has_id-fill_order i n amt o rest.0)
          (ground (arith, h, has_id-allocate i (left - n) (amt_left -ℤ amt) os))
  ]

  -- The rows that the loop adds are for orders that it was given.
  allocate-Owned :
      (left : ℕ) (amt_left : ℤ) (os : List Order)
      → Owned (allocate k now share left amt_left os).1 os
  unfolding has_id
  allocate-Owned left amt_left [] = unfold allocate in tt
  allocate-Owned left amt_left (o ∷ os) = elim (Bool-cases (open_in k o && not (left == 0))) [
    | inr e ↦ rw (skipped k now share left amt_left o os e) (
        Owned-later (allocate k now share left amt_left os).1 os (o ∷ os) (λ i h. ground (arith, h))
          (allocate-Owned left amt_left os))
    | inl e ↦
        let n = given left o in
        let amt = paid share left amt_left o in
        let rest = allocate k now share (left - n) (amt_left -ℤ amt) os in
        rw (served k now share left amt_left o os e) (
          rw (==_refl o.id) refl,
          Owned-later rest.1 os (o ∷ os) (λ i h. ground (arith, h))
              (allocate-Owned (left - n) (amt_left -ℤ amt) os),
        )
  ]

module _ (share : ℤ → ℕ → ℕ → ℤ) where
  given-Sound :
      (k : Key) (now d : ℕ) (by : ℕ → ℤ) (amt : ℤ) (l l' : Ledger)
      → l'.orders ≡ (allocate k now by d amt l.orders).0
      → l'.fills ≡ l.fills ++ (allocate k now by d amt l.orders).1
      → l'.next_id ≡ l.next_id
      → Sound l
      → Sound l'
  given-Sound k now d by amt l l' eo ef en s = record {
    accounts = rw (eo, ef) (Accounts-allocate k now by l.fills d amt l.orders s.accounts);
    below = rw (eo, en) (allocate-Below k now by l.next_id d amt l.orders s.below);
    owned =
        let given = allocate k now by d amt l.orders in
        rw (eo, ef)
          (Owned-append l.fills given.1 given.0
            (Owned-later l.fills l.orders given.0
              (λ i h. has_id-allocate k now by i d amt l.orders h) s.owned)
            (Owned-later given.1 l.orders given.0
              (λ i h. has_id-allocate k now by i d amt l.orders h)
              (allocate-Owned k now by d amt l.orders)));
    fresh = λ n h. rw ef (
        omega (
          arith,
          filled_by_rows-append n l.fills (allocate k now by d amt l.orders).1,
          s.fresh n (omega (arith, en, h)),
          unpaid k now by n d amt l.orders
              (Absent-above l.next_id n l.orders (omega (arith, en, h)) s.below),
        ));
  }

  settle-Sound :
      (k : Key) (base broker : Totals) (now : ℕ) (l : Ledger)
      → Sound l
      → Sound (settle share k base broker now l).1
  unfolding settle
  settle-Sound k base broker now l s =
      let delta = delta_of k base broker l.orders in
      let d = pos_part delta in
      elim (Bool-cases (ltb_ℤ delta (pos 0))) [
        | inl below ↦ elim (Bool-cases (leb (neg_part delta) (recent k now l.orders l.notices))) [
          | inl waits ↦ rw (below, waits) s
          | inr breaks ↦ rw (below, breaks) s
        ]
        | inr above ↦ elim (Bool-cases (d == 0)) [
          | inl level ↦ rw (above, level) s
          | inr more ↦ elim (Bool-cases (ltb (room_of k l.orders) d)) [
            | inl over ↦ rw (above, more, over) s
            | inr fits ↦
                rw (above, more, fits)
                  (given-Sound k now d (λ n. share (amt_delta_of k base broker l.orders) n d)
                    (amt_delta_of k base broker l.orders) l _ refl refl refl s)
          ]
        ]
      ]

  abbrev Explained-Sound : Explained → Type 0
  Explained-Sound (unexplained n) = Unit
  Explained-Sound (explained bs l) = Sound l

  accept_unknown-Sound : (k : Key) (now : ℕ) (l : Ledger) → Sound l → Sound (accept_unknown k now l)
  unfolding accept_unknown
  accept_unknown-Sound k now l =
      state-Sound (unknown_in k) accepted now l (accept_unknown k now l) refl refl refl

  drop_overdue-Sound : (k : Key) (now : ℕ) (l : Ledger) → Sound l → Sound (drop_overdue k now l)
  unfolding drop_overdue
  drop_overdue-Sound k now l =
      state-Sound (overdue k now) not_sent now l (drop_overdue k now l) refl refl refl

  explain-Sound :
      (k : Key) (base broker : Totals) (now : ℕ) (l : Ledger)
      → Sound l
      → Explained-Sound (explain k base broker now l)
  unfolding explain
  explain-Sound k base broker now l s =
      let e = extra_of k base broker l.orders in
      let w = sum_of (unknown_in k) (λ o. o.qty) l.orders in
      elim (Bool-cases (ltb_ℤ (pos 0) e)) [
        | inl more ↦ elim (Bool-cases (eqb_ℤ (pos w) e)) [
          | inl same ↦ rw (more, same) (accept_unknown-Sound k now l s)
          | inr other ↦ rw (more, other) tt
        ]
        | inr enough ↦ rw enough (drop_overdue-Sound k now l s)
      ]

  finish-Sound :
      (k : Key) (base broker : Totals) (now : ℕ) (l : Ledger) (x : Explained)
      → Sound l
      → Explained-Sound x
      → Sound (finish share k base broker now l x).1
  finish-Sound k base broker now l (unexplained n) s h = s
  finish-Sound k base broker now l (explained bs l') s h = settle-Sound k base broker now l' h

  pub apply_totals-Sound :
      (now : ℕ) (k : Key) (broker : Totals) (l : Ledger)
      → Sound l
      → Sound (apply_totals share now k broker l).1
  unfolding apply_totals
  apply_totals-Sound now k broker l s = elim (Option-cases (baseline_of k l.baselines)) [
    | inl none_there ↦ rw (none_there, apply_totals) s
    | inr found ↦
        rw (found.1, apply_totals)
          (finish-Sound k found.0 broker now l (explain k found.0 broker now l) s
            (explain-Sound k found.0 broker now l s))
  ]
