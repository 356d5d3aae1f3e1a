-- ===== src/Orders/Allocate.antt =====
-- The loop of `apply_totals` that shares out the fills gives away exactly what there is.
use market_feed_platform.Prelude.{
  ℕ, ◌+◌, ◌-◌, ◌≤◌, ◌<◌, ◌≡◌, refl, sym, arith, inl, inr, Bool-cases, true, false, not, ◌&&◌, List,
  [], ◌∷◌, ◌==◌, if◌then◌else◌,
}
use market_feed_platform.Prelude.Int.{ℤ, ◌-ℤ◌}
use market_feed_platform.Orders.{
  State, pending_submit, accepted, partial, filled, rejected, unknown, not_sent, expired, is_live,
  is_unknown, is_fillable, Key, Order, set_state, update, sum_of,
}
use market_feed_platform.Orders.Reconcile.{
  live_in, unknown_in, open_in, min, overdue, fill_order, allocate, room_of,
}

abbrev pub live_qty : Key → List Order → ℕ
live_qty k os = sum_of (live_in k) (λ o. o.qty) os

abbrev pub live_filled : Key → List Order → ℕ
live_filled k os = sum_of (live_in k) (λ o. o.filled_qty) os

fillable-live : (s : State) → is_fillable s ≡ true → is_live s ≡ true
fillable-live pending_submit h = h
fillable-live accepted h = refl
fillable-live partial h = refl
fillable-live filled h = refl
fillable-live rejected h = h
fillable-live unknown h = h
fillable-live not_sent h = h
fillable-live expired h = refl

unknown-live : (s : State) → is_unknown s ≡ true → is_live s ≡ false
unknown-live pending_submit h = refl
unknown-live accepted h = sym h
unknown-live partial h = sym h
unknown-live filled h = sym h
unknown-live rejected h = refl
unknown-live unknown h = refl
unknown-live not_sent h = refl
unknown-live expired h = sym h

-- An order that can be filled is live before and after.
live-open : (k : Key) (o : Order) → open_in k o ≡ true → live_in k o ≡ true
unfolding open_in live_in
live-open k o h = elim (Bool-cases (is_fillable o.state)) [
  | inl e ↦ ground (arith, h, fillable-live o.state e)
  | inr e ↦ ground (arith, h, e)
]

live-fill_order :
    (k : Key) (now n : ℕ) (amt : ℤ) (o : Order)
    → open_in k o ≡ true
    → live_in k (fill_order now n amt o) ≡ true
unfolding open_in live_in fill_order
live-fill_order k now n amt o h = ground (arith, h)

pub room_in : (k : Key) (o : Order) → open_in k o ≡ true → o.filled_qty < o.qty
unfolding open_in
room_in k o h = ground (arith, h)

qty_of-fill_order : (now n : ℕ) (amt : ℤ) (o : Order) → (fill_order now n amt o).qty ≡ o.qty
unfolding fill_order
qty_of-fill_order now n amt o = refl

filled_of-fill_order :
    (now n : ℕ) (amt : ℤ) (o : Order) → (fill_order now n amt o).filled_qty ≡ o.filled_qty + n
unfolding fill_order
filled_of-fill_order now n amt o = refl

-- What a round of the loop gives to an order.
abbrev pub given : ℕ → Order → ℕ
given left o = min (o.qty - o.filled_qty) left

abbrev pub paid : (ℕ → ℤ) → ℕ → ℤ → Order → ℤ
paid share left amt_left o = if given left o == left then amt_left else share (given left o)

module _ (k : Key) (now : ℕ) (share : ℕ → ℤ) where
  pub allocate_skip :
      (left : ℕ) (amt_left : ℤ) (o : Order) (os : List Order)
      → (open_in k o && not (left == 0)) ≡ false
      → (allocate k now share left amt_left (o ∷ os)).0
        ≡ o ∷ (allocate k now share left amt_left os).0
  unfolding allocate
  allocate_skip left amt_left o os e = rw e refl

  pub allocate_give :
      (left : ℕ) (amt_left : ℤ) (o : Order) (os : List Order)
      → (open_in k o && not (left == 0)) ≡ true
      → (allocate k now share left amt_left (o ∷ os)).0
        ≡ fill_order now (given left o) (paid share left amt_left o) o
          ∷ (allocate k now share
              (left - given left o)
              (amt_left -ℤ paid share left amt_left o)
              os).0
  unfolding allocate
  allocate_give left amt_left o os e = rw e refl

  -- The live orders have `left` more fills after the loop.
  pub live_filled-allocate :
      (left : ℕ) (amt_left : ℤ) (os : List Order)
      → left ≤ room_of k os
      → live_filled k (allocate k now share left amt_left os).0 ≡ live_filled k os + left
  unfolding sum_of room_of
  live_filled-allocate left amt_left [] h = unfold allocate in ground arith
  live_filled-allocate left amt_left (o ∷ os) h =
      elim (Bool-cases (open_in k o && not (left == 0))) [
        | inr e ↦ rw (allocate_skip left amt_left o os e) (
            let rest = live_filled-allocate left amt_left os (ground (arith, e, h)) in
            ground (arith, rest))
        | inl e ↦
            let opened : open_in k o ≡ true = ground (arith, e) in
            let n = given left o in
            let amt = paid share left amt_left o in
            let rest =
              live_filled-allocate (left - n) (amt_left -ℤ amt) os
                (ground (arith, opened, room_in k o opened, h)) in
            rw (allocate_give left amt_left o os e) (
              ground (
                arith,
                rest,
                room_in k o opened,
                live-open k o opened,
                live-fill_order k now n amt o opened,
                filled_of-fill_order now n amt o,
              ))
      ]

  pub live_qty-allocate :
      (left : ℕ) (amt_left : ℤ) (os : List Order)
      → live_qty k (allocate k now share left amt_left os).0 ≡ live_qty k os
  unfolding sum_of
  live_qty-allocate left amt_left [] = unfold allocate in refl
  live_qty-allocate left amt_left (o ∷ os) = elim (Bool-cases (open_in k o && not (left == 0))) [
    | inr e ↦
        rw (allocate_skip left amt_left o os e) (ground (arith, live_qty-allocate left amt_left os))
    | inl e ↦
        let opened : open_in k o ≡ true = ground (arith, e) in
        let n = given left o in
        let amt = paid share left amt_left o in
        let rest = live_qty-allocate (left - n) (amt_left -ℤ amt) os in
        rw (allocate_give left amt_left o os e) (
          ground (
            arith,
            rest,
            live-open k o opened,
            live-fill_order k now n amt o opened,
            qty_of-fill_order now n amt o,
          ))
  ]

-- An unknown order is not live, and is live once it is accepted.
unknown_row : (k : Key) (o : Order) → unknown_in k o ≡ true → live_in k o ≡ false
unfolding unknown_in live_in
unknown_row k o h = elim (Bool-cases (is_unknown o.state)) [
  | inl e ↦ ground (arith, h, unknown-live o.state e)
  | inr e ↦ ground (arith, h, e)
]

accepted_row :
    (k : Key) (now : ℕ) (o : Order)
    → unknown_in k o ≡ true
    → live_in k (set_state accepted now o) ≡ true
unfolding unknown_in live_in
accepted_row k now o h = ground (arith, h)

dropped_row : (k : Key) (now : ℕ) (o : Order) → live_in k (set_state not_sent now o) ≡ false
unfolding live_in
dropped_row k now o = ground arith

overdue-unknown : (k : Key) (now : ℕ) (o : Order) → overdue k now o ≡ true → unknown_in k o ≡ true
unfolding overdue
overdue-unknown k now o h = ground (arith, h)

-- Accepting the unknown orders adds them to the live ones.
pub live-accept :
    (k : Key) (now : ℕ) (os : List Order)
    → live_qty k (update (unknown_in k) (set_state accepted now) os)
      ≡ live_qty k os + sum_of (unknown_in k) (λ o. o.qty) os
unfolding sum_of update
live-accept k now [] = refl
live-accept k now (o ∷ os) = elim (Bool-cases (unknown_in k o)) [
  | inl e ↦ ground (arith, e, unknown_row k o e, accepted_row k now o e, live-accept k now os)
  | inr e ↦ ground (arith, e, live-accept k now os)
]

pub live-drop :
    (k : Key) (now : ℕ) (os : List Order)
    → live_qty k (update (overdue k now) (set_state not_sent now) os) ≡ live_qty k os
unfolding sum_of update
live-drop k now [] = refl
live-drop k now (o ∷ os) = elim (Bool-cases (overdue k now o)) [
  | inl e ↦ ground (
    arith,
    e,
    unknown_row k o (overdue-unknown k now o e),
    dropped_row k now o,
    live-drop k now os,
  )
  | inr e ↦ ground (arith, e, live-drop k now os)
]
