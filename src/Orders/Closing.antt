-- ===== src/Orders/Closing.antt =====
-- src/mdfeed/ledger.py: what `close_day` promises.
use market_feed_platform.Prelude.{
  zero, suc, take, ==_refl, ℕ, ◌≡◌, refl, sym, ap, ◌∙◌, arith, inl, inr, Bool-cases, Bool, false,
  ◌||◌, none, some, List, [], ◌∷◌, ◌++◌, ◌==◌, if◌then◌else◌,
}
use mathlib.Core.Path.{subst}
use market_feed_platform.Orders.{
  true, length, State, pending_submit, accepted, partial, filled, rejected, unknown, not_sent,
  expired, is_open, is_fillable, Order, Summary, Ledger, set_state, update,
}
use market_feed_platform.Prelude.{◌≤◌}
use market_feed_platform.Orders.Close.{
  Closed, closed, unknown_orders, breaks, day_close, dated, ids_of, newest_first, orders_on,
  close_limit, of_state, has_id, summary_of, is_unresolved, expires, expire, close_day,
}

-- No order has the property.
abbrev pub None : (Order → Bool) → List Order → Type 0
None p [] = Unit
None p (o ∷ os) = (p o ≡ false) × None p os

-- Every order of the day is among the rows.
abbrev pub Listed : ℕ → List Order → List Order → Type 0
Listed date rows [] = Unit
Listed date rows (o ∷ os) =
    ((o.key.trade_date == date) ≡ true → has_id o.id rows ≡ true) × Listed date rows os

has_id-append : (i : ℕ) (xs ys : List Order) → has_id i (xs ++ ys) ≡ (has_id i xs || has_id i ys)
unfolding has_id
has_id-append i [] ys = refl
has_id-append i (x ∷ xs) ys = ground (arith, has_id-append i xs ys)

Listed-append : (date : ℕ) (xs ys os : List Order) → Listed date xs os → Listed date (xs ++ ys) os
Listed-append date xs ys [] h = tt
Listed-append date xs ys (o ∷ os) h =
    (λ d. rw (has_id-append o.id xs ys, h.0 d) refl, Listed-append date xs ys os h.1)

Listed-newest_first : (date : ℕ) (os : List Order) → Listed date (newest_first date os) os
unfolding newest_first has_id
Listed-newest_first date [] = tt
Listed-newest_first date (o ∷ os) =
    let last = if o.key.trade_date == date then o ∷ [] else [] in
    (
      λ d. rw (d, has_id-append o.id (newest_first date os) (o ∷ []), ==_refl o.id) (ground arith),
      Listed-append date (newest_first date os) last os (Listed-newest_first date os),
    )

ids_of-append :
    (p : Order → Bool) (xs ys : List Order)
    → ids_of p (xs ++ ys) ≡ []
    → (ids_of p xs ≡ []) × (ids_of p ys ≡ [])
unfolding ids_of
ids_of-append p [] ys h = (refl, h)
ids_of-append p (x ∷ xs) ys h = ground (arith, h, ids_of-append p xs ys)

-- When no id is listed, no order of the day has the property.
None-ids_of :
    (date : ℕ) (p : State → Bool) (os : List Order)
    → ids_of (of_state p) (newest_first date os) ≡ []
    → None (dated date p) os
unfolding ids_of newest_first
None-ids_of date p [] h = tt
None-ids_of date p (o ∷ os) h =
    let parts =
      ids_of-append (of_state p) (newest_first date os)
        (if o.key.trade_date == date then o ∷ [] else []) h in
    (
      elim (Bool-cases (o.key.trade_date == date)) [
        | inr e ↦ ground (arith, e)
        | inl e ↦ elim (Bool-cases (p o.state)) [
          | inl q ↦ absurd (ground (arith, parts.1, e, q))
          | inr q ↦ ground (arith, e, q)
        ]
      ],
      None-ids_of date p os parts.0,
    )

take_all : {A : Type 0} (n : ℕ) (xs : List A) → length xs ≤ n → take n xs ≡ xs
take_all zero [] h = refl
take_all (suc n) [] h = refl
take_all zero (x ∷ xs) h = absurd (omega (arith, h))
take_all (suc n) (x ∷ xs) h = rw (take_all n xs (omega (arith, h))) refl

-- A state whose outcome is known is open only while it can be filled.
closed_state : (s : State) → is_unresolved s ≡ false → is_fillable s ≡ false → is_open s ≡ false
closed_state pending_submit u f = u
closed_state accepted u f = f
closed_state partial u f = f
closed_state filled u f = refl
closed_state rejected u f = refl
closed_state unknown u f = u
closed_state not_sent u f = refl
closed_state expired u f = refl

closed_row :
    (now date : ℕ) (rows : List Order) (o : Order)
    → dated date is_unresolved o ≡ false
    → ((o.key.trade_date == date) ≡ true → has_id o.id rows ≡ true)
    → dated date is_open (if expires date rows o then set_state expired now o else o) ≡ false
closed_row now date rows o u listed = elim (Bool-cases (o.key.trade_date == date)) [
  | inr e ↦ ground (arith, e)
  | inl e ↦ elim (Bool-cases (is_fillable o.state)) [
    | inl f ↦ ground (arith, e, f, listed e)
    | inr f ↦ ground (arith, e, f, closed_state o.state (ground (arith, e, u)) f)
  ]
]

expired-not-open :
    (now date : ℕ) (rows os : List Order)
    → None (dated date is_unresolved) os
    → Listed date rows os
    → None (dated date is_open) (update (expires date rows) (set_state expired now) os)
unfolding update
expired-not-open now date rows [] h listed = tt
expired-not-open now date rows (o ∷ os) h listed =
    (closed_row now date rows o h.0 listed.0, expired-not-open now date rows os h.1 listed.1)

-- The record of a close is there after it.
day_close-expire :
    (now date : ℕ) (rows : List Order) (l : Ledger)
    → day_close date (expire now date rows l).closes ≡ some (summary_of now rows)
unfolding expire day_close
day_close-expire now date rows l = ground arith

-- How a close comes to be.
close_day_inv :
    (now date open_breaks : ℕ) (l : Ledger) (s : Summary)
    → day_close date l.closes ≡ none
    → (close_day now date open_breaks l).0 ≡ closed s
    → (ids_of (of_state is_unresolved) (orders_on date close_limit l.orders) ≡ [])
      × (open_breaks ≡ 0)
      × (close_day now date open_breaks l ≡ (
        closed (summary_of now (orders_on date close_limit l.orders)),
        expire now date (orders_on date close_limit l.orders) l,
      ))
unfolding close_day
close_day_inv now date open_breaks l s fresh h = ground (arith, fresh, h)

again :
    (later date open_later : ℕ) (l : Ledger) (s : Summary)
    → day_close date l.closes ≡ some s
    → close_day later date open_later l ≡ (closed s, l)
unfolding close_day
again later date open_later l s e = ground (arith, e)

closed_inj : (s t : Summary) → closed s ≡ closed t → s ≡ t
closed_inj s t h = ap (λ c. elim c [ closed x ↦ x | unknown_orders ns ↦ s | breaks n ↦ s ]) h

-- The promise of a close, on what it returns.
abbrev pub Promise : ℕ → ℕ → Ledger → Summary → Closed × Ledger → Type 0
Promise later date l s r =
    None (dated date is_unresolved) l.orders
    × None (dated date is_open) r.1.orders
    × ((n : ℕ) → close_day later date n r.1 ≡ (closed s, r.1))

-- Let a day have at most 100,000 orders and not be closed.  It is closed only when no break is open
-- and the outcome of each of its orders is known.  After it none of its orders is open, and closing
-- it again, whatever breaks are open then, gives the same summary and changes nothing.
pub close_day_closed :
    (now date open_breaks later : ℕ) (l : Ledger) (s : Summary)
    → length (newest_first date l.orders) ≤ close_limit
    → day_close date l.closes ≡ none
    → (close_day now date open_breaks l).0 ≡ closed s
    → (open_breaks ≡ 0) × Promise later date l s (close_day now date open_breaks l)
close_day_closed now date open_breaks later l s few fresh h =
    let rows = orders_on date close_limit l.orders in
    let (listed, zero_breaks, e) = close_day_inv now date open_breaks l s fresh h in
    let same : summary_of now rows ≡ s =
      closed_inj (summary_of now rows) s (sym (ap (λ r. r.0) e) ∙ h) in
    let all : rows ≡ newest_first date l.orders =
      unfold orders_on in take_all close_limit (newest_first date l.orders) few in
    let known =
      None-ids_of date is_unresolved l.orders
        (subst (λ z. ids_of (of_state is_unresolved) z ≡ []) all listed) in
    let covered =
      subst (λ z. Listed date z l.orders) (sym all) (Listed-newest_first date l.orders) in
    (
      zero_breaks,
      subst (λ r. Promise later date l s r) (sym e)
          (
            known,
            unfold expire in expired-not-open now date rows l.orders known covered,
            λ n.
                again later date n (expire now date rows l) s
                  (day_close-expire now date rows l ∙ ap some same),
          ),
    )
