-- ===== src/Orders/Accounts.antt =====
-- The order ledger's accounts: no order is filled beyond its quantity, the table of fills gives
-- each order its fills, and no two orders have one id.
use market_feed_platform.Prelude.{
  ℕ, ◌+◌, ◌-◌, ◌≤◌, ◌≡◌, refl, sym, ◌∙◌, arith, inl, inr, Bool-cases, Bool, true, false, not, ◌&&◌,
  List, [], ◌∷◌, ◌++◌, ◌==◌, if◌then◌else◌,
}
use mathlib.Core.Path.{subst}
use market_feed_platform.Prelude.Int.{ℤ, ◌-ℤ◌}
use market_feed_platform.Orders.{Key, Order, Fill, day_totals, update}
use market_feed_platform.Orders.Reconcile.{open_in, fill_order, allocate}
use market_feed_platform.Orders.Allocate.{given, paid, room_in}

-- What the rows of fills give an order.
unfoldable pub filled_by_rows : ℕ → List Fill → ℕ
filled_by_rows oid [] = 0
filled_by_rows oid (f ∷ fs) = (if f.order_id == oid then f.qty else 0) + filled_by_rows oid fs

abbrev pub Absent : ℕ → List Order → Type 0
Absent oid [] = Unit
Absent oid (o ∷ os) = ((oid == o.id) ≡ false) × Absent oid os

abbrev pub Accounts : List Fill → List Order → Type 0
Accounts fs [] = Unit
Accounts fs (o ∷ os) =
    (o.filled_qty ≤ o.qty)
    × (filled_by_rows o.id fs ≡ o.filled_qty)
    × Absent o.id os
    × Accounts fs os

pub filled_by_rows-append :
    (oid : ℕ) (fs gs : List Fill)
    → filled_by_rows oid (fs ++ gs) ≡ filled_by_rows oid fs + filled_by_rows oid gs
unfolding filled_by_rows
filled_by_rows-append oid [] gs = omega arith
filled_by_rows-append oid (f ∷ fs) gs = omega (arith, filled_by_rows-append oid fs gs)

-- Rows of fills for an order that is not among them do not touch the orders' accounts.
pub Accounts-other :
    (oid : ℕ) (fs gs : List Fill) (os : List Order)
    → Absent oid os
    → ((n : ℕ) → (oid == n) ≡ false → filled_by_rows n gs ≡ filled_by_rows n fs)
    → Accounts fs os
    → Accounts gs os
Accounts-other oid fs gs [] a e h = tt
Accounts-other oid fs gs (o ∷ os) a e h =
    (h.0, omega (arith, e o.id a.0, h.1), h.2, Accounts-other oid fs gs os a.1 e h.3)

-- A row between others touches only its own order.
between :
    (oid : ℕ) (fs : List Fill) (row : Fill) (gs : List Fill)
    → row.order_id ≡ oid
    → (n : ℕ) → (oid == n) ≡ false
    → filled_by_rows n (fs ++ (row ∷ gs)) ≡ filled_by_rows n (fs ++ gs)
unfolding filled_by_rows
between oid [] row gs r n e = ground (arith, r, e)
between oid (f ∷ fs) row gs r n e = omega (arith, between oid fs row gs r n e)

-- An update that changes neither ids nor quantities nor fills keeps the accounts.
module _ (p : Order → Bool) (f : Order → Order)
    (same : (o : Order)
      → ((f o).id ≡ o.id) × ((f o).qty ≡ o.qty) × ((f o).filled_qty ≡ o.filled_qty)) where
  Absent-update : (oid : ℕ) (os : List Order) → Absent oid os → Absent oid (update p f os)
  unfolding update
  Absent-update oid [] a = tt
  Absent-update oid (o ∷ os) a = (ground (arith, a.0, same o), Absent-update oid os a.1)

  pub Accounts-update :
      (fs : List Fill) (os : List Order) → Accounts fs os → Accounts fs (update p f os)
  unfolding update
  Accounts-update fs [] h = tt
  Accounts-update fs (o ∷ os) h = elim (Bool-cases (p o)) [
    | inr e ↦ rw e (h.0, h.1, Absent-update o.id os h.2, Accounts-update fs os h.3)
    | inl e ↦
        let s = same o in
        rw e (
          omega (arith, h.0, s.1, s.2),
          subst (λ n. filled_by_rows n fs ≡ (f o).filled_qty) (sym s.0) (h.1 ∙ sym s.2),
          subst (λ n. Absent n (update p f os)) (sym s.0) (Absent-update o.id os h.2),
          Accounts-update fs os h.3,
        )
  ]

-- The row of `fills` for what a round of the loop gives.
abbrev paid_row : ℕ → (ℕ → ℤ) → ℕ → ℤ → Order → Fill
paid_row now share left amt_left o = record {
  order_id = o.id;
  qty = given left o;
  amt = paid share left amt_left o;
  source = day_totals;
  ts = now;
}

module _ (k : Key) (now : ℕ) (share : ℕ → ℤ) where
  pub skipped :
      (left : ℕ) (amt_left : ℤ) (o : Order) (os : List Order)
      → (open_in k o && not (left == 0)) ≡ false
      → allocate k now share left amt_left (o ∷ os)
        ≡ (o ∷ (allocate k now share left amt_left os).0, (allocate k now share left amt_left os).1)
  unfolding allocate
  skipped left amt_left o os e = rw e refl

  pub served :
      (left : ℕ) (amt_left : ℤ) (o : Order) (os : List Order)
      → (open_in k o && not (left == 0)) ≡ true
      → let rest =
          allocate k now share (left - given left o) (amt_left -ℤ paid share left amt_left o) os in
        allocate k now share left amt_left (o ∷ os) ≡ (
          fill_order now (given left o) (paid share left amt_left o) o ∷ rest.0,
          paid_row now share left amt_left o ∷ rest.1,
        )
  unfolding allocate
  served left amt_left o os e = rw e refl

  Absent-allocate :
      (oid left : ℕ) (amt_left : ℤ) (os : List Order)
      → Absent oid os
      → Absent oid (allocate k now share left amt_left os).0
  Absent-allocate oid left amt_left [] a = unfold allocate in tt
  Absent-allocate oid left amt_left (o ∷ os) a =
      elim (Bool-cases (open_in k o && not (left == 0))) [
        | inr e ↦ rw (skipped left amt_left o os e) (a.0, Absent-allocate oid left amt_left os a.1)
        | inl e ↦ rw (served left amt_left o os e) (
          unfold fill_order in a.0,
          Absent-allocate oid (left - given left o) (amt_left -ℤ paid share left amt_left o) os a.1,
        )
      ]

  pub unpaid :
      (oid left : ℕ) (amt_left : ℤ) (os : List Order)
      → Absent oid os
      → filled_by_rows oid (allocate k now share left amt_left os).1 ≡ 0
  unfolding filled_by_rows
  unpaid oid left amt_left [] a = unfold allocate in refl
  unpaid oid left amt_left (o ∷ os) a = elim (Bool-cases (open_in k o && not (left == 0))) [
    | inr e ↦ rw (skipped left amt_left o os e) (unpaid oid left amt_left os a.1)
    | inl e ↦
        let rest =
          unpaid oid (left - given left o) (amt_left -ℤ paid share left amt_left o) os a.1 in
        rw (served left amt_left o os e) (ground (arith, rest, a.0))
  ]

  -- The loop keeps the accounts, with the rows that it adds.
  pub Accounts-allocate :
      (fs : List Fill) (left : ℕ) (amt_left : ℤ) (os : List Order)
      → Accounts fs os
      → Accounts
          (fs ++ (allocate k now share left amt_left os).1)
          (allocate k now share left amt_left os).0
  Accounts-allocate fs left amt_left [] h = unfold allocate in tt
  Accounts-allocate fs left amt_left (o ∷ os) h =
      elim (Bool-cases (open_in k o && not (left == 0))) [
        | inr e ↦
            let rest = allocate k now share left amt_left os in
            let more = filled_by_rows-append o.id fs rest.1 in
            rw (skipped left amt_left o os e) (
              h.0,
              omega (arith, more, h.1, unpaid o.id left amt_left os h.2),
              Absent-allocate o.id left amt_left os h.2,
              Accounts-allocate fs left amt_left os h.3,
            )
        | inl e ↦
            let opened : open_in k o ≡ true = ground (arith, e) in
            let n = given left o in
            let amt = paid share left amt_left o in
            let rest = allocate k now share (left - n) (amt_left -ℤ amt) os in
            let row = paid_row now share left amt_left o in
            let more = filled_by_rows-append o.id fs (row ∷ rest.1) in
            let none_else = unpaid o.id (left - n) (amt_left -ℤ amt) os h.2 in
            let absent = Absent-allocate o.id (left - n) (amt_left -ℤ amt) os h.2 in
            rw (served left amt_left o os e) (
              unfold fill_order in ground (arith, room_in k o opened),
              unfold fill_order in unfold filled_by_rows in ground (arith, more, h.1, none_else),
              unfold fill_order in absent,
              Accounts-other o.id (fs ++ rest.1) (fs ++ (row ∷ rest.1)) rest.0 absent
                  (between o.id fs row rest.1 refl)
                  (Accounts-allocate fs (left - n) (amt_left -ℤ amt) os h.3),
            )
      ]
