-- ===== src/Orders/Noticing.antt =====
-- `apply_notice` keeps the order ledger sound.
use market_feed_platform.Prelude.{
  ℕ, ◌+◌, ◌-◌, ◌*◌, ◌≤◌, ◌≡◌, refl, sym, ◌∙◌, arith, inl, inr, Bool-cases, Option-cases, some_inj,
  ==_refl, Bool, false, not, ◌||◌, some, List, [], ◌∷◌, ◌++◌, ltb, ◌==◌,
}
use mathlib.Core.Path.{subst}
use market_feed_platform.Prelude.Int.{ℤ, pos}
use market_feed_platform.Orders.{Order, Fill, notice, Ledger, update, first, is_fillable}
use market_feed_platform.Orders.Reconcile.{fill_order}
use market_feed_platform.Orders.Accounts.{
  filled_by_rows, filled_by_rows-append, Absent, Accounts, Accounts-other,
}
use market_feed_platform.Orders.Notice.{apply_notice, attach, has_odno, lstrip_zeros, has_key}
use market_feed_platform.Orders.Sound.{
  Sound, Below, Absent-above, tables-Sound, Owned-later, Owned-append,
}
use market_feed_platform.Orders.Close.{has_id}
use market_feed_platform.Prelude.{true}

-- The order that a query finds is not one whose id is absent, and it has the property.
pub first-Absent :
    (p : Order → Bool) (os : List Order) (o : Order) (i : ℕ)
    → first p os ≡ some o
    → Absent i os
    → (o.id == i) ≡ false
unfolding first
first-Absent p [] o i e a = absurd (ground (arith, e))
first-Absent p (x ∷ os) o i e a = elim (Bool-cases (p x)) [
  | inl hit ↦
      let same : x ≡ o = some_inj (ground (arith, hit, e)) in
      subst (λ y. (y.id == i) ≡ false) same (ground (arith, a.0))
  | inr miss ↦ first-Absent p os o i (ground (arith, miss, e)) a.1
]

-- Where an id is absent, its update changes nothing.
pub update-Absent :
    (i : ℕ) (f : Order → Order) (os : List Order) → Absent i os → update (λ o. o.id == i) f os ≡ os
unfolding update
update-Absent i f [] a = refl
update-Absent i f (o ∷ os) a =
    let e : (o.id == i) ≡ false = ground (arith, a.0) in rw (e, update-Absent i f os a.1) refl

Absent-notice :
    (now qty i j : ℕ) (amt : ℤ) (os : List Order)
    → Absent j os
    → Absent j (update (λ o. o.id == i) (fill_order now qty amt) os)
unfolding update fill_order
Absent-notice now qty i j amt [] a = tt
Absent-notice now qty i j amt (o ∷ os) a =
    (ground (arith, a.0), Absent-notice now qty i j amt os a.1)

Below-notice :
    (now qty i n : ℕ) (amt : ℤ) (os : List Order)
    → Below n os
    → Below n (update (λ o. o.id == i) (fill_order now qty amt) os)
unfolding update fill_order
Below-notice now qty i n amt [] b = tt
Below-notice now qty i n amt (o ∷ os) b = (ground (arith, b.0), Below-notice now qty i n amt os b.1)

has_id-notice :
    (now qty i j : ℕ) (amt : ℤ) (os : List Order)
    → has_id j os ≡ true
    → has_id j (update (λ o. o.id == i) (fill_order now qty amt) os) ≡ true
unfolding update fill_order has_id
has_id-notice now qty i j amt [] h = absurd (ground (arith, h))
has_id-notice now qty i j amt (o ∷ os) h = ground (arith, h, has_id-notice now qty i j amt os)

-- The order that a query finds exists.
has_id-first :
    (p : Order → Bool) (os : List Order) (o : Order) → first p os ≡ some o → has_id o.id os ≡ true
unfolding first has_id
has_id-first p [] o e = absurd (ground (arith, e))
has_id-first p (x ∷ os) o e = elim (Bool-cases (p x)) [
  | inl hit ↦
      let same : x ≡ o = some_inj (ground (arith, hit, e)) in
      subst (λ y. (y.id == o.id || has_id o.id os) ≡ true) (sym same) (rw (==_refl o.id) refl)
  | inr miss ↦ ground (arith, has_id-first p os o (ground (arith, miss, e)))
]

module _ (now qty : ℕ) (amt : ℤ) (row : Fill) (fs : List Fill) (q : row.qty ≡ qty) where
  -- The row touches only the accounts of its order.
  other_rows :
      (i n : ℕ)
      → row.order_id ≡ i
      → (i == n) ≡ false
      → filled_by_rows n (fs ++ (row ∷ [])) ≡ filled_by_rows n fs
  unfolding filled_by_rows
  other_rows i n r e = ground (arith, filled_by_rows-append n fs (row ∷ []), r, e)

  own_row :
      (i : ℕ) → row.order_id ≡ i → filled_by_rows i (fs ++ (row ∷ [])) ≡ filled_by_rows i fs + qty
  unfolding filled_by_rows
  own_row i r = ground (arith, filled_by_rows-append i fs (row ∷ []), r, q)

  notice_head :
      (o : Order) (os : List Order)
      → row.order_id ≡ o.id
      → qty ≤ o.qty - o.filled_qty
      → Accounts fs (o ∷ os)
      → Accounts (fs ++ (row ∷ [])) (fill_order now qty amt o ∷ os)
  unfolding fill_order
  notice_head o os r le h = (
    omega (arith, le, h.0),
    omega (arith, own_row o.id r, h.1),
    h.2,
    Accounts-other o.id fs (fs ++ (row ∷ [])) os h.2 (λ n e. other_rows o.id n r e) h.3,
  )

  -- A notice that fits in the order found keeps the accounts, with the row that it adds.
  Accounts-notice :
      (p : Order → Bool) (o : Order) (os : List Order)
      → first p os ≡ some o
      → row.order_id ≡ o.id
      → qty ≤ o.qty - o.filled_qty
      → Accounts fs os
      → Accounts (fs ++ (row ∷ [])) (update (λ r. r.id == o.id) (fill_order now qty amt) os)
  unfolding update first
  Accounts-notice p o [] e r le h = tt
  Accounts-notice p o (x ∷ os) e r le h = elim (Bool-cases (p x)) [
    | inl hit ↦
        let same : x ≡ o = some_inj (ground (arith, hit, e)) in
        let h' = subst (λ y. Accounts fs (y ∷ os)) same h in
        subst
          (λ y.
            Accounts (fs ++ (row ∷ []))
              (update (λ r. r.id == o.id) (fill_order now qty amt) (y ∷ os)))
          (sym same)
          (rw (==_refl o.id, update-Absent o.id (fill_order now qty amt) os h'.2)
            (notice_head o os r le h'))
    | inr miss ↦
        let there : first p os ≡ some o = ground (arith, miss, e) in
        let apart = first-Absent p os o x.id there h.2 in
        let apart' : (x.id == o.id) ≡ false = ground (arith, apart) in
        rw apart' (
          h.0,
          other_rows o.id x.id r apart ∙ h.1,
          Absent-notice now qty o.id x.id amt os h.2,
          Accounts-notice p o os there r le h.3,
        )
  ]

attach-Sound :
    (p : Order → Bool) (now qty price key : ℕ) (o : Order) (l : Ledger)
    → first p l.orders ≡ some o
    → Sound l
    → Sound (attach now qty price key o l).1
unfolding attach
attach-Sound p now qty price key o l e s =
    let row : Fill = record {
      order_id = o.id;
      qty = qty;
      amt = pos (qty * price);
      source = notice;
      ts = now;
    } in
    elim (Bool-cases (not (is_fillable o.state) || qty == 0 || ltb (o.qty - o.filled_qty) qty)) [
      | inl refused ↦ rw refused (tables-Sound l _ refl refl refl s)
      | inr taken ↦ rw taken (record {
        accounts =
            Accounts-notice now qty (pos (qty * price)) row l.fills refl p o l.orders e refl
              (ground (arith, taken)) s.accounts;
        below = Below-notice now qty o.id l.next_id (pos (qty * price)) l.orders s.below;
        owned =
            let amt = pos (qty * price) in
            let os' = update (λ r. r.id == o.id) (fill_order now qty amt) l.orders in
            Owned-append l.fills (row ∷ []) os'
              (Owned-later l.fills l.orders os' (λ i h. has_id-notice now qty o.id i amt l.orders h)
                s.owned)
              (has_id-notice now qty o.id o.id amt l.orders (has_id-first p l.orders o e), tt);
        fresh = λ n h.
            other_rows now qty (pos (qty * price)) row l.fills refl o.id n refl
              (first-Absent p l.orders o n e (Absent-above l.next_id n l.orders h s.below))
            ∙ s.fresh n h;
      })
    ]

pub apply_notice-Sound :
    (now date : ℕ) (odno : List ℕ) (qty price key : ℕ) (l : Ledger)
    → Sound l
    → Sound (apply_notice now date odno qty price key l).1
unfolding apply_notice
apply_notice-Sound now date odno qty price key l s = elim (Bool-cases (has_key key l.notices)) [
  | inl seen ↦ rw seen s
  | inr new ↦ elim (Option-cases (first (has_odno date (lstrip_zeros odno)) l.orders)) [
    | inl unknown_number ↦
        rw (new, unknown_number, apply_notice) (tables-Sound l _ refl refl refl s)
    | inr found ↦
        rw (new, found.1, apply_notice)
          (attach-Sound (has_odno date (lstrip_zeros odno)) now qty price key found.0 l found.1 s)
  ]
]
