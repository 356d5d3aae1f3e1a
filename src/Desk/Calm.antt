-- ===== src/Desk/Calm.antt =====
-- src/mdfeed/services/order_desk.py and src/mdfeed/ledger.py: what the ledger does while a request
-- waits, seen from its rows.
use mathlib.Core.Path.{subst}
use market_feed_platform.Prelude.{
  ◌*◌, ==_refl, ltb, ◌||◌, leb, some_inj, ℕ, ◌-◌, ◌≤◌, ◌≡◌, refl, sym, ◌∙◌, arith, inl, inr,
  Bool-cases, Option-cases, Bool, true, false, not, ◌&&◌, some, List, [], ◌∷◌, ◌==◌,
}
use market_feed_platform.Prelude.Int.{neg_part, eqb_ℤ, pos, ltb_ℤ, pos_part, ℤ, ◌-ℤ◌}
use market_feed_platform.Orders.{
  State, pending_submit, accepted, partial, filled, rejected, unknown, not_sent, expired, is_open,
  is_fillable, is_unknown, is_pending, Key, Order, Fill, Totals, Ledger, key_eq, set_state, update,
  sum_of, first,
}
use market_feed_platform.Orders.Reconcile.{
  recent, amt_delta_of, extra_of, delta_of, open_in, unknown_in, overdue, fill_order, allocate,
  accept_unknown, drop_overdue, explain, explained, unexplained, Explained, settle, finish,
  apply_totals, baseline_of,
}
use market_feed_platform.Orders.Notice.{attach, apply_notice, has_key, has_odno, lstrip_zeros}
use market_feed_platform.Orders.Close.{expire, expires, close_day, orders_on, close_limit}
use market_feed_platform.Orders.Reconcile.{room_of}
use market_feed_platform.Orders.Noticing.{first-Absent, update-Absent}
use market_feed_platform.Orders.Allocate.{given, paid}
use market_feed_platform.Orders.Accounts.{Absent, Accounts, skipped, served}

-- The open orders of a key and the orders of a client order id, counted.
abbrev pub open_count : Key → List Order → ℕ
open_count k os = sum_of (λ o. key_eq k o.key && is_open o.state) (λ o. 1) os

abbrev pub client_count : ℕ → List Order → ℕ
client_count c os = sum_of (λ o. o.client_order_id == c) (λ o. 1) os

-- The rows with this id wait for the answer of the broker.
abbrev pub PendingAt : ℕ → List Order → Type 0
PendingAt oid [] = Unit
PendingAt oid (o ∷ os) = (o.id ≡ oid → is_pending o.state ≡ true) × PendingAt oid os

-- A row is the same order later, is open only if it was, and waits on if it did.
pub record Later (o o' : Order) : Type 0 where
  pub same_id : o'.id ≡ o.id
  pub same_key : (k : Key) → key_eq k o'.key ≡ key_eq k o.key
  pub same_client : o'.client_order_id ≡ o.client_order_id
  pub was_open : is_open o'.state ≡ true → is_open o.state ≡ true
  pub waits_on : is_pending o.state ≡ true → is_pending o'.state ≡ true

abbrev pub Calm : List Order → List Order → Type 0
Calm [] [] = Unit
Calm [] (o' ∷ os') = ⊥
Calm (o ∷ os) [] = ⊥
Calm (o ∷ os) (o' ∷ os') = Later o o' × Calm os os'

Later-refl : (o : Order) → Later o o
Later-refl o = record {
  same_id = refl;
  same_key = λ k. refl;
  same_client = refl;
  was_open = λ h. h;
  waits_on = λ h. h;
}

pub Calm-refl : (os : List Order) → Calm os os
Calm-refl [] = tt
Calm-refl (o ∷ os) = (Later-refl o, Calm-refl os)

Later-trans : (a b c : Order) → Later a b → Later b c → Later a c
Later-trans a b c f g = record {
  same_id = g.same_id ∙ f.same_id;
  same_key = λ k. g.same_key k ∙ f.same_key k;
  same_client = g.same_client ∙ f.same_client;
  was_open = λ h. f.was_open (g.was_open h);
  waits_on = λ h. g.waits_on (f.waits_on h);
}

pub Calm-trans : (xs ys zs : List Order) → Calm xs ys → Calm ys zs → Calm xs zs
Calm-trans [] [] [] f g = tt
Calm-trans [] [] (z ∷ zs) f g = absurd g
Calm-trans [] (y ∷ ys) zs f g = absurd f
Calm-trans (x ∷ xs) [] zs f g = absurd f
Calm-trans (x ∷ xs) (y ∷ ys) [] f g = absurd g
Calm-trans (x ∷ xs) (y ∷ ys) (z ∷ zs) f g = (Later-trans x y z f.0 g.0, Calm-trans xs ys zs f.1 g.1)

-- What a later table keeps.
open_row :
    (k : Key) (o o' : Order)
    → Later o o'
    → (key_eq k o.key && is_open o.state) ≡ false
    → (key_eq k o'.key && is_open o'.state) ≡ false
open_row k o o' f e = elim (Bool-cases (is_open o'.state)) [
  | inl h ↦ ground (arith, h, e, f.was_open h, f.same_key k)
  | inr h ↦ ground (arith, h)
]

pub open_count-Calm :
    (k : Key) (xs ys : List Order) → Calm xs ys → open_count k ys ≤ open_count k xs
unfolding sum_of
open_count-Calm k [] [] f = omega arith
open_count-Calm k [] (y ∷ ys) f = absurd f
open_count-Calm k (x ∷ xs) [] f = absurd f
open_count-Calm k (x ∷ xs) (y ∷ ys) f =
    let rest = open_count-Calm k xs ys f.1 in
    elim (Bool-cases (key_eq k x.key && is_open x.state)) [
      | inl e ↦ rw e (ground (arith, rest))
      | inr e ↦ rw (e, open_row k x y f.0 e) (omega (arith, rest))
    ]

pub client_count-Calm :
    (c : ℕ) (xs ys : List Order) → Calm xs ys → client_count c ys ≡ client_count c xs
unfolding sum_of
client_count-Calm c [] [] f = refl
client_count-Calm c [] (y ∷ ys) f = absurd f
client_count-Calm c (x ∷ xs) [] f = absurd f
client_count-Calm c (x ∷ xs) (y ∷ ys) f = rw (f.0.same_client, client_count-Calm c xs ys f.1) refl

pub PendingAt-Calm :
    (oid : ℕ) (xs ys : List Order) → Calm xs ys → PendingAt oid xs → PendingAt oid ys
PendingAt-Calm oid [] [] f p = tt
PendingAt-Calm oid [] (y ∷ ys) f p = absurd f
PendingAt-Calm oid (x ∷ xs) [] f p = absurd f
PendingAt-Calm oid (x ∷ xs) (y ∷ ys) f p =
    (λ e. f.0.waits_on (p.0 (sym f.0.same_id ∙ e)), PendingAt-Calm oid xs ys f.1 p.1)

-- An update of rows that are open and do not wait.
update-Calm :
    (p : Order → Bool) (f : Order → Order)
    → ((o : Order) → p o ≡ true → Later o (f o))
    → (os : List Order) → Calm os (update p f os)
unfolding update
update-Calm p f h [] = tt
update-Calm p f h (o ∷ os) = elim (Bool-cases (p o)) [
  | inl e ↦ rw e (h o e, update-Calm p f h os)
  | inr e ↦ rw e (Later-refl o, update-Calm p f h os)
]

unknown-open : (s : State) → is_unknown s ≡ true → (is_open s ≡ true) × (is_pending s ≡ false)
unknown-open pending_submit h = (refl, sym h)
unknown-open accepted h = (refl, refl)
unknown-open partial h = (refl, refl)
unknown-open filled h = (h, refl)
unknown-open rejected h = (h, refl)
unknown-open unknown h = (refl, refl)
unknown-open not_sent h = (h, refl)
unknown-open expired h = (h, refl)

fillable-open : (s : State) → is_fillable s ≡ true → (is_open s ≡ true) × (is_pending s ≡ false)
fillable-open pending_submit h = (refl, sym h)
fillable-open accepted h = (refl, refl)
fillable-open partial h = (refl, refl)
fillable-open filled h = (h, refl)
fillable-open rejected h = (h, refl)
fillable-open unknown h = (refl, refl)
fillable-open not_sent h = (h, refl)
fillable-open expired h = (h, refl)

Later-set_state :
    (s : State) (now : ℕ) (o : Order)
    → (is_open o.state ≡ true) × (is_pending o.state ≡ false)
    → Later o (set_state s now o)
Later-set_state s now o h = record {
  same_id = refl;
  same_key = λ k. refl;
  same_client = refl;
  was_open = λ e. h.0;
  waits_on = λ e. ground (arith, h.1, e);
}

pub Later-fill_order :
    (now n : ℕ) (amt : ℤ) (o : Order)
    → is_fillable o.state ≡ true
    → Later o (fill_order now n amt o)
unfolding fill_order
Later-fill_order now n amt o e =
    let h = fillable-open o.state e in
    record {
      same_id = refl;
      same_key = λ k. refl;
      same_client = refl;
      was_open = λ z. h.0;
      waits_on = λ z. ground (arith, h.1, z);
    }

open_in-fillable : (k : Key) (o : Order) → open_in k o ≡ true → is_fillable o.state ≡ true
unfolding open_in
open_in-fillable k o h = ground (arith, h)

allocate-Calm :
    (k : Key) (now : ℕ) (share : ℕ → ℤ) (left : ℕ) (amt_left : ℤ) (os : List Order)
    → Calm os (allocate k now share left amt_left os).0
allocate-Calm k now share left amt_left [] = unfold allocate in tt
allocate-Calm k now share left amt_left (o ∷ os) =
    elim (Bool-cases (open_in k o && not (left == 0))) [
      | inr e ↦
          rw (skipped k now share left amt_left o os e)
            (Later-refl o, allocate-Calm k now share left amt_left os)
      | inl e ↦
          let n = given left o in
          let amt = paid share left amt_left o in
          let fillable = open_in-fillable k o (ground (arith, e)) in
          rw (served k now share left amt_left o os e) (
            Later-fill_order now n amt o fillable,
            allocate-Calm k now share (left - n) (amt_left -ℤ amt) os,
          )
    ]

accept_unknown-Calm :
    (k : Key) (now : ℕ) (l : Ledger) → Calm l.orders (accept_unknown k now l).orders
unfolding accept_unknown unknown_in
accept_unknown-Calm k now l =
    update-Calm (unknown_in k) (set_state accepted now)
      (λ o e. Later-set_state accepted now o (unknown-open o.state (ground (arith, e)))) l.orders

drop_overdue-Calm : (k : Key) (now : ℕ) (l : Ledger) → Calm l.orders (drop_overdue k now l).orders
unfolding drop_overdue overdue unknown_in
drop_overdue-Calm k now l =
    update-Calm (overdue k now) (set_state not_sent now)
      (λ o e. Later-set_state not_sent now o (unknown-open o.state (ground (arith, e)))) l.orders

pub expire-Calm :
    (now date : ℕ) (rows : List Order) (l : Ledger) → Calm l.orders (expire now date rows l).orders
unfolding expire
expire-Calm now date rows l =
    update-Calm (expires date rows) (set_state expired now)
      (λ o e. Later-set_state expired now o (fillable-open o.state (ground (arith, e)))) l.orders

pub close_day-Calm : (now date n : ℕ) (l : Ledger) → Calm l.orders (close_day now date n l).1.orders
unfolding close_day
close_day-Calm now date n l =
    ground (arith, Calm-refl l.orders, expire-Calm now date (orders_on date close_limit l.orders) l)

module _ (share : ℤ → ℕ → ℕ → ℤ) where
  settle-Calm :
      (k : Key) (base broker : Totals) (now : ℕ) (l : Ledger)
      → Calm l.orders (settle share k base broker now l).1.orders
  unfolding settle
  settle-Calm k base broker now l =
      let delta = delta_of k base broker l.orders in
      let d = pos_part delta in
      let amt = amt_delta_of k base broker l.orders in
      elim (Bool-cases (ltb_ℤ delta (pos 0))) [
        | inl below ↦ elim (Bool-cases (leb (neg_part delta) (recent k now l.orders l.notices))) [
          | inl waits ↦ rw (below, waits) (Calm-refl l.orders)
          | inr breaks ↦ rw (below, breaks) (Calm-refl l.orders)
        ]
        | inr above ↦ elim (Bool-cases (d == 0)) [
          | inl level ↦ rw (above, level) (Calm-refl l.orders)
          | inr more ↦ elim (Bool-cases (ltb (room_of k l.orders) d)) [
            | inl over ↦ rw (above, more, over) (Calm-refl l.orders)
            | inr fits ↦
                rw (above, more, fits) (allocate-Calm k now (λ n. share amt n d) d amt l.orders)
          ]
        ]
      ]

  abbrev Explained-Calm : List Order → Explained → Type 0
  Explained-Calm os (unexplained n) = Unit
  Explained-Calm os (explained bs l) = Calm os l.orders

  explain-Calm :
      (k : Key) (base broker : Totals) (now : ℕ) (l : Ledger)
      → Explained-Calm l.orders (explain k base broker now l)
  unfolding explain
  explain-Calm k base broker now l =
      let extra = extra_of k base broker l.orders in
      let waiting = sum_of (unknown_in k) (λ o. o.qty) l.orders in
      elim (Bool-cases (ltb_ℤ (pos 0) extra)) [
        | inl more ↦ elim (Bool-cases (eqb_ℤ (pos waiting) extra)) [
          | inl all ↦ rw (more, all) (accept_unknown-Calm k now l)
          | inr some_of_them ↦ rw (more, some_of_them) tt
        ]
        | inr same ↦ rw same (drop_overdue-Calm k now l)
      ]

  finish-Calm :
      (k : Key) (base broker : Totals) (now : ℕ) (l : Ledger) (x : Explained)
      → Explained-Calm l.orders x
      → Calm l.orders (finish share k base broker now l x).1.orders
  finish-Calm k base broker now l (unexplained n) h = Calm-refl l.orders
  finish-Calm k base broker now l (explained bs l') h =
      Calm-trans l.orders l'.orders (settle share k base broker now l').1.orders h
        (settle-Calm k base broker now l')

  pub apply_totals-Calm :
      (now : ℕ) (k : Key) (broker : Totals) (l : Ledger)
      → Calm l.orders (apply_totals share now k broker l).1.orders
  unfolding apply_totals
  apply_totals-Calm now k broker l = elim (Option-cases (baseline_of k l.baselines)) [
    | inl new ↦ rw (new, apply_totals) (Calm-refl l.orders)
    | inr known ↦
        rw (known.1, apply_totals)
          (finish-Calm k known.0 broker now l (explain k known.0 broker now l)
            (explain-Calm k known.0 broker now l))
  ]

-- The update of the one order that a query found.
found-Calm :
    (p : Order → Bool) (f : Order → Order) (fs : List Fill) (o : Order) (os : List Order)
    → first p os ≡ some o
    → Later o (f o)
    → Accounts fs os
    → Calm os (update (λ r. r.id == o.id) f os)
unfolding update first
found-Calm p f fs o [] e h a = tt
found-Calm p f fs o (x ∷ os) e h a = elim (Bool-cases (p x)) [
  | inl hit ↦
      let same : x ≡ o = some_inj (ground (arith, hit, e)) in
      let absent = subst (λ y. Absent y.id os) same a.2 in
      subst (λ y. Calm (y ∷ os) (update (λ r. r.id == o.id) f (y ∷ os))) (sym same)
        (rw (==_refl o.id, update-Absent o.id f os absent) (h, Calm-refl os))
  | inr miss ↦
      let there : first p os ≡ some o = ground (arith, miss, e) in
      let apart = first-Absent p os o x.id there a.2 in
      let apart' : (x.id == o.id) ≡ false = ground (arith, apart) in
      rw apart' (Later-refl x, found-Calm p f fs o os there h a.3)
]

attach-Calm :
    (p : Order → Bool) (now qty price key : ℕ) (o : Order) (l : Ledger)
    → first p l.orders ≡ some o
    → Accounts l.fills l.orders
    → Calm l.orders (attach now qty price key o l).1.orders
unfolding attach
attach-Calm p now qty price key o l e a =
    elim (Bool-cases (not (is_fillable o.state) || qty == 0 || ltb (o.qty - o.filled_qty) qty)) [
      | inl refused ↦ rw refused (Calm-refl l.orders)
      | inr taken ↦ rw taken (
          found-Calm p (fill_order now qty (pos (qty * price))) l.fills o l.orders e
            (Later-fill_order now qty (pos (qty * price)) o (ground (arith, taken))) a)
    ]

pub apply_notice-Calm :
    (now date : ℕ) (odno : List ℕ) (qty price key : ℕ) (l : Ledger)
    → Accounts l.fills l.orders
    → Calm l.orders (apply_notice now date odno qty price key l).1.orders
unfolding apply_notice
apply_notice-Calm now date odno qty price key l a = elim (Bool-cases (has_key key l.notices)) [
  | inl seen ↦ rw seen (Calm-refl l.orders)
  | inr new ↦ elim (Option-cases (first (has_odno date (lstrip_zeros odno)) l.orders)) [
    | inl unknown_number ↦ rw (new, unknown_number, apply_notice) (Calm-refl l.orders)
    | inr found ↦
        rw (new, found.1, apply_notice)
          (attach-Calm (has_odno date (lstrip_zeros odno)) now qty price key found.0 l found.1 a)
  ]
]
