-- ===== src/Orders/Again.antt =====
-- `new_order` with a client order id that was used before.
use market_feed_platform.Prelude.{
  ℕ, ◌≡◌, refl, ap, ◌∙◌, arith, inl, inr, Bool-cases, Option-cases, Bool, true, none, some, List,
  [], ◌∷◌, ◌++◌, ◌==◌, ==_refl,
}
use market_feed_platform.Orders.{
  Key, Order, Ledger, existing, created, raised, first, by_client_id, order_row, new_order,
}
use market_feed_platform.Prelude.{some_inj, Option}
use market_feed_platform.Prelude.Int.{ℤ}
use market_feed_platform.Orders.{
  State, Totals, empty, first, update, mark, recover_pending, is_pending,
}
use market_feed_platform.Orders.Reconcile.{apply_totals, set_totals_baseline, baseline_of}
use market_feed_platform.Orders.Notice.{apply_notice}
use market_feed_platform.Orders.Close.{close_day}
use market_feed_platform.Orders.Sound.{Sound, new_order-Sound}
use market_feed_platform.Orders.Operations.{
  Operation, order_new, order_mark, recover, baseline, totals, noticed, close, apply, run,
  apply-Sound, run-Sound,
}
use market_feed_platform.Desk.Calm.{Calm, apply_totals-Calm, apply_notice-Calm, close_day-Calm}

first-append :
    (p : Order → Bool) (os : List Order) (o : Order)
    → first p os ≡ none
    → p o ≡ true
    → first p (os ++ (o ∷ [])) ≡ some o
unfolding first
first-append p [] o e h = rw h refl
first-append p (x ∷ os) o e h = ground (arith, e, first-append p os o (ground (arith, e)) h)

created_inj : (o p : Order) → created o ≡ created p → o ≡ p
created_inj o p h = ap (λ r. elim r [ created x ↦ x | existing x ↦ o | raised ↦ o ]) h

-- A ledger that has the order gives it back.
found_again :
    (later coid : ℕ) (k : Key) (qty price est : ℕ) (l : Ledger) (o : Order)
    → by_client_id coid l.orders ≡ some o
    → new_order later coid k qty price est l ≡ (existing o, l)
unfolding new_order
found_again later coid k qty price est l o e = rw (e, new_order) refl

created_found :
    (now coid : ℕ) (k : Key) (qty price est : ℕ) (l : Ledger) (o : Order)
    → (new_order now coid k qty price est l).0 ≡ created o
    → by_client_id coid (new_order now coid k qty price est l).1.orders ≡ some o
unfolding new_order by_client_id
created_found now coid k qty price est l o h = elim (Option-cases (by_client_id coid l.orders)) [
  | inr found ↦ absurd (ground (arith, found.1, h))
  | inl new ↦ elim (Bool-cases (qty == 0)) [
    | inl z ↦ absurd (ground (arith, new, z, h))
    | inr z ↦
        let row = order_row l.next_id coid k qty price est now in
        let same : row ≡ o = created_inj row o (ground (arith, new, z, h)) in
        rw (new, z, new_order)
          (first-append (λ x. x.client_order_id == coid) l.orders row new
              (unfold order_row in ==_refl coid)
            ∙ ap some same)
  ]
]

-- Which orders a table has: the later one has rows with the same ids and client order ids in the
-- same places, and more rows at its end.
abbrev Kept : List Order → List Order → Type 0
Kept [] ys = Unit
Kept (x ∷ xs) [] = ⊥
Kept (x ∷ xs) (y ∷ ys) = (y.id ≡ x.id) × (y.client_order_id ≡ x.client_order_id) × Kept xs ys

Kept-refl : (xs : List Order) → Kept xs xs
Kept-refl [] = tt
Kept-refl (x ∷ xs) = (refl, refl, Kept-refl xs)

Kept-trans : (xs ys zs : List Order) → Kept xs ys → Kept ys zs → Kept xs zs
Kept-trans [] ys zs f g = tt
Kept-trans (x ∷ xs) [] zs f g = absurd f
Kept-trans (x ∷ xs) (y ∷ ys) [] f g = absurd g
Kept-trans (x ∷ xs) (y ∷ ys) (z ∷ zs) f g = (g.0 ∙ f.0, g.1 ∙ f.1, Kept-trans xs ys zs f.2 g.2)

Kept-append : (xs ys : List Order) → Kept xs (xs ++ ys)
Kept-append [] ys = tt
Kept-append (x ∷ xs) ys = (refl, refl, Kept-append xs ys)

Kept-update :
    (p : Order → Bool) (f : Order → Order)
    → ((o : Order) → ((f o).id ≡ o.id) × ((f o).client_order_id ≡ o.client_order_id))
    → (xs : List Order) → Kept xs (update p f xs)
unfolding update
Kept-update p f same [] = tt
Kept-update p f same (x ∷ xs) = elim (Bool-cases (p x)) [
  | inl e ↦ rw e ((same x).0, (same x).1, Kept-update p f same xs)
  | inr e ↦ rw e (refl, refl, Kept-update p f same xs)
]

Kept-Calm : (xs ys : List Order) → Calm xs ys → Kept xs ys
Kept-Calm [] ys f = tt
Kept-Calm (x ∷ xs) [] f = absurd f
Kept-Calm (x ∷ xs) (y ∷ ys) f = (f.0.same_id, f.0.same_client, Kept-Calm xs ys f.1)

new_order-Kept :
    (now coid : ℕ) (k : Key) (qty price est : ℕ) (l : Ledger)
    → Kept l.orders (new_order now coid k qty price est l).1.orders
unfolding new_order
new_order-Kept now coid k qty price est l = elim (Option-cases (by_client_id coid l.orders)) [
  | inr found ↦ rw (found.1, new_order) (Kept-refl l.orders)
  | inl new ↦ elim (Bool-cases (qty == 0)) [
    | inl z ↦ rw (new, z, new_order) (Kept-refl l.orders)
    | inr z ↦
        rw (new, z, new_order)
          (Kept-append l.orders (order_row l.next_id coid k qty price est now ∷ []))
  ]
]

mark-Kept :
    (now oid : ℕ) (st : State) (odno : Option (List ℕ)) (l : Ledger)
    → Kept l.orders (mark now oid st odno l).orders
unfolding mark
mark-Kept now oid st odno l = Kept-update (λ o. o.id == oid) _ (λ o. (refl, refl)) l.orders

recover_pending-Kept : (now : ℕ) (l : Ledger) → Kept l.orders (recover_pending now l).orders
unfolding recover_pending
recover_pending-Kept now l = Kept-update (λ o. is_pending o.state) _ (λ o. (refl, refl)) l.orders

baseline-Kept :
    (k : Key) (t : Totals) (l : Ledger) → Kept l.orders (set_totals_baseline k t l).orders
unfolding set_totals_baseline
baseline-Kept k t l = elim (Option-cases (baseline_of k l.baselines)) [
  | inr found ↦ rw (found.1, set_totals_baseline) (Kept-refl l.orders)
  | inl new ↦ rw (new, set_totals_baseline) (Kept-refl l.orders)
]

found-Kept :
    (coid : ℕ) (xs ys : List Order) (o : Order)
    → Kept xs ys
    → by_client_id coid xs ≡ some o
    → (o' : Order) × (by_client_id coid ys ≡ some o') × (o'.id ≡ o.id)
unfolding by_client_id first
found-Kept coid [] ys o f e = absurd (ground (arith, e))
found-Kept coid (x ∷ xs) [] o f e = absurd f
found-Kept coid (x ∷ xs) (y ∷ ys) o f e = elim (Bool-cases (x.client_order_id == coid)) [
  | inl hit ↦
      let same : x ≡ o = some_inj (ground (arith, hit, e)) in
      (y, rw (f.1, hit) refl, f.0 ∙ ap (λ r. r.id) same)
  | inr miss ↦
      let rest = found-Kept coid xs ys o f.2 (ground (arith, miss, e)) in
      (rest.0, rw (f.1, miss) rest.1, rest.2)
]

module _ (share : ℤ → ℕ → ℕ → ℤ) where
  apply-Kept : (op : Operation) (l : Ledger) → Sound l → Kept l.orders (apply share op l).orders
  unfolding apply
  apply-Kept (order_new now coid k qty price est) l s = new_order-Kept now coid k qty price est l
  apply-Kept (order_mark now oid st odno) l s = mark-Kept now oid st odno l
  apply-Kept (recover now) l s = recover_pending-Kept now l
  apply-Kept (baseline k t) l s = baseline-Kept k t l
  apply-Kept (totals now k broker) l s =
      Kept-Calm l.orders (apply_totals share now k broker l).1.orders
        (apply_totals-Calm share now k broker l)
  apply-Kept (noticed now date odno qty price key) l s =
      Kept-Calm l.orders (apply_notice now date odno qty price key l).1.orders
        (apply_notice-Calm now date odno qty price key l s.accounts)
  apply-Kept (close now date n) l s =
      Kept-Calm l.orders (close_day now date n l).1.orders (close_day-Calm now date n l)

  run-Kept : (ops : List Operation) (l : Ledger) → Sound l → Kept l.orders (run share ops l).orders
  unfolding run
  run-Kept [] l s = Kept-refl l.orders
  run-Kept (op ∷ ops) l s =
      Kept-trans l.orders (apply share op l).orders (run share ops (apply share op l)).orders
        (apply-Kept op l s) (run-Kept ops (apply share op l) (apply-Sound share op l s))

  -- Once `new_order` has made an order in a ledger that came from any operations on a new one, then
  -- after any further operations a call with the same client order id, whatever else it asks for,
  -- makes no other order: it gives back the order with that id, as it is then, and leaves the
  -- ledger as it is.
  pub new_order_again :
      (before after : List Operation) (now coid : ℕ) (k : Key) (qty price est : ℕ) (o : Order)
      (later : ℕ) (k' : Key) (qty' price' est' : ℕ)
      → (new_order now coid k qty price est (run share before empty)).0 ≡ created o
      → (o' : Order) × (o'.id ≡ o.id)
        × (new_order later coid k' qty' price' est'
              (run share after (new_order now coid k qty price est (run share before empty)).1)
            ≡ (
              existing o',
              run share after (new_order now coid k qty price est (run share before empty)).1,
            ))
  new_order_again before after now coid k qty price est o later k' qty' price' est' h =
      let l = run share before empty in
      let l' = (new_order now coid k qty price est l).1 in
      let sound = new_order-Sound now coid k qty price est l (run-Sound share before) in
      let (o', there, same) =
        found-Kept coid l'.orders (run share after l').orders o (run-Kept after l' sound)
          (created_found now coid k qty price est l o h) in
      (o', same, found_again later coid k' qty' price' est' (run share after l') o' there)
