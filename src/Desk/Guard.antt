-- ===== src/Desk/Guard.antt =====
-- src/mdfeed/services/order_desk.py: the desk's guard, that no second order of a key is open and no
-- client order id has two orders, and that each stage of a request keeps it.
use market_feed_platform.Prelude.{
  ◌&&◌, ℕ, ◌+◌, ◌*◌, ◌≤◌, ◌≡◌, refl, sym, ◌∙◌, arith, inl, inr, Bool-cases, Option-cases, Bool,
  false, not, Option, none, some, List, ◌∷◌, ltb, ◌==◌,
}
use mathlib.Core.Path.{subst}
use market_feed_platform.Orders.{
  Side, State, Key, Order, Totals, Ledger, NewOrder, existing, created, raised, by_client_id,
  order_row, new_order, mark, accepted, rejected, unknown, recover_pending, open_order, key_eq,
  is_open,
}
use market_feed_platform.Orders.Reconcile.{baseline_of, set_totals_baseline}
use market_feed_platform.Orders.Notional.{notional_today}
use market_feed_platform.Orders.Close.{day_close}
use market_feed_platform.Orders.Sound.{
  Sound, new_order-Sound, mark-Sound, recover_pending-Sound, baseline-Sound,
}
use market_feed_platform.Desk.{
  bad_request, duplicate, failed, Config, Form, Request, Stage, idle, pricing, totalling, sending,
  Desk, Response, create, answer, block, sent, record_order, ensure_baseline, check_limits,
  find_price, is_some, check_ledger, well_formed, request_of, submit, on_price, on_totals, Reply,
  takes, rejects, unsure, mark_reply, on_reply,
}
use market_feed_platform.Desk.Calm.{
  open_count, client_count, PendingAt, Calm, open_count-Calm, client_count-Calm, PendingAt-Calm,
}
use market_feed_platform.Desk.Counts.{
  none_found, none_counted, open_count-new, client_count-new, PendingAt-new, open_count-mark,
  client_count-mark, open_count-recover, client_count-recover,
}

-- A request for which nothing is open and nothing is written down.
abbrev pub Free : Request → List Order → Type 0
Free r os = (open_count r.key os ≡ 0) × (client_count r.client_order_id os ≡ 0)

abbrev pub Waits : Stage → List Order → Type 0
Waits idle os = Unit
Waits (pricing r) os = Free r os
Waits (totalling r unit) os = Free r os
Waits (sending oid) os = PendingAt oid os

pub record Booked (l : Ledger) : Type 0 where
  pub sound : Sound l
  pub once : (k : Key) → open_count k l.orders ≤ 1
  pub single : (c : ℕ) → client_count c l.orders ≤ 1

pub record Guarded (d : Desk) : Type 0 where
  pub booked : Booked d.ledger
  pub waits : Waits d.stage d.ledger.orders

-- The ledger goes on by itself.
Booked-Calm : (l l' : Ledger) → Calm l.orders l'.orders → Sound l' → Booked l → Booked l'
Booked-Calm l l' f s b = record {
  sound = s;
  once = λ k. omega (arith, open_count-Calm k l.orders l'.orders f, b.once k);
  single = λ c. omega (arith, client_count-Calm c l.orders l'.orders f, b.single c);
}

Waits-Calm : (s : Stage) (xs ys : List Order) → Calm xs ys → Waits s xs → Waits s ys
Waits-Calm idle xs ys f w = tt
Waits-Calm (pricing r) xs ys f w = (
  omega (arith, open_count-Calm r.key xs ys f, w.0),
  client_count-Calm r.client_order_id xs ys f ∙ w.1,
)
Waits-Calm (totalling r unit) xs ys f w = (
  omega (arith, open_count-Calm r.key xs ys f, w.0),
  client_count-Calm r.client_order_id xs ys f ∙ w.1,
)
Waits-Calm (sending oid) xs ys f w = PendingAt-Calm oid xs ys f w

pub Guarded-Calm :
    (d d' : Desk)
    → d'.stage ≡ d.stage
    → Calm d.ledger.orders d'.ledger.orders
    → Sound d'.ledger
    → Guarded d
    → Guarded d'
Guarded-Calm d d' e f s g = record {
  booked = Booked-Calm d.ledger d'.ledger f s g.booked;
  waits = rw e (Waits-Calm d.stage d.ledger.orders d'.ledger.orders f g.waits);
}

-- The stages of a request.
block-Guarded : (d : Desk) → Booked d.ledger → Guarded (block d)
unfolding block answer
block-Guarded d b = record { booked = b; waits = tt }

answer-Guarded : (r : Response) (d : Desk) → Booked d.ledger → Guarded (answer r d)
unfolding answer
answer-Guarded r d b = record { booked = b; waits = tt }

-- What a new order of a free request makes of the ledger.
new_client : (c : ℕ) (os : List Order) → client_count c os ≡ 0 → by_client_id c os ≡ none
unfolding by_client_id
new_client c os z = none_counted (λ o. o.client_order_id == c) os z

none_client : (c : ℕ) (os : List Order) → by_client_id c os ≡ none → client_count c os ≡ 0
unfolding by_client_id
none_client c os e = none_found (λ o. o.client_order_id == c) os e

nothing_open : (k : Key) (l : Ledger) → open_order k l ≡ none → open_count k l.orders ≡ 0
unfolding open_order
nothing_open k l e = none_found (λ o. key_eq k o.key && is_open o.state) l.orders e

abbrev Recorded : NewOrder × Ledger → Type 0
Recorded (existing o, l) = ⊥
Recorded (created o, l) = Booked l × PendingAt o.id l.orders
Recorded (raised, l) = Booked l

new_order-Recorded :
    (now : ℕ) (r : Request) (unit : ℕ) (l : Ledger)
    → Booked l
    → Free r l.orders
    → Recorded (new_order now r.client_order_id r.key r.qty r.price unit l)
unfolding new_order order_row
new_order-Recorded now r unit l b w =
    let row = order_row l.next_id r.client_order_id r.key r.qty r.price unit now in
    let new = new_client r.client_order_id l.orders w.1 in
    let s = new_order-Sound now r.client_order_id r.key r.qty r.price unit l b.sound in
    elim (Bool-cases (r.qty == 0)) [
      | inl e ↦ rw (new, e, new_order) b
      | inr e ↦
          rw (new, e, new_order)
            (
              record {
                sound = simp (new, e, new_order) at s;
                once = λ k. open_count-new k l.orders row w.0 (b.once k);
                single = λ c. client_count-new c l.orders row w.1 (b.single c);
              },
              PendingAt-new l.next_id l.orders row refl b.sound.below,
            )
    ]

sent-Guarded :
    (d : Desk) (x : NewOrder × Ledger) → Booked d.ledger → Recorded x → Guarded (sent d x)
sent-Guarded d (existing o, l) b h = absurd h
sent-Guarded d (created o, l) b h = record { booked = h.0; waits = h.1 }
sent-Guarded d (raised, l) b h = answer-Guarded failed d b

record_order-Guarded :
    (now : ℕ) (r : Request) (unit : ℕ) (d : Desk)
    → Booked d.ledger
    → Free r d.ledger.orders
    → Guarded (record_order now r unit d)
unfolding record_order
record_order-Guarded now r unit d b w =
    sent-Guarded d (new_order now r.client_order_id r.key r.qty r.price unit d.ledger) b
      (new_order-Recorded now r unit d.ledger b w)

ensure_baseline-Guarded :
    (now : ℕ) (r : Request) (unit : ℕ) (d : Desk)
    → Booked d.ledger
    → Free r d.ledger.orders
    → Guarded (ensure_baseline now r unit d)
unfolding ensure_baseline
ensure_baseline-Guarded now r unit d b w =
    elim (Option-cases (baseline_of r.key d.ledger.baselines)) [
      | inl new ↦ rw (new, ensure_baseline) (record { booked = b; waits = w })
      | inr known ↦ rw (known.1, ensure_baseline) (record_order-Guarded now r unit d b w)
    ]

check_limits-Guarded :
    (cfg : Config) (now : ℕ) (r : Request) (unit : ℕ) (d : Desk)
    → Booked d.ledger
    → Free r d.ledger.orders
    → Guarded (check_limits cfg now r unit d)
unfolding check_limits
check_limits-Guarded cfg now r unit d b w =
    elim (Bool-cases (ltb cfg.order_max_krw (unit * r.qty))) [
      | inl over ↦ rw over (block-Guarded d b)
      | inr fits ↦
          elim (Bool-cases (
            ltb cfg.order_daily_max_krw
              (notional_today r.key.trade_date d.ledger.orders + unit * r.qty))) [
                | inl over ↦ rw (fits, over) (block-Guarded d b)
                | inr below ↦ rw (fits, below) (ensure_baseline-Guarded now r unit d b w)
              ]
    ]

find_price-Guarded :
    (cfg : Config) (now : ℕ) (r : Request) (d : Desk)
    → Booked d.ledger
    → Free r d.ledger.orders
    → Guarded (find_price cfg now r d)
unfolding find_price
find_price-Guarded cfg now r d b w = elim (Bool-cases (r.price == 0)) [
  | inl market ↦ rw market (record { booked = b; waits = w })
  | inr limit ↦ rw limit (check_limits-Guarded cfg now r r.price d b w)
]

check_ledger-Guarded :
    (cfg : Config) (now : ℕ) (r : Request) (d : Desk)
    → Booked d.ledger
    → Guarded (check_ledger cfg now r d)
unfolding check_ledger
check_ledger-Guarded cfg now r d b =
    let os = d.ledger.orders in
    elim (Option-cases (by_client_id r.client_order_id os)) [
      | inr found ↦ rw (found.1, check_ledger) (answer-Guarded (duplicate found.0) d b)
      | inl new ↦ elim (Bool-cases (is_some (day_close r.key.trade_date d.ledger.closes))) [
        | inl closed_day ↦ rw (new, closed_day, check_ledger) (block-Guarded d b)
        | inr open_day ↦ elim (Option-cases (open_order r.key d.ledger)) [
          | inr busy ↦ rw (new, open_day, busy.1, check_ledger) (block-Guarded d b)
          | inl free ↦
              rw (new, open_day, free, check_ledger)
                (find_price-Guarded cfg now r d b
                  (nothing_open r.key d.ledger free, none_client r.client_order_id os new))
        ]
      ]
    ]

-- A baseline changes no order.
baseline_orders :
    (k : Key) (t : Totals) (l : Ledger) → (set_totals_baseline k t l).orders ≡ l.orders
unfolding set_totals_baseline
baseline_orders k t l = ground arith

with_baseline-Guarded :
    (now : ℕ) (r : Request) (unit : ℕ) (t : Totals) (d : Desk)
    → Booked d.ledger
    → Free r d.ledger.orders
    → Guarded (record_order now r unit (record d { ledger = set_totals_baseline r.key t d.ledger }))
with_baseline-Guarded now r unit t d b w =
    let l' = set_totals_baseline r.key t d.ledger in
    let same = sym (baseline_orders r.key t d.ledger) in
    record_order-Guarded now r unit (record d { ledger = l' })
      (record {
        sound = baseline-Sound r.key t d.ledger b.sound;
        once = subst (λ os. (k : Key) → open_count k os ≤ 1) same b.once;
        single = subst (λ os. (c : ℕ) → client_count c os ≤ 1) same b.single;
      })
      (subst (λ os. Free r os) same w)

mark-Booked :
    (now oid : ℕ) (st : State) (odno : Option (List ℕ)) (l : Ledger)
    → PendingAt oid l.orders
    → Booked l
    → Booked (mark now oid st odno l)
mark-Booked now oid st odno l p b = record {
  sound = mark-Sound now oid st odno l b.sound;
  once = λ k. omega (arith, open_count-mark k now oid st odno l p, b.once k);
  single = λ c. omega (arith, client_count-mark c now oid st odno l, b.single c);
}

recover-Booked : (now : ℕ) (l : Ledger) → Booked l → Booked (recover_pending now l)
recover-Booked now l b = record {
  sound = recover_pending-Sound now l b.sound;
  once = λ k. omega (arith, open_count-recover k now l, b.once k);
  single = λ c. omega (arith, client_count-recover c now l, b.single c);
}

pub create-Guarded : (now : ℕ) (l : Ledger) → Booked l → Guarded (create now l)
unfolding create
create-Guarded now l b = record { booked = recover-Booked now l b; waits = tt }

mark_reply-Guarded :
    (now oid : ℕ) (reply : Reply) (d : Desk)
    → Booked d.ledger
    → PendingAt oid d.ledger.orders
    → Guarded (mark_reply now oid reply d)
unfolding answer
mark_reply-Guarded now oid (takes odno) d b p = record {
  booked = mark-Booked now oid accepted (some odno) d.ledger p b;
  waits = tt;
}
mark_reply-Guarded now oid rejects d b p = record {
  booked = mark-Booked now oid rejected none d.ledger p b;
  waits = tt;
}
mark_reply-Guarded now oid unsure d b p = record {
  booked = mark-Booked now oid unknown none d.ledger p b;
  waits = tt;
}

-- What the stage that the desk is in knows.
waiting : (s : Stage) (d : Desk) → d.stage ≡ s → Guarded d → Waits s d.ledger.orders
waiting s d e g = subst (λ x. Waits x d.ledger.orders) e g.waits

pub on_price_at :
    (cfg : Config) (now : ℕ) (answered : Option ℕ) (d : Desk) (s : Stage)
    → d.stage ≡ s
    → Guarded d
    → Guarded (on_price cfg now answered d)
unfolding on_price
on_price_at cfg now answered d idle e g = rw (e, on_price) g
on_price_at cfg now answered d (totalling r unit) e g = rw (e, on_price) g
on_price_at cfg now answered d (sending oid) e g = rw (e, on_price) g
on_price_at cfg now none d (pricing r) e g = rw (e, on_price) (block-Guarded d g.booked)
on_price_at cfg now (some unit) d (pricing r) e g =
    rw (e, on_price) (check_limits-Guarded cfg now r unit d g.booked (waiting (pricing r) d e g))

pub on_totals_at :
    (now : ℕ) (answered : Option Totals) (d : Desk) (s : Stage)
    → d.stage ≡ s
    → Guarded d
    → Guarded (on_totals now answered d)
unfolding on_totals
on_totals_at now answered d idle e g = rw (e, on_totals) g
on_totals_at now answered d (pricing r) e g = rw (e, on_totals) g
on_totals_at now answered d (sending oid) e g = rw (e, on_totals) g
on_totals_at now none d (totalling r unit) e g = rw (e, on_totals) (block-Guarded d g.booked)
on_totals_at now (some t) d (totalling r unit) e g =
    rw (e, on_totals)
      (with_baseline-Guarded now r unit t d g.booked (waiting (totalling r unit) d e g))

pub on_reply_at :
    (now : ℕ) (reply : Reply) (d : Desk) (s : Stage)
    → d.stage ≡ s
    → Guarded d
    → Guarded (on_reply now reply d)
unfolding on_reply
on_reply_at now reply d idle e g = rw (e, on_reply) g
on_reply_at now reply d (pricing r) e g = rw (e, on_reply) g
on_reply_at now reply d (totalling r unit) e g = rw (e, on_reply) g
on_reply_at now reply d (sending oid) e g =
    rw (e, on_reply) (mark_reply-Guarded now oid reply d g.booked (waiting (sending oid) d e g))

refuse-Guarded :
    (r : Response) (d : Desk) → Guarded d → Guarded (record d { responses = r ∷ d.responses })
refuse-Guarded r d g = record { booked = g.booked; waits = g.waits }

module _ (valid_id valid_symbol : ℕ → Bool) where
  enter_at :
      (cfg : Config) (now day : ℕ) (f : Form) (side : Side) (d : Desk) (s : Stage)
      → f.side ≡ some side
      → not (well_formed valid_id valid_symbol cfg f) ≡ false
      → d.stage ≡ s
      → Guarded d
      → Guarded (submit valid_id valid_symbol cfg now day (some f) d)
  unfolding submit
  enter_at cfg now day f side d idle es ew e g =
      rw (es, ew, e, submit)
        (check_ledger-Guarded cfg now (request_of valid_id valid_symbol day f side) d g.booked)
  enter_at cfg now day f side d (pricing r) es ew e g = rw (es, ew, e, submit) g
  enter_at cfg now day f side d (totalling r unit) es ew e g = rw (es, ew, e, submit) g
  enter_at cfg now day f side d (sending oid) es ew e g = rw (es, ew, e, submit) g

  pub submit-Guarded :
      (cfg : Config) (now day : ℕ) (asked : Option Form) (d : Desk)
      → Guarded d
      → Guarded (submit valid_id valid_symbol cfg now day asked d)
  unfolding submit
  submit-Guarded cfg now day none d g = refuse-Guarded bad_request d g
  submit-Guarded cfg now day (some f) d g = elim (Option-cases f.side) [
    | inl neither ↦ rw (neither, submit) (refuse-Guarded bad_request d g)
    | inr known ↦ elim (Bool-cases (not (well_formed valid_id valid_symbol cfg f))) [
      | inl bad ↦ rw (known.1, bad, submit) (refuse-Guarded bad_request d g)
      | inr good ↦ enter_at cfg now day f known.0 d d.stage known.1 good refl g
    ]
  ]
