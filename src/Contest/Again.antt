-- ===== src/Contest/Again.antt =====
-- src/mdfeed/contest.py: `place` with a client order id that the participant used before.
use market_feed_platform.Prelude.{
  ℕ, ◌≡◌, refl, sym, ap, ◌∙◌, arith, inl, inr, Bool-cases, Option-cases, ◌&&◌, none, some, List, [],
  ◌∷◌, ◌==◌,
}
use market_feed_platform.Prelude.Int.{ℤ}
use market_feed_platform.Contest.{
  Option, Entry, Order, Config, Request, Position, existing, created, used_by, has_nickname, Ledger,
  cash_of, position_of, order_of, order_row, costs, reject, qty_of, write_journal, settle, place,
  join, signup, create_invites, insert_codes,
}
use market_feed_platform.Contest.Operations.{
  Call, call_place, call_signup, call_invites, or_keep, apply, run,
}

module _ (chain : ℕ → ℕ → Entry → ℕ) (cfg : Config) where
  created_head :
      (ts : ℕ) (r : Request) (cash : ℤ) (l : Ledger) (o : Order)
      → (settle chain cfg ts r cash (position_of r.pid r.symbol l.positions) l).0 ≡ created o
      → order_of r.pid r.client_order_id
          (settle chain cfg ts r cash (position_of r.pid r.symbol l.positions) l).1.orders
        ≡ some o
  unfolding settle order_of order_row write_journal
  created_head ts r cash l o h = ground (arith, h)

  place_found :
      (ts : ℕ) (r : Request) (l : Ledger) (o : Order)
      → (place chain cfg ts r l).0 ≡ created o
      → order_of r.pid r.client_order_id (place chain cfg ts r l).1.orders ≡ some o
  unfolding place
  place_found ts r l o h = elim (Option-cases (order_of r.pid r.client_order_id l.orders)) [
    | inr (x, e) ↦ absurd (ground (arith, h, e))
    | inl e ↦ elim (Option-cases (cash_of r.pid l.accounts)) [
      | inl n ↦ absurd (ground (arith, h, e, n))
      | inr (cash, there) ↦ ground (arith, h, e, there, created_head ts r cash l o)
    ]
  ]

  place_existing :
      (ts : ℕ) (r : Request) (l : Ledger) (o : Order)
      → order_of r.pid r.client_order_id l.orders ≡ some o
      → place chain cfg ts r l ≡ (existing o, l)
  unfolding place
  place_existing ts r l o e = ground (arith, e)

  -- The row of a new order comes before the others.
  settle_orders :
      (ts : ℕ) (r : Request) (cash : ℤ) (was : Option Position) (l : Ledger)
      → (row : Order) × ((settle chain cfg ts r cash was l).1.orders ≡ row ∷ l.orders)
        × (row.participant_id ≡ r.pid)
        × (row.client_order_id ≡ r.client_order_id)
  unfolding settle order_row write_journal
  settle_orders ts r cash was l =
      let reason = reject r.side r.qty r.price (costs cfg r.side r.qty r.price) cash (qty_of was) in
      (order_row cfg ts r reason l.next_order, ground arith, refl, refl)

  settle_keeps :
      (pid coid ts : ℕ) (r : Request) (cash : ℤ) (was : Option Position) (l : Ledger) (o : Order)
      → order_of pid coid l.orders ≡ some o
      → order_of r.pid r.client_order_id l.orders ≡ none
      → order_of pid coid (settle chain cfg ts r cash was l).1.orders ≡ some o
  unfolding order_of
  settle_keeps pid coid ts r cash was l o e new =
      let (row, orders, p, c) = settle_orders ts r cash was l in
      elim (Bool-cases (row.participant_id == pid && row.client_order_id == coid)) [
        | inr other ↦ rw orders (rw other e)
        | inl hit ↦
            let same_pid : r.pid ≡ pid = ground (arith, hit, p) in
            let same_id : r.client_order_id ≡ coid = ground (arith, hit, c) in
            let found : some o ≡ none =
              sym e
              ∙ sym (ap (λ n. order_of n coid l.orders) same_pid)
              ∙ sym (ap (λ n. order_of r.pid n l.orders) same_id)
              ∙ new in
            absurd (ground (arith, found))
      ]

  place_keeps :
      (pid coid ts : ℕ) (r : Request) (l : Ledger) (o : Order)
      → order_of pid coid l.orders ≡ some o
      → order_of pid coid (place chain cfg ts r l).1.orders ≡ some o
  unfolding place
  place_keeps pid coid ts r l o e =
      elim (Option-cases (order_of r.pid r.client_order_id l.orders)) [
        | inr found ↦ rw (found.1, place) e
        | inl new ↦ elim (Option-cases (cash_of r.pid l.accounts)) [
          | inl none_there ↦ rw (new, none_there, place) e
          | inr (cash, there) ↦ elim (Bool-cases (r.qty == 0)) [
            | inl z ↦ rw (new, there, z, place) e
            | inr z ↦
                rw (new, there, z, place)
                  (settle_keeps pid coid ts r cash (position_of r.pid r.symbol l.positions) l o e
                    new)
          ]
        ]
      ]

  signup_orders :
      (ts code nickname : ℕ) (l : Ledger)
      → (signup chain cfg ts code nickname l).1.orders ≡ l.orders
  unfolding signup join write_journal
  signup_orders ts code nickname l = elim (Option-cases (used_by code l.invites)) [
    | inl e ↦ rw (e, signup) refl
    | inr (some p, e) ↦ rw (e, signup) refl
    | inr (none, e) ↦ elim (Bool-cases (has_nickname nickname l.participants)) [
      | inl n ↦ rw (e, n, signup) refl
      | inr n ↦ rw (e, n, signup) refl
    ]
  ]

  invites_orders :
      (codes : List ℕ) (l : Ledger) → (or_keep (create_invites codes l) l).orders ≡ l.orders
  unfolding create_invites
  invites_orders codes l = elim (Option-cases (insert_codes codes l.invites)) [
    | inl e ↦ rw (e, create_invites) refl
    | inr (rows, e) ↦ rw (e, create_invites) refl
  ]

  run_keeps :
      (pid coid : ℕ) (cs : List Call) (l : Ledger) (o : Order)
      → order_of pid coid l.orders ≡ some o
      → order_of pid coid (run chain cfg cs l).orders ≡ some o
  unfolding run apply
  run_keeps pid coid [] l o e = e
  run_keeps pid coid (call_place ts r ∷ cs) l o e =
      run_keeps pid coid cs (place chain cfg ts r l).1 o (place_keeps pid coid ts r l o e)
  run_keeps pid coid (call_signup ts code nickname ∷ cs) l o e =
      run_keeps pid coid cs (signup chain cfg ts code nickname l).1 o
        (ap (order_of pid coid) (signup_orders ts code nickname l) ∙ e)
  run_keeps pid coid (call_invites codes ∷ cs) l o e =
      run_keeps pid coid cs (or_keep (create_invites codes l) l) o
        (ap (order_of pid coid) (invites_orders codes l) ∙ e)

  -- A request that made an order is not executed twice: after any further calls, a request of the
  -- same participant with the same client order id, whatever else it asks for, gives back that
  -- order and changes nothing.
  pub place_again :
      (ts ts' : ℕ) (r r' : Request) (cs : List Call) (l : Ledger) (o : Order)
      → (place chain cfg ts r l).0 ≡ created o
      → r'.pid ≡ r.pid
      → r'.client_order_id ≡ r.client_order_id
      → place chain cfg ts' r' (run chain cfg cs (place chain cfg ts r l).1)
        ≡ (existing o, run chain cfg cs (place chain cfg ts r l).1)
  place_again ts ts' r r' cs l o h p c =
      let l' = run chain cfg cs (place chain cfg ts r l).1 in
      let found =
        run_keeps r.pid r.client_order_id cs (place chain cfg ts r l).1 o
          (place_found ts r l o h) in
      place_existing ts' r' l' o (
        ap (λ n. order_of n r'.client_order_id l'.orders) p
        ∙ ap (λ n. order_of r.pid n l'.orders) c
        ∙ found)
