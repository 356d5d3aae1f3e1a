-- ===== src/Contest/Operations.antt =====
-- Every operation of the contest keeps the books balanced.
use market_feed_platform.Prelude.{
  ℕ, ◌+◌, ◌≤◌, ◌≡◌, ◌≢◌, refl, sym, ◌∙◌, arith, inl, inr, Bool-cases, Option-cases, true, Option,
  none, some, List, [], ◌∷◌, ◌==◌,
}
use mathlib.Core.Path.{ap₂, subst}
use market_feed_platform.Prelude.Int.{ℤ, pos, ◌+ℤ◌, int_laws}
use market_feed_platform.Contest.{
  Side, buy, sell, Fill, Entry, deposit, fill, Order, Position, Config, Costs, Request, Placed,
  created, has_nickname, used_by, Reason, order_row, fill_row, Ledger, empty, add_cash, cash_of,
  position_of, upsert, qty_of, cost_of, order_of, costs, reject, filled_position, write_journal,
  settle, place, join, signup, create_invites, insert_codes,
}
use market_feed_platform.Contest.Integrity.{
  Tally, signed, post, agrees, filled_of, matches_fill, table_held, integrity,
}
use market_feed_platform.Contest.Books.{
  Agrees, Books, integrity-Books, empty-Books, write_journal-replay,
}
use market_feed_platform.Contest.Tables.{
  add_cash-CashAgrees, new-CashAgrees, cash_of-add_cash, position_of-upsert,
}

zero_add_ℤ : (n : ℕ) → pos 0 +ℤ pos n ≡ pos n
zero_add_ℤ n = omega int_laws

-- A fill that is not rejected sells no more than is held.
held_after :
    (side : Side) (pid symbol qty price held cost : ℕ) (c : Costs) (cash : ℤ)
    → reject side qty price c cash held ≡ none
    → pos (filled_position side pid symbol qty c held cost).qty ≡ pos held +ℤ signed side qty
unfolding reject filled_position
held_after buy pid symbol qty price held cost c cash h = omega int_laws
held_after sell pid symbol qty price held cost c cash h =
    let le : qty ≤ held = ground (arith, h) in omega int_laws

key_after :
    (side : Side) (pid symbol qty held cost : ℕ) (c : Costs)
    → ((filled_position side pid symbol qty c held cost).owner ≡ pid)
      × ((filled_position side pid symbol qty c held cost).symbol ≡ symbol)
unfolding filled_position
key_after buy pid symbol qty held cost c = (refl, refl)
key_after sell pid symbol qty held cost c = (refl, refl)

agrees_row :
    (cfg : Config) (ts : ℕ) (r : Request) (reason : Option Reason) (oid : ℕ)
    → agrees (order_row cfg ts r reason oid) (fill_row cfg r oid) ≡ true
unfolding agrees order_row fill_row
agrees_row cfg ts r reason oid = ground arith

-- The tables after a fill.
abbrev after : Ledger → Order → Fill → Position → Ledger
after l o f q = record l {
  accounts = add_cash o.participant_id f.cash_delta l.accounts;
  positions = upsert q l.positions;
  orders = o ∷ l.orders;
  next_order = l.next_order + 1;
}

-- They agree with the tally after the journal's row.
module _ (l : Ledger) (t : Tally) (a : Agrees l t) (hash : ℕ) (o : Order) (f : Fill)
    (q : Position) where
  Agrees_fill :
      o.reason ≡ none
      → o.id ≡ l.next_order
      → f.order_id ≡ l.next_order
      → agrees o f ≡ true
      → q.owner ≡ o.participant_id
      → q.symbol ≡ f.symbol
      → pos q.qty ≡ table_held l q.owner q.symbol +ℤ signed f.side f.qty
      → cash_of o.participant_id l.accounts ≢ none
      → Agrees (after l o f q) (post hash (fill o.participant_id f) t)
  unfolding post filled_of matches_fill
  Agrees_fill r i j g w s m k = record {
    cash = add_cash-CashAgrees t.cash o.participant_id f.cash_delta l.accounts a.cash;
    held = λ p u. ground (arith, position_of-upsert p u q l.positions, a.held p u, w, s, m);
    fills = λ n. ground (arith, r, i, j, g, a.fills n);
    new_cash = λ p h. ground (arith, h, k, a.no_account p, a.new_cash p);
    no_account =
        λ p h. cash_of-add_cash p o.participant_id f.cash_delta l.accounts (a.no_account p h);
    new_order = λ n h. ground (arith, h, r, i, j, a.new_order n);
  }

module _ (chain : ℕ → ℕ → Entry → ℕ) where
  -- Tables that agree with the tally after a row make balanced books once the row is written.
  Books-write :
      (ts : ℕ) (e : Entry) (l l' : Ledger) (b : Books chain l)
      → l'.journal ≡ l.journal
      → Agrees l' (post (chain b.tally.prev ts e) e b.tally)
      → Books chain (write_journal chain ts e l')
  Books-write ts e l l' b same a =
      let w = write_journal-replay chain ts e l l' b.tally same b.replayed b.tip in
      record {
        tally = post (chain b.tally.prev ts e) e b.tally;
        replayed = w.0;
        tip = w.1;
        agrees =
            unfold write_journal in
            record {
              cash = a.cash;
              held = a.held;
              fills = a.fills;
              new_cash = a.new_cash;
              no_account = a.no_account;
              new_order = a.new_order;
            };
      }

  -- A rejected order is recorded, and nothing else changes.
  Books-rejected :
      (l : Ledger) (o : Order)
      → o.reason ≢ none
      → Books chain l
      → Books chain (record l { orders = o ∷ l.orders; next_order = l.next_order + 1 })
  unfolding filled_of
  Books-rejected l o r b = record {
    tally = b.tally;
    replayed = b.replayed;
    tip = b.tip;
    agrees = record {
      cash = b.agrees.cash;
      held = b.agrees.held;
      fills = λ n. ground (arith, r, b.agrees.fills n);
      new_cash = b.agrees.new_cash;
      no_account = b.agrees.no_account;
      new_order = λ n h. ground (arith, h, r, b.agrees.new_order n);
    };
  }

  module _ (cfg : Config) (ts : ℕ) (r : Request) (cash : ℤ) (l : Ledger)
      (account : cash_of r.pid l.accounts ≡ some cash) (b : Books chain l) where
    abbrev was : Option Position
    was = position_of r.pid r.symbol l.positions

    abbrev reason : Option Reason
    reason = reject r.side r.qty r.price (costs cfg r.side r.qty r.price) cash (qty_of was)

    abbrev moved_to : Position
    moved_to =
        filled_position r.side r.pid r.symbol r.qty (costs cfg r.side r.qty r.price) (qty_of was)
          (cost_of was)

    -- The row and the detail that `settle` writes.
    abbrev row : Order
    row = order_row cfg ts r reason l.next_order

    abbrev detail : Fill
    detail = fill_row cfg r l.next_order

    settled :
        reason ≡ none
        → (hash : ℕ) → Agrees (after l row detail moved_to) (post hash (fill r.pid detail) b.tally)
    unfolding order_row fill_row
    settled e hash =
        let c = costs cfg r.side r.qty r.price in
        let k = key_after r.side r.pid r.symbol r.qty (qty_of was) (cost_of was) c in
        Agrees_fill l b.tally b.agrees hash row detail moved_to e refl refl
          (agrees_row cfg ts r reason l.next_order) k.0 k.1
          (held_after r.side r.pid r.symbol r.qty r.price (qty_of was) (cost_of was) c cash e
            ∙ ap₂ (λ p s. table_held l p s +ℤ signed r.side r.qty) (sym k.0) (sym k.1))
          (λ n. ground (arith, n, account))

    settle-Books : Books chain (settle chain cfg ts r cash was l).1
    unfolding settle order_row fill_row
    settle-Books = elim (Option-cases reason) [
      | inl e ↦
          subst
            (λ x.
              Books chain
                (elim x as (λ y. Placed × Ledger) [
                  | some why ↦ (
                    created row,
                    record l { orders = row ∷ l.orders; next_order = l.next_order + 1 },
                  )
                  | none ↦ (
                    created row,
                    write_journal chain ts (fill r.pid detail) (after l row detail moved_to),
                  )
                ]).1)
            (sym e)
            (Books-write ts (fill r.pid detail) l _ b refl
              (settled e (chain b.tally.prev ts (fill r.pid detail))))
      | inr (why, e) ↦
          subst
            (λ x.
              Books chain
                (elim x as (λ y. Placed × Ledger) [
                  | some why ↦ (
                    created row,
                    record l { orders = row ∷ l.orders; next_order = l.next_order + 1 },
                  )
                  | none ↦ (
                    created row,
                    write_journal chain ts (fill r.pid detail) (after l row detail moved_to),
                  )
                ]).1)
            (sym e) (Books-rejected l row (λ n. ground (arith, n, e)) b)
    ]

  -- `place` keeps the books balanced, whatever it answers.
  pub place-Books :
      (cfg : Config) (ts : ℕ) (r : Request) (l : Ledger)
      → Books chain l
      → Books chain (place chain cfg ts r l).1
  place-Books cfg ts r l b = elim (Option-cases (order_of r.pid r.client_order_id l.orders)) [
    | inr (o, e) ↦ unfold place in rw (e, place) b
    | inl e ↦ elim (Option-cases (cash_of r.pid l.accounts)) [
      | inl none_there ↦ unfold place in rw (e, none_there, place) b
      | inr (cash, there) ↦ elim (Bool-cases (r.qty == 0)) [
        | inl z ↦ unfold place in rw (e, there, z, place) b
        | inr z ↦ unfold place in rw (e, there, z, place) (settle-Books cfg ts r cash l there b)
      ]
    ]
  ]

  join-Books :
      (cfg : Config) (ts code nickname : ℕ) (l : Ledger)
      → Books chain l
      → Books chain (join chain cfg ts code nickname l)
  unfolding join post
  join-Books cfg ts code nickname l b =
      let pid = l.next_participant in
      let a = b.agrees in
      Books-write ts (deposit pid cfg.initial_cash) l _ b refl (record {
        cash = (
          ground (arith, a.new_cash pid, zero_add_ℤ cfg.initial_cash),
          new-CashAgrees b.tally.cash pid (pos cfg.initial_cash) l.accounts
              (a.no_account pid (omega arith)) a.cash,
        );
        held = a.held;
        fills = a.fills;
        new_cash = λ p h. ground (arith, h, a.new_cash p);
        no_account = λ p h. unfold cash_of in ground (arith, h, a.no_account p);
        new_order = a.new_order;
      })

  -- `signup` keeps the books balanced, whatever it answers.
  pub signup-Books :
      (cfg : Config) (ts code nickname : ℕ) (l : Ledger)
      → Books chain l
      → Books chain (signup chain cfg ts code nickname l).1
  signup-Books cfg ts code nickname l b = elim (Option-cases (used_by code l.invites)) [
    | inl e ↦ unfold signup in rw (e, signup) b
    | inr (some p, e) ↦ unfold signup in rw (e, signup) b
    | inr (none, e) ↦ elim (Bool-cases (has_nickname nickname l.participants)) [
      | inl n ↦ unfold signup in rw (e, n, signup) b
      | inr n ↦ unfold signup in rw (e, n, signup) (join-Books cfg ts code nickname l b)
    ]
  ]

-- What the contest's service calls, in the order of the calls.
pub data Call : Type 0 where
  call_place : ℕ → Request → Call
  call_signup : ℕ → ℕ → ℕ → Call
  call_invites : List ℕ → Call

-- `create_invites` that raises leaves the ledger.
abbrev pub or_keep : Option Ledger → Ledger → Ledger
or_keep none l = l
or_keep (some l') l = l'

module _ (chain : ℕ → ℕ → Entry → ℕ) (cfg : Config) where
  unfoldable pub apply : Call → Ledger → Ledger
  apply (call_place ts r) l = (place chain cfg ts r l).1
  apply (call_signup ts code nickname) l = (signup chain cfg ts code nickname l).1
  apply (call_invites codes) l = or_keep (create_invites codes l) l

  unfoldable pub run : List Call → Ledger → Ledger
  run [] l = l
  run (c ∷ cs) l = run cs (apply c l)

  invites-Books :
      (codes : List ℕ) (l : Ledger)
      → Books chain l
      → Books chain (or_keep (create_invites codes l) l)
  invites-Books codes l b = elim (Option-cases (insert_codes codes l.invites)) [
    | inl e ↦ unfold create_invites in rw (e, create_invites) b
    | inr (rows, e) ↦
        unfold create_invites in
        rw (e, create_invites)
          (record {
            tally = b.tally;
            replayed = b.replayed;
            tip = b.tip;
            agrees = record {
              cash = b.agrees.cash;
              held = b.agrees.held;
              fills = b.agrees.fills;
              new_cash = b.agrees.new_cash;
              no_account = b.agrees.no_account;
              new_order = b.agrees.new_order;
            };
          })
  ]

  apply-Books : (c : Call) (l : Ledger) → Books chain l → Books chain (apply c l)
  unfolding apply
  apply-Books (call_place ts r) l b = place-Books chain cfg ts r l b
  apply-Books (call_signup ts code nickname) l b = signup-Books chain cfg ts code nickname l b
  apply-Books (call_invites codes) l b = invites-Books codes l b

  run-Books : (cs : List Call) (l : Ledger) → Books chain l → Books chain (run cs l)
  unfolding run
  run-Books [] l b = b
  run-Books (c ∷ cs) l b = run-Books cs (apply c l) (apply-Books c l b)

  -- After any calls on a new ledger, `integrity` finds no break: the hash chain holds, and cash,
  -- positions and filled orders are what the journal gives.
  pub integrity-run : (cs : List Call) → integrity chain (run cs empty) ≡ []
  integrity-run cs = integrity-Books chain (run cs empty) (run-Books cs empty (empty-Books chain))
