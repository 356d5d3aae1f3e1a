-- ===== src/Contest/Books.antt =====
-- The books of the contest balance: what every operation keeps, and what `integrity` finds of it.
use market_feed_platform.Prelude.{
  ℕ, ◌+◌, ◌≤◌, ◌≡◌, refl, sym, ap, ◌∙◌, arith, inl, inr, true, none, List, [], ◌∷◌, ◌++◌, length,
}
use market_feed_platform.Prelude.Int.{ℤ, pos}
use market_feed_platform.Contest.{
  Entry, deposit, fill, JournalRow, Ledger, empty, genesis, last_hash, cash_of, position_of,
  write_journal,
}
use market_feed_platform.Contest.Integrity.{
  Tally, blank, post, tallied, filled_of, matches_fill, table_held, cash_breaks, position_breaks,
  order_breaks, check_row, replay, compare_tables, integrity, Replay-cases, tallied_inj,
}

-- Every row of the accounts has the cash that the journal says.
abbrev pub CashAgrees : (ℕ → ℤ) → List (ℕ × ℤ) → Type 0
CashAgrees cash [] = Unit
CashAgrees cash ((p, c) ∷ rows) = (cash p ≡ c) × CashAgrees cash rows

-- The tables agree with a tally of the journal, and the numbers to come are not in use.
pub record Agrees (l : Ledger) (t : Tally) : Type 0 where
  pub cash : CashAgrees t.cash l.accounts
  pub held : (p s : ℕ) → table_held l p s ≡ t.held p s
  pub fills : (i : ℕ) → matches_fill (filled_of i l.orders) (t.fills i) ≡ true
  pub new_cash : (p : ℕ) → l.next_participant ≤ p → t.cash p ≡ pos 0
  pub no_account : (p : ℕ) → l.next_participant ≤ p → cash_of p l.accounts ≡ none
  pub new_order : (i : ℕ) → l.next_order ≤ i → (filled_of i l.orders ≡ none) × (t.fills i ≡ none)

module _ (chain : ℕ → ℕ → Entry → ℕ) where
  -- The journal's chain holds, and the tables agree with its tally.
  pub record Books (l : Ledger) : Type 0 where
    pub tally : Tally
    pub replayed : replay chain blank l.journal ≡ tallied tally
    pub tip : tally.prev ≡ last_hash genesis l.journal
    pub agrees : Agrees l tally

  cash_breaks-nil :
      (t : Tally) (rows : List (ℕ × ℤ)) → CashAgrees t.cash rows → cash_breaks t rows ≡ []
  unfolding cash_breaks
  cash_breaks-nil t [] h = refl
  cash_breaks-nil t ((p, c) ∷ rows) h = ground (arith, h.0, cash_breaks-nil t rows h.1)

  position_breaks-nil :
      (t : Tally) (l : Ledger) (keys : List (ℕ × ℕ))
      → ((p s : ℕ) → table_held l p s ≡ t.held p s)
      → position_breaks t l keys ≡ []
  unfolding position_breaks
  position_breaks-nil t l [] h = refl
  position_breaks-nil t l ((p, s) ∷ keys) h = ground (arith, h p s, position_breaks-nil t l keys h)

  order_breaks-nil :
      (t : Tally) (l : Ledger) (ids : List ℕ)
      → ((i : ℕ) → matches_fill (filled_of i l.orders) (t.fills i) ≡ true)
      → order_breaks t l ids ≡ []
  unfolding order_breaks
  order_breaks-nil t l [] h = refl
  order_breaks-nil t l (i ∷ ids) h = rw (h i) (order_breaks-nil t l ids h)

  compare_tables-nil : (l : Ledger) (t : Tally) → Agrees l t → compare_tables l t ≡ []
  unfolding compare_tables
  compare_tables-nil l t a = rw (
    cash_breaks-nil t l.accounts a.cash,
    position_breaks-nil t l _ a.held,
    order_breaks-nil t l _ a.fills,
  )

  -- Books that balance have no break.
  pub integrity-Books : (l : Ledger) → Books l → integrity chain l ≡ []
  unfolding integrity
  integrity-Books l b = rw (b.replayed, integrity) (compare_tables-nil l b.tally b.agrees)

  pub empty-Books : Books empty
  unfolding replay last_hash filled_of matches_fill position_of cash_of
  empty-Books = record {
    tally = blank;
    replayed = refl;
    tip = refl;
    agrees = record {
      cash = tt;
      held = λ p s. refl;
      fills = λ i. refl;
      new_cash = λ p h. refl;
      no_account = λ p h. refl;
      new_order = λ i h. (refl, refl);
    };
  }

  replay-append :
      (rs : List JournalRow) (t u : Tally) (r : JournalRow)
      → replay chain t rs ≡ tallied u
      → replay chain t (rs ++ (r ∷ [])) ≡ replay chain u (r ∷ [])
  unfolding replay
  replay-append [] t u r h = ap (λ v. replay chain v (r ∷ [])) (tallied_inj h)
  replay-append (x ∷ rs) t u r h = elim (Replay-cases (check_row chain t x)) [
    | inl (i, e) ↦ absurd (ground (arith, e, h))
    | inr (v, e) ↦ rw (e, replay) (replay-append rs v u r (rw (e, replay) at h))
  ]

  last_hash-append :
      (h : ℕ) (rs : List JournalRow) (r : JournalRow) → last_hash h (rs ++ (r ∷ [])) ≡ r.hash
  unfolding last_hash
  last_hash-append h [] r = refl
  last_hash-append h (x ∷ rs) r = last_hash-append x.hash rs r

  post-prev : (h : ℕ) (e : Entry) (t : Tally) → (post h e t).prev ≡ h
  unfolding post
  post-prev h (deposit p a) t = refl
  post-prev h (fill p f) t = refl

  check_new :
      (r : JournalRow) (t : Tally)
      → r.prev_hash ≡ t.prev
      → r.hash ≡ chain t.prev r.ts r.entry
      → replay chain t (r ∷ []) ≡ tallied (post r.hash r.entry t)
  unfolding replay check_row
  check_new r t p h = ground (arith, p, h)

  -- A journal row that `_journal` writes extends the chain and the tally.
  pub write_journal-replay :
      (ts : ℕ) (e : Entry) (l l' : Ledger) (t : Tally)
      → l'.journal ≡ l.journal
      → replay chain blank l.journal ≡ tallied t
      → t.prev ≡ last_hash genesis l.journal
      → let u = post (chain t.prev ts e) e t in
        (replay chain blank (write_journal chain ts e l').journal ≡ tallied u)
        × (u.prev ≡ last_hash genesis (write_journal chain ts e l').journal)
  unfolding write_journal
  write_journal-replay ts e l l' t same h tip =
      let row : JournalRow = record {
        id = length l.journal + 1;
        ts = ts;
        entry = e;
        prev_hash = t.prev;
        hash = chain t.prev ts e;
      } in
      (
        rw (same, ← tip) (replay-append l.journal blank t row h ∙ check_new row t refl refl),
        rw (same, ← tip)
            (post-prev (chain t.prev ts e) e t ∙ sym (last_hash-append genesis l.journal row)),
      )
