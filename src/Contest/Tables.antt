-- ===== src/Contest/Tables.antt =====
-- The tables of the contest under the updates that its operations make.
use market_feed_platform.Prelude.{
  ℕ, ◌≡◌, refl, arith, ◌&&◌, none, some, List, [], ◌∷◌, ◌==◌, if◌then◌else◌,
}
use market_feed_platform.Prelude.Int.{ℤ, ◌+ℤ◌}
use market_feed_platform.Contest.{Position, add_cash, cash_of, position_of, upsert}
use market_feed_platform.Contest.Books.{CashAgrees}

-- A change of one participant's cash, in the table and in the tally.
pub add_cash-CashAgrees :
    (cash : ℕ → ℤ) (pid : ℕ) (d : ℤ) (rows : List (ℕ × ℤ))
    → CashAgrees cash rows
    → CashAgrees (λ p. if p == pid then cash p +ℤ d else cash p) (add_cash pid d rows)
unfolding add_cash
add_cash-CashAgrees cash pid d [] h = tt
add_cash-CashAgrees cash pid d ((p, c) ∷ rows) h =
    (ground (arith, h.0), add_cash-CashAgrees cash pid d rows h.1)

-- A change for a participant who has no account leaves the rows alone.
pub new-CashAgrees :
    (cash : ℕ → ℤ) (pid : ℕ) (d : ℤ) (rows : List (ℕ × ℤ))
    → cash_of pid rows ≡ none
    → CashAgrees cash rows
    → CashAgrees (λ p. if p == pid then cash p +ℤ d else cash p) rows
unfolding cash_of
new-CashAgrees cash pid d [] e h = tt
new-CashAgrees cash pid d ((p, c) ∷ rows) e h =
    (ground (arith, h.0, e), new-CashAgrees cash pid d rows (ground (arith, e)) h.1)

pub cash_of-add_cash :
    (p pid : ℕ) (d : ℤ) (rows : List (ℕ × ℤ))
    → cash_of p rows ≡ none
    → cash_of p (add_cash pid d rows) ≡ none
unfolding cash_of add_cash
cash_of-add_cash p pid d [] e = refl
cash_of-add_cash p pid d ((q, c) ∷ rows) e = ground (arith, e, cash_of-add_cash p pid d rows)

pub position_of-upsert :
    (p s : ℕ) (q : Position) (ps : List Position)
    → position_of p s (upsert q ps)
      ≡ (if p == q.owner && s == q.symbol then some q else position_of p s ps)
unfolding position_of upsert
position_of-upsert p s q [] = ground arith
position_of-upsert p s q (x ∷ ps) = ground (arith, position_of-upsert p s q ps)
