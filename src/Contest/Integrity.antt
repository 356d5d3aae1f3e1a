-- ===== src/Contest/Integrity.antt =====
-- src/mdfeed/contest.py, `_integrity`: the tables, computed again from the journal.
-- The breaks come in the order of the tables' rows and then of the journal's, not sorted.
use market_feed_platform.Prelude.{
  ℕ, ◌≡◌, refl, ap, ◌⊎◌, inl, inr, Bool, true, false, not, ◌&&◌, ◌||◌, Option, none, some, List, [],
  ◌∷◌, ◌++◌, ◌==◌, if◌then◌else◌,
}
use market_feed_platform.Prelude.Int.{ℤ, pos, ◌+ℤ◌, ◌-ℤ◌, eqb_ℤ}
use market_feed_platform.Contest.{
  Side, buy, sell, Fill, Entry, deposit, fill, JournalRow, Order, Position, Ledger, genesis,
  position_of, qty_of,
}

pub data Break : Type 0 where
  journal_chain_broken : ℕ → Break
  cash_mismatch : ℕ → ℤ → ℤ → Break
  position_mismatch : ℕ → ℕ → ℤ → ℤ → Break
  order_journal_mismatch : ℕ → Break

-- The three dicts that the loop over the journal fills, each as `get` with its default, and the
-- keys of two of them.
pub record Tally : Type 0 where
  pub prev : ℕ
  pub cash : ℕ → ℤ
  pub held : ℕ → ℕ → ℤ
  pub held_keys : List (ℕ × ℕ)
  pub fills : ℕ → Option Fill
  pub fill_keys : List ℕ

abbrev pub blank : Tally
blank = record {
  prev = genesis;
  cash = λ p. pos 0;
  held = λ p s. pos 0;
  held_keys = [];
  fills = λ i. none;
  fill_keys = [];
}

-- The signed quantity of a fill.
abbrev pub signed : Side → ℕ → ℤ
signed buy q = pos q
signed sell q = pos 0 -ℤ pos q

-- What one journal row does to the dicts.
unfoldable pub post : ℕ → Entry → Tally → Tally
post hash (deposit pid amount) t = record t {
  prev = hash;
  cash = λ p. if p == pid then t.cash p +ℤ pos amount else t.cash p;
}
post hash (fill pid f) t = record t {
  prev = hash;
  cash = λ p. if p == pid then t.cash p +ℤ f.cash_delta else t.cash p;
  held = λ p s. if p == pid && s == f.symbol then t.held p s +ℤ signed f.side f.qty else t.held p s;
  held_keys = (pid, f.symbol) ∷ t.held_keys;
  fills = λ i. if i == f.order_id then some f else t.fills i;
  fill_keys = f.order_id ∷ t.fill_keys;
}

pub data Replay : Type 0 where
  broken : ℕ → Replay
  tallied : Tally → Replay

-- `o[k] != f[k]` for the five fields
unfoldable pub agrees : Order → Fill → Bool
agrees o f =
    o.qty == f.qty && o.price == f.price && o.amount == f.amount && o.fee == f.fee && o.tax == f.tax

-- The filled order of an id: `SELECT * FROM orders WHERE state='FILLED'`.
unfoldable pub filled_of : ℕ → List Order → Option Order
filled_of i [] = none
filled_of i (o ∷ os) =
    let rest = filled_of i os in
    elim o.reason [ some why ↦ rest | none ↦ if o.id == i then some o else rest ]

unfoldable pub matches_fill : Option Order → Option Fill → Bool
matches_fill none none = true
matches_fill (some o) (some f) = agrees o f
matches_fill _ _ = false

unfoldable pub filled_ids : List Order → List ℕ
filled_ids [] = []
filled_ids (o ∷ os) = elim o.reason [ some why ↦ filled_ids os | none ↦ o.id ∷ filled_ids os ]

abbrev pub table_held : Ledger → ℕ → ℕ → ℤ
table_held l p s = pos (qty_of (position_of p s l.positions))

unfoldable pub cash_breaks : Tally → List (ℕ × ℤ) → List Break
cash_breaks t [] = []
cash_breaks t ((p, c) ∷ rows) =
    if eqb_ℤ (t.cash p) c
    then cash_breaks t rows
    else cash_mismatch p c (t.cash p) ∷ cash_breaks t rows

unfoldable pub position_breaks : Tally → Ledger → List (ℕ × ℕ) → List Break
position_breaks t l [] = []
position_breaks t l ((p, s) ∷ keys) =
    if eqb_ℤ (table_held l p s) (t.held p s)
    then position_breaks t l keys
    else position_mismatch p s (table_held l p s) (t.held p s) ∷ position_breaks t l keys

unfoldable pub order_breaks : Tally → Ledger → List ℕ → List Break
order_breaks t l [] = []
order_breaks t l (i ∷ ids) =
    if matches_fill (filled_of i l.orders) (t.fills i)
    then order_breaks t l ids
    else order_journal_mismatch i ∷ order_breaks t l ids

abbrev position_keys : List Position → List (ℕ × ℕ)
position_keys [] = []
position_keys (p ∷ ps) = (p.owner, p.symbol) ∷ position_keys ps

abbrev has_key : ℕ → ℕ → List (ℕ × ℕ) → Bool
has_key p s [] = false
has_key p s ((q, u) ∷ keys) = (p == q && s == u) || has_key p s keys

-- `set(xs) | set(ys)` of pairs: the keys of `xs` in front of the others of `ys`, each once.
abbrev union_keys : List (ℕ × ℕ) → List (ℕ × ℕ) → List (ℕ × ℕ)
union_keys [] ys = ys
union_keys ((p, s) ∷ xs) ys =
    let rest = union_keys xs ys in if has_key p s rest then rest else (p, s) ∷ rest

abbrev has_id : ℕ → List ℕ → Bool
has_id i [] = false
has_id i (j ∷ js) = i == j || has_id i js

abbrev union_ids : List ℕ → List ℕ → List ℕ
union_ids [] ys = ys
union_ids (i ∷ xs) ys = let rest = union_ids xs ys in if has_id i rest then rest else i ∷ rest

-- The comparisons after the loop.
unfoldable pub compare_tables : Ledger → Tally → List Break
compare_tables l t =
    cash_breaks t l.accounts
    ++ (position_breaks t l (union_keys (position_keys l.positions) (union_keys t.held_keys []))
        ++ order_breaks t l (union_ids (filled_ids l.orders) (union_ids t.fill_keys [])))

module _ (chain : ℕ → ℕ → Entry → ℕ) where
  -- One round of the loop over the journal.
  unfoldable pub check_row : Tally → JournalRow → Replay
  check_row t r =
      if not (r.prev_hash == t.prev) || not (r.hash == chain t.prev r.ts r.entry)
      then broken r.id
      else tallied (post r.hash r.entry t)

  unfoldable pub replay : Tally → List JournalRow → Replay
  replay t [] = tallied t
  replay t (r ∷ rs) = elim (check_row t r) [ broken i ↦ broken i | tallied u ↦ replay u rs ]

  unfoldable pub integrity : Ledger → List Break
  integrity l = elim (replay blank l.journal) [
    | broken i ↦ journal_chain_broken i ∷ []
    | tallied t ↦ compare_tables l t
  ]

pub Replay-cases : (x : Replay) → ((i : ℕ) × (x ≡ broken i)) ⊎ ((t : Tally) × (x ≡ tallied t))
Replay-cases (broken i) = inl (i, refl)
Replay-cases (tallied t) = inr (t, refl)

pub tallied_inj : {t u : Tally} → tallied t ≡ tallied u → t ≡ u
tallied_inj {t} h = ap (λ x. elim x [ broken i ↦ t | tallied v ↦ v ]) h
