-- ===== src/Orders/Holdings.antt =====
-- src/mdfeed/ledger.py: the holdings at the start of a day and their reconciliation with the
-- broker's.  The tables `holdings_baseline` and `holdings_baseline_taken` stand beside the ledger.
-- A symbol that `expected_holdings` leaves out because its quantity is nought is compared all the
-- same, with that quantity.
use market_feed_platform.Prelude.{
  ℕ, ◌+◌, ◌≡◌, refl, arith, Bool, false, ◌&&◌, ◌||◌, List, [], ◌∷◌, ◌++◌, ltb, leb, ◌==◌,
  if◌then◌else◌,
}
use market_feed_platform.Prelude.Int.{ℤ, pos, ◌-ℤ◌, eqb_ℤ, pos_part, neg_part}
use market_feed_platform.Orders.{Side, buy, sell, Key, Order, NoticeFill, Ledger, key_eq, sum_of}
use market_feed_platform.Orders.Reconcile.{notice_grace, is_among}

pub record BaselineRow : Type 0 where
  pub trade_date : ℕ
  pub symbol : ℕ
  pub qty : ℕ

pub record Holdings : Type 0 where
  pub taken : List ℕ
  pub rows : List BaselineRow

unfoldable pub has_date : ℕ → List ℕ → Bool
has_date date [] = false
has_date date (d ∷ ds) = d == date || has_date date ds

abbrev pub rows_for : ℕ → List (ℕ × ℕ) → List BaselineRow
rows_for date [] = []
rows_for date ((s, q) ∷ qs) = record { trade_date = date; symbol = s; qty = q } ∷ rows_for date qs

unfoldable pub set_holdings_baseline : ℕ → List (ℕ × ℕ) → Holdings → Holdings
set_holdings_baseline date holdings h =
    if has_date date h.taken
    then h
    else record { taken = date ∷ h.taken; rows = h.rows ++ rows_for date holdings }

unfoldable pub base_qty : ℕ → ℕ → List BaselineRow → ℕ
base_qty date s [] = 0
base_qty date s (b ∷ bs) =
    if b.trade_date == date && b.symbol == s then b.qty else base_qty date s bs

abbrev pub key : ℕ → ℕ → Side → Key
key date s side = record { trade_date = date; symbol = s; side = side }

abbrev pub filled_in : Key → List Order → ℕ
filled_in k os = sum_of (λ o. key_eq k o.key) (λ o. o.filled_qty) os

-- `expected_holdings`, for a symbol
abbrev pub expected_qty : ℕ → ℕ → Holdings → List Order → ℤ
expected_qty date s h os =
    pos (base_qty date s h.rows + filled_in (key date s buy) os)
    -ℤ pos (filled_in (key date s sell) os)

unfoldable pub recent_of : Key → ℕ → List Order → List NoticeFill → ℕ
recent_of k now os [] = 0
recent_of k now os (n ∷ ns) =
    (if ltb now (n.ts + notice_grace) && is_among (λ o. key_eq k o.key) n.order_id os
      then n.qty
      else 0)
    + recent_of k now os ns

abbrev pub pending_qty : ℕ → ℕ → ℕ → Ledger → ℤ
pending_qty date s now l =
    pos (recent_of (key date s buy) now l.orders l.notices)
    -ℤ pos (recent_of (key date s sell) now l.orders l.notices)

-- `diff * pending > 0 and abs(diff) <= abs(pending)`
abbrev pub waits : ℤ → ℤ → Bool
waits diff pending =
    (ltb 0 (pos_part diff) && leb (pos_part diff) (pos_part pending))
    || (ltb 0 (neg_part diff) && leb (neg_part diff) (neg_part pending))

unfoldable pub broker_qty : ℕ → List (ℕ × ℕ) → ℕ
broker_qty s [] = 0
broker_qty s ((t, q) ∷ qs) = if t == s then q else broker_qty s qs

-- `sorted(set(…))`
unfoldable pub insert : ℕ → List ℕ → List ℕ
insert s [] = s ∷ []
insert s (x ∷ xs) =
    let rest = insert s xs in if s == x then x ∷ xs else if ltb s x then s ∷ x ∷ xs else x ∷ rest

unfoldable pub base_symbols : ℕ → List BaselineRow → List ℕ → List ℕ
base_symbols date [] acc = acc
base_symbols date (b ∷ bs) acc =
    let rest = base_symbols date bs acc in
    if b.trade_date == date then insert b.symbol rest else rest

unfoldable pub order_symbols : ℕ → List Order → List ℕ → List ℕ
order_symbols date [] acc = acc
order_symbols date (o ∷ os) acc =
    let rest = order_symbols date os acc in
    if o.key.trade_date == date then insert o.key.symbol rest else rest

unfoldable pub broker_symbols : List (ℕ × ℕ) → List ℕ
broker_symbols [] = []
broker_symbols ((s, q) ∷ qs) = insert s (broker_symbols qs)

pub record Mismatch : Type 0 where
  pub symbol : ℕ
  pub ledger_qty : ℤ
  pub broker_qty : ℕ

abbrev pub diff_of : ℕ → ℕ → List (ℕ × ℕ) → Holdings → Ledger → ℤ
diff_of date s broker h l = expected_qty date s h l.orders -ℤ pos (broker_qty s broker)

unfoldable pub explained_qty : ℕ → ℕ → ℕ → List (ℕ × ℕ) → Holdings → Ledger → Bool
explained_qty date s now broker h l =
    eqb_ℤ (diff_of date s broker h l) (pos 0)
    || waits (diff_of date s broker h l) (pending_qty date s now l)

unfoldable pub mismatches : ℕ → ℕ → List (ℕ × ℕ) → Holdings → Ledger → List ℕ → List Mismatch
mismatches date now broker h l [] = []
mismatches date now broker h l (s ∷ ss) =
    let rest = mismatches date now broker h l ss in
    if explained_qty date s now broker h l
    then rest
    else record {
      symbol = s;
      ledger_qty = expected_qty date s h l.orders;
      broker_qty = broker_qty s broker;
    }
      ∷ rest

unfoldable pub reconcile_holdings : ℕ → ℕ → List (ℕ × ℕ) → Holdings → Ledger → List Mismatch
reconcile_holdings date now broker h l =
    mismatches date now broker h l
      (base_symbols date h.rows (order_symbols date l.orders (broker_symbols broker)))

-- Which symbols are compared.
unfoldable pub among : ℕ → List ℕ → Bool
among s [] = false
among s (x ∷ xs) = s == x || among s xs

pub among-insert : (s t : ℕ) (xs : List ℕ) → among s (insert t xs) ≡ (s == t || among s xs)
unfolding among insert
among-insert s t [] = refl
among-insert s t (x ∷ xs) = ground (arith, among-insert s t xs)
