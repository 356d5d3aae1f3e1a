-- ===== src/Contest.antt =====
-- src/mdfeed/contest.py: the ledger of the mock trading contest, its tables as lists.
-- Nicknames, invitation codes, symbols and client order ids are only compared, so they are
-- numbers.  The clock's reading is an argument.  The hash chain's `_chain` is the parameter
-- `chain`.  A `with self._tx()` block that raises is rolled back: the ledger is as before.
pub mod Integrity
pub mod Books
pub mod Tables
pub mod Operations
pub mod Again
mod Tests
use market_feed_platform.Prelude.{
  ℕ, zero, suc, ◌+◌, ◌-◌, ◌*◌, ◌/◌, Bool, true, false, not, ◌&&◌, ◌||◌, Option, none, some, List,
  [], ◌∷◌, ◌++◌, map, ltb, leb, ◌==◌, if◌then◌else◌, length,
}
use market_feed_platform.Prelude.Int.{ℤ, pos, ◌+ℤ◌, ◌-ℤ◌, ltb_ℤ}

pub data Side : Type 0 where
  buy sell : Side

-- The detail of a journal row of kind "fill".
pub record Fill : Type 0 where
  pub order_id : ℕ
  pub symbol : ℕ
  pub side : Side
  pub qty : ℕ
  pub price : ℕ
  pub amount : ℕ
  pub fee : ℕ
  pub tax : ℕ
  pub cash_delta : ℤ

-- Kind and detail of a journal row, with its participant.
pub data Entry : Type 0 where
  deposit : ℕ → ℕ → Entry
  fill : ℕ → Fill → Entry

pub record JournalRow : Type 0 where
  pub id : ℕ
  pub ts : ℕ
  pub entry : Entry
  pub prev_hash : ℕ
  pub hash : ℕ

pub data Reason : Type 0 where
  unknown_price : Reason
  short_of_cash : Reason
  short_of_stock : Reason

-- `reason` is `none` exactly in the state FILLED.
pub record Order : Type 0 where
  pub id : ℕ
  pub participant_id : ℕ
  pub client_order_id : ℕ
  pub symbol : ℕ
  pub side : Side
  pub qty : ℕ
  pub price : ℕ
  pub amount : ℕ
  pub fee : ℕ
  pub tax : ℕ
  pub reason : Option Reason
  pub ts : ℕ

pub record Position : Type 0 where
  pub owner : ℕ
  pub symbol : ℕ
  pub qty : ℕ
  pub cost : ℕ

pub record Config : Type 0 where
  pub initial_cash : ℕ
  pub fee_ppm : ℕ
  pub tax_ppm : ℕ

-- The tables, and the next number of each AUTOINCREMENT.  `journal` is in the order of its ids.
pub record Ledger : Type 0 where
  pub participants : List (ℕ × ℕ)
  pub invites : List (ℕ × Option ℕ)
  pub accounts : List (ℕ × ℤ)
  pub positions : List Position
  pub orders : List Order
  pub journal : List JournalRow
  pub next_participant : ℕ
  pub next_order : ℕ

abbrev pub empty : Ledger
empty = record {
  participants = [];
  invites = [];
  accounts = [];
  positions = [];
  orders = [];
  journal = [];
  next_participant = 1;
  next_order = 1;
}

abbrev pub genesis : ℕ
genesis = 0

-- The hash of the last row, starting from `h`.
unfoldable pub last_hash : ℕ → List JournalRow → ℕ
last_hash h [] = h
last_hash h (r ∷ rs) = last_hash r.hash rs

-- `UPDATE accounts SET cash=cash+? WHERE participant_id=?`
unfoldable pub add_cash : ℕ → ℤ → List (ℕ × ℤ) → List (ℕ × ℤ)
add_cash pid d [] = []
add_cash pid d ((p, c) ∷ rows) = (p, if p == pid then c +ℤ d else c) ∷ add_cash pid d rows

unfoldable pub cash_of : ℕ → List (ℕ × ℤ) → Option ℤ
cash_of pid [] = none
cash_of pid ((p, c) ∷ rows) = if p == pid then some c else cash_of pid rows

abbrev pub is_at : ℕ → ℕ → Position → Bool
is_at pid symbol p = p.owner == pid && p.symbol == symbol

unfoldable pub position_of : ℕ → ℕ → List Position → Option Position
position_of pid symbol [] = none
position_of pid symbol (p ∷ ps) = if is_at pid symbol p then some p else position_of pid symbol ps

-- `INSERT INTO positions … ON CONFLICT DO UPDATE`
unfoldable pub upsert : Position → List Position → List Position
upsert q [] = q ∷ []
upsert q (p ∷ ps) = if is_at q.owner q.symbol p then q ∷ ps else p ∷ upsert q ps

abbrev pub qty_of : Option Position → ℕ
qty_of none = 0
qty_of (some p) = p.qty

abbrev pub cost_of : Option Position → ℕ
cost_of none = 0
cost_of (some p) = p.cost

-- `SELECT * FROM orders WHERE participant_id=? AND client_order_id=?`
unfoldable pub order_of : ℕ → ℕ → List Order → Option Order
order_of pid coid [] = none
order_of pid coid (o ∷ os) =
    if o.participant_id == pid && o.client_order_id == coid then some o else order_of pid coid os

pub record Costs : Type 0 where
  pub amount : ℕ
  pub fee : ℕ
  pub tax : ℕ

unfoldable pub costs : Config → Side → ℕ → ℕ → Costs
costs cfg side qty price =
    let amount = qty * price in
    record {
      amount = amount;
      fee = amount * cfg.fee_ppm / 1_000_000;
      tax = elim side [ sell ↦ amount * cfg.tax_ppm / 1_000_000 | buy ↦ 0 ];
    }

abbrev pub reject_buy : Costs → ℤ → Option Reason
reject_buy c cash = if ltb_ℤ cash (pos (c.amount + c.fee)) then some short_of_cash else none

abbrev pub reject_sell : ℕ → ℕ → Option Reason
reject_sell qty held = if ltb held qty then some short_of_stock else none

-- Why an order is rejected.
unfoldable pub reject : Side → ℕ → ℕ → Costs → ℤ → ℕ → Option Reason
reject side qty price c cash held =
    if price == 0
    then some unknown_price
    else elim side [ buy ↦ reject_buy c cash | sell ↦ reject_sell qty held ]

-- The change of the cash by a fill.
unfoldable pub cash_delta_of : Side → Costs → ℤ
cash_delta_of buy c = pos 0 -ℤ pos (c.amount + c.fee)
cash_delta_of sell c = pos c.amount -ℤ pos (c.fee + c.tax)

-- The position after a fill.
unfoldable pub filled_position : Side → ℕ → ℕ → ℕ → Costs → ℕ → ℕ → Position
filled_position buy pid symbol qty c held cost = record {
  owner = pid;
  symbol = symbol;
  qty = held + qty;
  cost = cost + c.amount + c.fee;
}
filled_position sell pid symbol qty c held cost = record {
  owner = pid;
  symbol = symbol;
  qty = held - qty;
  cost = cost - cost * qty / held;
}

-- The arguments of `place`.
pub record Request : Type 0 where
  pub pid : ℕ
  pub client_order_id : ℕ
  pub symbol : ℕ
  pub side : Side
  pub qty : ℕ
  pub price : ℕ

-- The row of `INSERT INTO orders`.
unfoldable pub order_row : Config → ℕ → Request → Option Reason → ℕ → Order
order_row cfg ts r reason oid =
    let c = costs cfg r.side r.qty r.price in
    record {
      id = oid;
      participant_id = r.pid;
      client_order_id = r.client_order_id;
      symbol = r.symbol;
      side = r.side;
      qty = r.qty;
      price = r.price;
      amount = c.amount;
      fee = c.fee;
      tax = c.tax;
      reason = reason;
      ts = ts;
    }

-- The detail that `_journal` is given for it.
unfoldable pub fill_row : Config → Request → ℕ → Fill
fill_row cfg r oid =
    let c = costs cfg r.side r.qty r.price in
    record {
      order_id = oid;
      symbol = r.symbol;
      side = r.side;
      qty = r.qty;
      price = r.price;
      amount = c.amount;
      fee = c.fee;
      tax = c.tax;
      cash_delta = cash_delta_of r.side c;
    }

-- What a call returns beside the ledger: a row and whether it is new, or an exception.
pub data Placed : Type 0 where
  existing : Order → Placed
  created : Order → Placed
  raised : Placed

pub data SignUp : Type 0 where
  joined : ℕ → SignUp
  bad_invite : SignUp
  nickname_taken : SignUp

unfoldable pub used_by : ℕ → List (ℕ × Option ℕ) → Option (Option ℕ)
used_by code [] = none
used_by code ((c, u) ∷ rows) = if c == code then some u else used_by code rows

unfoldable pub use_invite : ℕ → ℕ → List (ℕ × Option ℕ) → List (ℕ × Option ℕ)
use_invite code pid [] = []
use_invite code pid ((c, u) ∷ rows) =
    (c, if c == code then some pid else u) ∷ use_invite code pid rows

unfoldable pub has_nickname : ℕ → List (ℕ × ℕ) → Bool
has_nickname name [] = false
has_nickname name ((p, n) ∷ rows) = n == name || has_nickname name rows

module _ (chain : ℕ → ℕ → Entry → ℕ) where
  -- `_journal`
  unfoldable pub write_journal : ℕ → Entry → Ledger → Ledger
  write_journal ts e l =
      let prev = last_hash genesis l.journal in
      let row : JournalRow = record {
        id = length l.journal + 1;
        ts = ts;
        entry = e;
        prev_hash = prev;
        hash = chain prev ts e;
      } in
      record l { journal = l.journal ++ (row ∷ []) }

  -- The part of `place` after the lookups: `cash` is the account's, `was` the position.
  unfoldable pub settle : Config → ℕ → Request → ℤ → Option Position → Ledger → Placed × Ledger
  settle cfg ts r cash was l =
      let c = costs cfg r.side r.qty r.price in
      let reason = reject r.side r.qty r.price c cash (qty_of was) in
      let o = order_row cfg ts r reason l.next_order in
      let f = fill_row cfg r l.next_order in
      let q = filled_position r.side r.pid r.symbol r.qty c (qty_of was) (cost_of was) in
      elim reason [
        | some why ↦ (created o, record l { orders = o ∷ l.orders; next_order = l.next_order + 1 })
        | none ↦ (
          created o,
          write_journal ts (fill r.pid f) (record l {
            orders = o ∷ l.orders;
            next_order = l.next_order + 1;
            accounts = add_cash r.pid f.cash_delta l.accounts;
            positions = upsert q l.positions;
          }),
        )
      ]

  -- `place`.  It raises where the participant has no account, and where the table's CHECK refuses
  -- the quantity 0.
  unfoldable pub place : Config → ℕ → Request → Ledger → Placed × Ledger
  place cfg ts r l = elim (order_of r.pid r.client_order_id l.orders) [
    | some o ↦ (existing o, l)
    | none ↦ elim (cash_of r.pid l.accounts) [
      | none ↦ (raised, l)
      | some cash ↦
          if r.qty == 0
          then (raised, l)
          else settle cfg ts r cash (position_of r.pid r.symbol l.positions) l
    ]
  ]

  -- The part of `signup` after the checks.
  unfoldable pub join : Config → ℕ → ℕ → ℕ → Ledger → Ledger
  join cfg ts code nickname l =
      let pid = l.next_participant in
      write_journal ts (deposit pid cfg.initial_cash) (record l {
        participants = (pid, nickname) ∷ l.participants;
        next_participant = pid + 1;
        invites = use_invite code pid l.invites;
        accounts = (pid, pos cfg.initial_cash) ∷ l.accounts;
      })

  unfoldable pub signup : Config → ℕ → ℕ → ℕ → Ledger → SignUp × Ledger
  signup cfg ts code nickname l = elim (used_by code l.invites) [
    | none ↦ (bad_invite, l)
    | some u ↦ elim u [
      | some p ↦ (bad_invite, l)
      | none ↦
          if has_nickname nickname l.participants
          then (nickname_taken, l)
          else (joined l.next_participant, join cfg ts code nickname l)
    ]
  ]

unfoldable pub insert_codes : List ℕ → List (ℕ × Option ℕ) → Option (List (ℕ × Option ℕ))
insert_codes [] rows = some rows
insert_codes (c ∷ cs) rows = elim (used_by c rows) [
  | none ↦ insert_codes cs ((c, none) ∷ rows)
  | some u ↦ none
]

-- `create_invites`, on the codes that `secrets` made; a code that is there already raises.
unfoldable pub create_invites : List ℕ → Ledger → Option Ledger
create_invites codes l = elim (insert_codes codes l.invites) [
  | none ↦ none
  | some rows ↦ some (record l { invites = rows })
]
