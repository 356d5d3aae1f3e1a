-- ===== src/Strategies.antt =====
-- src/mdfeed/strategies.py: `SignalGate`, the least distance of two signals.  Symbols and
-- strategies are only compared, so they are numbers; the cooldown is in nanoseconds.
pub mod Spacing
mod Tests
use market_feed_platform.Prelude.{
  ℕ, ◌+◌, ◌-◌, Bool, true, false, ◌&&◌, Option, none, some, List, [], ◌∷◌, ltb, ◌==◌, if◌then◌else◌,
}

-- An entry of `_last`.
pub record Last : Type 0 where
  pub key : ℕ
  pub strategy : ℕ
  pub bar_ts : ℕ

pub record SignalGate : Type 0 where
  pub cooldown : ℕ
  pub suppressed : ℕ
  pub last : List Last

abbrev pub create : ℕ → SignalGate
create cooldown = record { cooldown = cooldown; suppressed = 0; last = [] }

abbrev pub is_for : ℕ → ℕ → Last → Bool
is_for key strategy e = e.key == key && e.strategy == strategy

-- `_last.get(ck)`
unfoldable pub last_of : ℕ → ℕ → List Last → Option ℕ
last_of key strategy [] = none
last_of key strategy (e ∷ es) =
    if is_for key strategy e then some e.bar_ts else last_of key strategy es

-- `_last[ck] = bar_ts_ns`
unfoldable pub set_last : ℕ → ℕ → ℕ → List Last → List Last
set_last key strategy ts [] = record { key = key; strategy = strategy; bar_ts = ts } ∷ []
set_last key strategy ts (e ∷ es) =
    let rest = set_last key strategy ts es in
    if is_for key strategy e
    then record { key = key; strategy = strategy; bar_ts = ts } ∷ es
    else e ∷ rest

-- A bar before the last one is less than the cooldown after it, too.
abbrev pub too_soon : ℕ → Option ℕ → ℕ → Bool
too_soon cooldown none ts = false
too_soon cooldown (some prev) ts = ltb (ts - prev) cooldown

unfoldable pub allow : ℕ → ℕ → ℕ → SignalGate → Bool × SignalGate
allow key strategy ts g =
    if g.cooldown == 0
    then (true, g)
    else if too_soon g.cooldown (last_of key strategy g.last) ts
    then (false, record g { suppressed = g.suppressed + 1 })
    else (true, record g { last = set_last key strategy ts g.last })
