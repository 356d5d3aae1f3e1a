-- ===== src/Entitlements.antt =====
-- src/mdfeed/entitlements.py: who may see which symbols.  Tokens and symbols are texts that are
-- only compared, so they are numbers: the token 0 is the empty text, and `all_symbols` is "*".  A
-- set is a list of its elements.
pub mod Grants
mod Tests
use market_feed_platform.Prelude.{
  ℕ, Bool, true, false, not, ◌&&◌, ◌||◌, Option, none, some, List, [], ◌∷◌, ◌==◌, if◌then◌else◌,
}

-- `ALL`
abbrev pub all_symbols : ℕ
all_symbols = 1

pub record Entitlements : Type 0 where
  pub by_token : List (ℕ × List ℕ)
  pub enabled : Bool

unfoldable pub contains : ℕ → List ℕ → Bool
contains x [] = false
contains x (y ∷ ys) = y == x || contains x ys

-- `by_token.get`
unfoldable pub lookup : ℕ → List (ℕ × List ℕ) → Option (List ℕ)
lookup token [] = none
lookup token ((t, symbols) ∷ rows) = if t == token then some symbols else lookup token rows

abbrev pub or_empty : Option (List ℕ) → List ℕ
or_empty none = []
or_empty (some symbols) = symbols

unfoldable pub allowed : Entitlements → ℕ → List ℕ
allowed e token = or_empty (lookup token e.by_token)

unfoldable pub allows_all : Entitlements → ℕ → Bool
allows_all e token = contains all_symbols (allowed e token)

abbrev pub is_some {ℓ} : {A : Type ℓ} → Option A → Bool
is_some none = false
is_some (some a) = true

unfoldable pub known : Entitlements → ℕ → Bool
known e token = is_some (lookup token e.by_token)

pub data Cause : Type 0 where
  no_cause token_required unknown_token not_entitled : Cause

-- The filter, where `none` is every symbol, the symbols refused and the cause.
pub record Resolution : Type 0 where
  pub granted : Option (List ℕ)
  pub denied : List ℕ
  pub cause : Cause

-- The symbols that are among the allowed ones, and those that are not.
unfoldable pub within : List ℕ → List ℕ → List ℕ
within allow [] = []
within allow (s ∷ ss) = let rest = within allow ss in if contains s allow then s ∷ rest else rest

unfoldable pub outside : List ℕ → List ℕ → List ℕ
outside allow [] = []
outside allow (s ∷ ss) = let rest = outside allow ss in if contains s allow then rest else s ∷ rest

-- `set(requested) if requested else None`; a request that is None is an empty one.
abbrev pub as_requested : List ℕ → Option (List ℕ)
as_requested [] = none
as_requested (s ∷ ss) = some (s ∷ ss)

abbrev pub cause_of : List ℕ → Cause
cause_of [] = no_cause
cause_of (s ∷ ss) = not_entitled

-- The end of `resolve`, for a token that does not allow everything.
abbrev pub narrow : List ℕ → List ℕ → Resolution
narrow allow [] = record { granted = some allow; denied = []; cause = no_cause }
narrow allow (s ∷ ss) =
    let refused = outside allow (s ∷ ss) in
    record { granted = some (within allow (s ∷ ss)); denied = refused; cause = cause_of refused }

unfoldable pub resolve : Entitlements → ℕ → List ℕ → Resolution
resolve e token requested =
    if not e.enabled
    then record { granted = as_requested requested; denied = []; cause = no_cause }
    else if token == 0
    then record { granted = some []; denied = requested; cause = token_required }
    else if not (known e token)
    then record { granted = some []; denied = requested; cause = unknown_token }
    else if allows_all e token
    then record { granted = as_requested requested; denied = []; cause = no_cause }
    else narrow (allowed e token) requested
