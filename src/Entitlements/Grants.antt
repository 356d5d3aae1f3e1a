-- ===== src/Entitlements/Grants.antt =====
-- What `resolve` grants while entitlements are enabled.
use market_feed_platform.Prelude.{
  ℕ, ◌≡◌, refl, ap, arith, inl, inr, Bool-cases, ==→eq, Bool, true, false, not, ◌&&◌, ◌||◌, Option,
  none, some, List, [], ◌∷◌, ◌==◌,
}
use market_feed_platform.Entitlements.{
  Entitlements, all_symbols, contains, lookup, allowed, allows_all, known, or_empty, within,
  outside, resolve,
}

-- Whether a subscriber with this filter gets the symbol.
unfoldable pub passes : ℕ → Option (List ℕ) → Bool
passes symbol none = true
passes symbol (some symbols) = contains symbol symbols

-- What a token is entitled to: nothing without a token that the file names.
unfoldable pub entitled : Entitlements → ℕ → ℕ → Bool
entitled e token symbol =
    not (token == 0) && (allows_all e token || contains symbol (allowed e token))

-- Whether a request, when it names symbols, names this one.
unfoldable pub asked : ℕ → List ℕ → Bool
asked symbol [] = true
asked symbol (s ∷ ss) = contains symbol (s ∷ ss)

contains_nil : (x : ℕ) → contains x [] ≡ false
unfolding contains
contains_nil x = refl

same_contains : (s x : ℕ) (allow : List ℕ) → (s == x) ≡ true → contains s allow ≡ contains x allow
same_contains s x allow h = ap (λ y. contains y allow) (==→eq s x h)

contains-within :
    (x : ℕ) (allow ss : List ℕ) → contains x (within allow ss) ≡ (contains x ss && contains x allow)
unfolding contains within
contains-within x allow [] = refl
contains-within x allow (s ∷ ss) =
    let rest = contains-within x allow ss in
    elim (Bool-cases (s == x)) [
      | inl h ↦ ground (arith, h, same_contains s x allow h, rest)
      | inr h ↦ ground (arith, h, rest)
    ]

contains-outside :
    (x : ℕ) (allow ss : List ℕ)
    → contains x (outside allow ss) ≡ (contains x ss && not (contains x allow))
unfolding contains outside
contains-outside x allow [] = refl
contains-outside x allow (s ∷ ss) =
    let rest = contains-outside x allow ss in
    elim (Bool-cases (s == x)) [
      | inl h ↦ ground (arith, h, same_contains s x allow h, rest)
      | inr h ↦ ground (arith, h, rest)
    ]

-- While entitlements are enabled, a subscriber gets a symbol exactly when its token is entitled to
-- it and the request, if it names any symbols, names it.
pub passes-resolve :
    (e : Entitlements) (token symbol : ℕ) (requested : List ℕ)
    → e.enabled ≡ true
    → passes symbol (resolve e token requested).granted
      ≡ (entitled e token symbol && asked symbol requested)
unfolding resolve passes entitled asked known allows_all allowed
passes-resolve e token symbol [] on =
    ground (arith, on, contains_nil all_symbols, contains_nil symbol)
passes-resolve e token symbol (s ∷ ss) on = ground (
  arith,
  on,
  contains_nil all_symbols,
  contains_nil symbol,
  contains-within symbol (or_empty (lookup token e.by_token)) (s ∷ ss),
)

-- While entitlements are enabled, a requested symbol is named as denied exactly when it is not
-- granted.
pub denied-resolve :
    (e : Entitlements) (token symbol : ℕ) (requested : List ℕ)
    → e.enabled ≡ true
    → contains symbol requested ≡ true
    → contains symbol (resolve e token requested).denied
      ≡ not (passes symbol (resolve e token requested).granted)
unfolding resolve passes known allows_all allowed
denied-resolve e token symbol [] on asks = absurd (unfold contains in ground (arith, asks))
denied-resolve e token symbol (s ∷ ss) on asks =
    let allow = or_empty (lookup token e.by_token) in
    ground (
      arith,
      on,
      asks,
      contains_nil all_symbols,
      contains_nil symbol,
      contains-within symbol allow (s ∷ ss),
      contains-outside symbol allow (s ∷ ss),
    )
