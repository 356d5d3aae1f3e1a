-- ===== src/Entitlements/Tests.antt =====
-- The entitlements' theorems at concrete inputs.
use market_feed_platform.Prelude.{◌≡◌, refl, true, not, ◌&&◌, [], ◌∷◌}
use market_feed_platform.Entitlements.{Entitlements, resolve, contains}
use market_feed_platform.Entitlements.Grants.{
  passes, entitled, asked, passes-resolve, denied-resolve,
}

-- Token 5 may see the symbols 10 and 11, token 6 every symbol.
abbrev desk : Entitlements
desk = record { by_token = (5, 10 ∷ 11 ∷ []) ∷ (6, 1 ∷ []) ∷ []; enabled = true }

passes-resolve_example :
    passes 10 (resolve desk 5 (10 ∷ 12 ∷ [])).granted
    ≡ (entitled desk 5 10 && asked 10 (10 ∷ 12 ∷ []))
passes-resolve_example = passes-resolve desk 5 10 (10 ∷ 12 ∷ []) refl

denied-resolve_example :
    contains 12 (resolve desk 5 (10 ∷ 12 ∷ [])).denied
    ≡ not (passes 12 (resolve desk 5 (10 ∷ 12 ∷ [])).granted)
unfolding contains
denied-resolve_example = denied-resolve desk 5 12 (10 ∷ 12 ∷ []) refl refl
