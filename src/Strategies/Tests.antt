-- ===== src/Strategies/Tests.antt =====
-- The gate's theorem at a concrete input.
use market_feed_platform.Prelude.{List, [], ◌∷◌, none, arith}
use market_feed_platform.Strategies.{Last, create, last_of}
use market_feed_platform.Strategies.Spacing.{Spaced, allowed, allowed-Spaced}

abbrev bars : List Last
bars =
    record { key = 1; strategy = 1; bar_ts = 100 }
    ∷ record { key = 2; strategy = 1; bar_ts = 110 }
    ∷ record { key = 1; strategy = 1; bar_ts = 120 }
    ∷ record { key = 1; strategy = 1; bar_ts = 130 }
    ∷ []

allowed-Spaced_example : Spaced 30 none (allowed 1 1 bars (create 30))
unfolding last_of
allowed-Spaced_example = allowed-Spaced 1 1 bars (create 30) (omega arith)
