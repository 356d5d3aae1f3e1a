-- ===== src/Bus/Tests.antt =====
-- The bus's theorems at concrete inputs.
use market_feed_platform.Prelude.{◌+◌, ◌≡◌, refl, true, some, List, [], ◌∷◌, ◌++◌}
use market_feed_platform.Bus.{Publisher, Client, create, connect, register, full, each}
use market_feed_platform.Bus.Steps.{
  client_of, Step, publishes, gets, written, connected, leaves, stays, run, taken, published,
}
use market_feed_platform.Bus.Delivery.{Delivered, delivered}
use market_feed_platform.Bus.Sources.{
  Event, frame, death, SourceTracker, initial, track, died, died_degraded, among, degraded_sources,
  silent,
}

-- A bus with room for two frames and one subscriber.
abbrev bus : Publisher
bus = register 0 (some 5) (connect (create 2))

abbrev subscriber : Client
subscriber = record {
  id = 0;
  queue = [];
  stats = some (record { name = some 5; dropped = 0; sent = 0 });
}

-- Three frames overtake the subscriber, and another one comes and goes.
abbrev steps : List Step
steps =
    connected
    ∷ publishes (1 ∷ [])
    ∷ publishes (2 ∷ [])
    ∷ publishes (3 ∷ [])
    ∷ leaves 1
    ∷ gets 0
    ∷ written 0
    ∷ publishes (4 ∷ [])
    ∷ []

delivered_example : Delivered 0 (run steps bus) 0 ([] ++ published steps) (taken 0 steps bus)
unfolding connect register each client_of full stays
delivered_example =
    delivered 0 steps bus subscriber (record { name = some 5; dropped = 0; sent = 0 }) refl refl
      refl refl

abbrev tracker : SourceTracker
tracker = record { stale_after = 60_000_000; state = initial (1 ∷ 2 ∷ []) }

abbrev events : List Event
events = frame 20 2 ∷ death 2 ∷ frame 30 2 ∷ []

died_degraded_example :
    among 101 (degraded_sources (λ p. 100 + p) 40 (track events (died 1 tracker))) ≡ true
unfolding initial silent
died_degraded_example = died_degraded (λ p. 100 + p) 1 40 events tracker refl refl
