-- ===== src/Bus/Sources.antt =====
-- src/mdfeed/bus.py: `SourceTracker`.  A path is a number, and instants are microseconds; 0 stands
-- for "no frame yet", as in the source.
use market_feed_platform.Prelude.{
  ==→eq, ap, inl, inr, Bool-cases, ℕ, ◌+◌, ◌-◌, ◌≡◌, arith, Bool, true, false, not, ◌&&◌, ◌||◌,
  List, [], ◌∷◌, ltb, ◌==◌, if◌then◌else◌,
}

pub record Source : Type 0 where
  pub path : ℕ
  pub connected : Bool
  pub frames : ℕ
  pub last_at : ℕ
  pub restarts : ℕ

pub record SourceTracker : Type 0 where
  pub stale_after : ℕ
  pub state : List Source

abbrev pub unseen : ℕ → Source
unseen path = record { path = path; connected = false; frames = 0; last_at = 0; restarts = 0 }

unfoldable pub initial : List ℕ → List Source
initial [] = []
initial (path ∷ paths) = unseen path ∷ initial paths

abbrev pub touch : ℕ → Source → Source
touch now s = record s { connected = true; frames = s.frames + 1; last_at = now }

-- `setdefault` and the changes of `mark`
unfoldable pub mark_in : ℕ → ℕ → List Source → List Source
mark_in now path [] = touch now (unseen path) ∷ []
mark_in now path (s ∷ ss) =
    let rest = mark_in now path ss in if s.path == path then touch now s ∷ ss else s ∷ rest

unfoldable pub mark : ℕ → ℕ → SourceTracker → SourceTracker
mark now path t = record t { state = mark_in now path t.state }

unfoldable pub died_in : ℕ → List Source → List Source
died_in path [] = []
died_in path (s ∷ ss) =
    let rest = died_in path ss in
    if s.path == path
    then record s { connected = false; restarts = s.restarts + 1 } ∷ ss
    else s ∷ rest

unfoldable pub died : ℕ → SourceTracker → SourceTracker
died path t = record t { state = died_in path t.state }

unfoldable pub is_stale : ℕ → ℕ → Source → Bool
is_stale stale_after now s =
    ltb 0 s.frames && not (s.last_at == 0) && ltb stale_after (now - s.last_at)

-- `degraded_sources` of `report`, with `os.path.basename`.
unfoldable pub degraded : (ℕ → ℕ) → ℕ → ℕ → List Source → List ℕ
degraded basename stale_after now [] = []
degraded basename stale_after now (s ∷ ss) =
    let rest = degraded basename stale_after now ss in
    if is_stale stale_after now s || not s.connected then basename s.path ∷ rest else rest

unfoldable pub degraded_sources : (ℕ → ℕ) → ℕ → SourceTracker → List ℕ
degraded_sources basename now t = degraded basename t.stale_after now t.state

-- What happens to the sources, with the clock's readings.
pub data Event : Type 0 where
  frame : ℕ → ℕ → Event
  death : ℕ → Event

unfoldable pub track : List Event → SourceTracker → SourceTracker
track [] t = t
track (frame now path ∷ es) t = track es (mark now path t)
track (death path ∷ es) t = track es (died path t)

-- No frame comes from a source.
unfoldable pub silent : ℕ → List Event → Bool
silent path [] = true
silent path (frame now p ∷ es) = not (p == path) && silent path es
silent path (death p ∷ es) = silent path es

unfoldable pub among : ℕ → List ℕ → Bool
among x [] = false
among x (y ∷ ys) = y == x || among x ys

-- The first entry of a path is there and not connected.
unfoldable pub is_down : ℕ → List Source → Bool
is_down path [] = false
is_down path (s ∷ ss) = if s.path == path then not s.connected else is_down path ss

is_down-mark_in :
    (now path p : ℕ) (ss : List Source)
    → (p == path) ≡ false
    → is_down path ss ≡ true
    → is_down path (mark_in now p ss) ≡ true
unfolding is_down mark_in
is_down-mark_in now path p [] n d = absurd (ground (arith, d))
is_down-mark_in now path p (s ∷ ss) n d = ground (arith, n, d, is_down-mark_in now path p ss n)

is_down-died_in :
    (path p : ℕ) (ss : List Source) → is_down path ss ≡ true → is_down path (died_in p ss) ≡ true
unfolding is_down died_in
is_down-died_in path p [] d = absurd (ground (arith, d))
is_down-died_in path p (s ∷ ss) d = ground (arith, d, is_down-died_in path p ss)

degraded-is_down :
    (basename : ℕ → ℕ) (stale_after now path : ℕ) (ss : List Source)
    → is_down path ss ≡ true
    → among (basename path) (degraded basename stale_after now ss) ≡ true
unfolding is_down among degraded
degraded-is_down basename stale_after now path [] d = absurd (ground (arith, d))
degraded-is_down basename stale_after now path (s ∷ ss) d =
    let rest = degraded-is_down basename stale_after now path ss in
    elim (Bool-cases (s.path == path)) [
      | inr other ↦ ground (arith, d, other, rest)
      | inl same ↦
          let name : basename s.path ≡ basename path = ap basename (==→eq s.path path same) in
          ground (arith, d, same, name, rest)
    ]

-- A source is down after it died.
abbrev pub knows : ℕ → List Source → Bool
knows path [] = false
knows path (s ∷ ss) = s.path == path || knows path ss

is_down-died_in_known :
    (path : ℕ) (ss : List Source) → knows path ss ≡ true → is_down path (died_in path ss) ≡ true
unfolding is_down died_in
is_down-died_in_known path [] k = absurd (ground (arith, k))
is_down-died_in_known path (s ∷ ss) k = ground (arith, k, is_down-died_in_known path ss)

track-is_down :
    (basename : ℕ → ℕ) (path now : ℕ) (es : List Event) (t : SourceTracker)
    → silent path es ≡ true
    → is_down path t.state ≡ true
    → among (basename path) (degraded_sources basename now (track es t)) ≡ true
unfolding silent track degraded_sources
track-is_down basename path now [] t q d =
    degraded-is_down basename t.stale_after now path t.state d
track-is_down basename path now (frame at p ∷ es) t q d =
    track-is_down basename path now es (mark at p t) (ground (arith, q))
      (unfold mark in is_down-mark_in at path p t.state (ground (arith, q)) d)
track-is_down basename path now (death p ∷ es) t q d =
    track-is_down basename path now es (died p t) q
      (unfold died in is_down-died_in path p t.state d)

-- A source that has died is reported as degraded, by its path's base name, at any time until a frame
-- of its own comes, whatever frames the other sources bring and whichever of them die.
pub died_degraded :
    (basename : ℕ → ℕ) (path now : ℕ) (es : List Event) (t : SourceTracker)
    → knows path t.state ≡ true
    → silent path es ≡ true
    → among (basename path) (degraded_sources basename now (track es (died path t))) ≡ true
died_degraded basename path now es t k q =
    track-is_down basename path now es (died path t) q
      (unfold died in is_down-died_in_known path t.state k)
