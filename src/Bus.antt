-- ===== src/Bus.antt =====
-- src/mdfeed/bus.py: the publisher with a bounded queue for each subscriber, and the tracker of
-- sources.  A subscriber's name is a number, `none` where the source says "anonymous".  The calls
-- of the event loop are the steps of Bus/Delivery; a `q.get()` on an empty queue waits, so it is
-- no step.  The times of connection are for printing and are left out.
pub mod Steps
pub mod Delivery
pub mod Sources
mod Tests
use market_feed_platform.Prelude.{
  ℕ, ◌+◌, Bool, true, false, not, ◌&&◌, Option, none, some, List, [], ◌∷◌, ◌++◌, leb, ◌==◌,
  if◌then◌else◌, length,
}
use market_feed_platform.Prelude.Bytes.{Bytes}

-- The entry of `_stats`.
pub record Stats : Type 0 where
  pub name : Option ℕ
  pub dropped : ℕ
  pub sent : ℕ

-- The entries of a connection in `_clients` and `_stats`; the second is made after the name was
-- read.
pub record Client : Type 0 where
  pub id : ℕ
  pub queue : List Bytes
  pub stats : Option Stats

-- `on_drop` has the names that the callback was called with.
pub record Publisher : Type 0 where
  pub queue_size : ℕ
  pub clients : List Client
  pub next_id : ℕ
  pub dropped : ℕ
  pub published : ℕ
  pub on_drop : List (Option ℕ)

abbrev pub create : ℕ → Publisher
create queue_size = record {
  queue_size = queue_size;
  clients = [];
  next_id = 0;
  dropped = 0;
  published = 0;
  on_drop = [];
}

-- `asyncio.Queue.full`: a maximal size of 0 is no limit.
unfoldable pub full : ℕ → List Bytes → Bool
full size q = not (size == 0) && leb size (length q)

-- `get_nowait` with QueueEmpty suppressed
abbrev pub discard : List Bytes → List Bytes
discard [] = []
discard (x ∷ q) = q

-- `put_nowait` with QueueFull suppressed
unfoldable pub put : ℕ → Bytes → List Bytes → List Bytes
put size x q = if full size q then q else q ++ (x ∷ [])

abbrev pub count_drop : Option Stats → Option Stats
count_drop none = none
count_drop (some s) = some (record s { dropped = s.dropped + 1 })

-- The body of `publish`'s loop.
unfoldable pub offer : ℕ → Bytes → Client → Client
offer size x c =
    if full size c.queue
    then record c { queue = put size x (discard c.queue); stats = count_drop c.stats }
    else record c { queue = put size x c.queue }

abbrev pub name_of : Option Stats → Option ℕ
name_of none = none
name_of (some s) = s.name

unfoldable pub each : (Client → Client) → List Client → List Client
each f [] = []
each f (c ∷ cs) = f c ∷ each f cs

-- The names that `on_drop` is called with.
unfoldable pub drops : ℕ → List Client → List (Option ℕ)
drops size [] = []
drops size (c ∷ cs) =
    let rest = drops size cs in if full size c.queue then name_of c.stats ∷ rest else rest

unfoldable pub publish : Bytes → Publisher → Publisher
publish x p =
    let dropped_at = drops p.queue_size p.clients in
    record p {
      published = p.published + 1;
      clients = each (offer p.queue_size x) p.clients;
      dropped = p.dropped + length dropped_at;
      on_drop = p.on_drop ++ dropped_at;
    }

-- `_handle` up to the reading of the name
unfoldable pub connect : Publisher → Publisher
connect p = record p {
  clients = p.clients ++ (record { id = p.next_id; queue = []; stats = none } ∷ []);
  next_id = p.next_id + 1;
}

-- A change of one client's entries.
abbrev pub at : ℕ → (Client → Client) → Client → Client
at cid f c = if c.id == cid then f c else c

-- `_handle` after the name was read
unfoldable pub register : ℕ → Option ℕ → Publisher → Publisher
register cid name p = record p {
  clients =
      each (at cid (λ c. record c { stats = some (record { name = name; dropped = 0; sent = 0 }) }))
        p.clients;
}

-- `q.get()` in `_handle`
unfoldable pub get : ℕ → Publisher → Publisher
get cid p = record p {
  clients = each (at cid (λ c. record c { queue = discard c.queue })) p.clients;
}

abbrev pub count_sent : Option Stats → Option Stats
count_sent none = none
count_sent (some s) = some (record s { sent = s.sent + 1 })

-- `_handle` after the frame was written
unfoldable pub sent : ℕ → Publisher → Publisher
sent cid p = record p {
  clients = each (at cid (λ c. record c { stats = count_sent c.stats })) p.clients;
}

unfoldable pub without : ℕ → List Client → List Client
without cid [] = []
without cid (c ∷ cs) = let rest = without cid cs in if c.id == cid then rest else c ∷ rest

-- The end of `_handle`
unfoldable pub disconnect : ℕ → Publisher → Publisher
disconnect cid p = record p { clients = without cid p.clients }

unfoldable pub close : Publisher → Publisher
close p = record p { clients = [] }
