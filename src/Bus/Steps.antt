-- ===== src/Bus/Steps.antt =====
-- The steps of the bus's event loop, and one client's entries under them.
use market_feed_platform.Prelude.{
  ℕ, ◌≡◌, refl, arith, inl, inr, Bool-cases, Bool, true, false, not, ◌&&◌, Option, none, some,
  some_inj, List, [], ◌∷◌, ◌++◌, ◌==◌, if◌then◌else◌,
}
use mathlib.Core.Path.{subst}
use market_feed_platform.Prelude.Bytes.{Bytes}
use market_feed_platform.Bus.{
  Client, Publisher, each, publish, connect, register, get, sent, without, disconnect, close,
}

unfoldable pub client_of : ℕ → List Client → Option Client
client_of cid [] = none
client_of cid (c ∷ cs) = if c.id == cid then some c else client_of cid cs

-- The steps of the event loop.
pub data Step : Type 0 where
  connected : Step
  registered : ℕ → Option ℕ → Step
  publishes : Bytes → Step
  gets : ℕ → Step
  written : ℕ → Step
  leaves : ℕ → Step
  closes : Step

unfoldable pub step : Step → Publisher → Publisher
step connected p = connect p
step (registered cid name) p = register cid name p
step (publishes x) p = publish x p
step (gets cid) p = get cid p
step (written cid) p = sent cid p
step (leaves cid) p = disconnect cid p
step closes p = close p

unfoldable pub run : List Step → Publisher → Publisher
run [] p = p
run (s ∷ ss) p = run ss (step s p)

-- The client neither leaves nor registers anew.
unfoldable pub stays : ℕ → List Step → Bool
stays cid [] = true
stays cid (connected ∷ ss) = stays cid ss
stays cid (registered i name ∷ ss) = not (i == cid) && stays cid ss
stays cid (publishes x ∷ ss) = stays cid ss
stays cid (gets i ∷ ss) = stays cid ss
stays cid (written i ∷ ss) = stays cid ss
stays cid (leaves i ∷ ss) = not (i == cid) && stays cid ss
stays cid (closes ∷ ss) = false

-- The frames that are published.
unfoldable pub published : List Step → List Bytes
published [] = []
published (connected ∷ ss) = published ss
published (registered i name ∷ ss) = published ss
published (publishes x ∷ ss) = x ∷ published ss
published (gets i ∷ ss) = published ss
published (written i ∷ ss) = published ss
published (leaves i ∷ ss) = published ss
published (closes ∷ ss) = published ss

abbrev pub head : List Bytes → List Bytes
head [] = []
head (x ∷ q) = x ∷ []

abbrev pub queue_of : Option Client → List Bytes
queue_of none = []
queue_of (some c) = c.queue

-- The frames that a client's handler takes from its queue.
unfoldable pub taken : ℕ → List Step → Publisher → List Bytes
taken cid [] p = []
taken cid (gets i ∷ ss) p =
    (if i == cid then head (queue_of (client_of cid p.clients)) else []) ++ taken cid ss (get i p)
taken cid (connected ∷ ss) p = taken cid ss (connect p)
taken cid (registered i name ∷ ss) p = taken cid ss (register i name p)
taken cid (publishes x ∷ ss) p = taken cid ss (publish x p)
taken cid (written i ∷ ss) p = taken cid ss (sent i p)
taken cid (leaves i ∷ ss) p = taken cid ss (disconnect i p)
taken cid (closes ∷ ss) p = taken cid ss (close p)

-- A client's entries after a change of all clients.
pub client_of-each :
    (cid : ℕ) (f : Client → Client) (cs : List Client) (c : Client)
    → ((d : Client) → (f d).id ≡ d.id)
    → client_of cid cs ≡ some c
    → client_of cid (each f cs) ≡ some (f c)
unfolding client_of each
client_of-each cid f [] c same e = absurd (ground (arith, e))
client_of-each cid f (d ∷ cs) c same e = elim (Bool-cases (d.id == cid)) [
  | inl here ↦
      let found : d ≡ c = some_inj (ground (arith, here, e)) in
      let here' : ((f d).id == cid) ≡ true = ground (arith, here, same d) in
      subst (λ x. client_of cid (f d ∷ each f cs) ≡ some (f x)) found (rw here' refl)
  | inr there ↦
      let there' : ((f d).id == cid) ≡ false = ground (arith, there, same d) in
      rw there' (client_of-each cid f cs c same (ground (arith, there, e)))
]

pub client_of-append :
    (cid : ℕ) (cs ds : List Client) (c : Client)
    → client_of cid cs ≡ some c
    → client_of cid (cs ++ ds) ≡ some c
unfolding client_of
client_of-append cid [] ds c e = absurd (ground (arith, e))
client_of-append cid (d ∷ cs) ds c e = ground (arith, e, client_of-append cid cs ds c)

pub client_of-without :
    (cid i : ℕ) (cs : List Client) (c : Client)
    → (i == cid) ≡ false
    → client_of cid cs ≡ some c
    → client_of cid (without i cs) ≡ some c
unfolding client_of without
client_of-without cid i [] c n e = absurd (ground (arith, e))
client_of-without cid i (d ∷ cs) c n e = elim (Bool-cases (d.id == i)) [
  | inl gone ↦ rw gone (client_of-without cid i cs c n (ground (arith, gone, n, e)))
  | inr left ↦ elim (Bool-cases (d.id == cid)) [
    | inl here ↦ rw (left, here) (ground (arith, e, here))
    | inr there ↦ rw (left, there) (client_of-without cid i cs c n (ground (arith, there, e)))
  ]
]
