-- ===== src/Bus/Delivery.antt =====
-- What reaches a subscriber of the bus: the published frames in order, less those counted as
-- dropped.
use market_feed_platform.Prelude.{
  ℕ, ◌+◌, ◌≡◌, refl, sym, ap, ◌∙◌, arith, inl, inr, Bool-cases, Bool, true, false, not, ◌&&◌, some,
  some_inj, List, [], ◌∷◌, ◌++◌, ltb, ◌==◌, length, length-append,
}
use mathlib.Core.Path.{subst}
use market_feed_platform.Prelude.Bytes.{Bytes}
use market_feed_platform.Bus.{
  Stats, Client, Publisher, full, discard, put, count_drop, offer, each, publish, connect, at,
  register, get, count_sent, sent, disconnect,
}
use market_feed_platform.Bus.Steps.{
  client_of, Step, connected, registered, publishes, gets, written, leaves, closes, step, run,
  stays, published, head, taken, client_of-each, client_of-append, client_of-without,
}

-- The second list is the first one less the number of elements.
pub data Removed : ℕ → List Bytes → List Bytes → Type 0 where
  nothing : Removed 0 [] []
  kept : {k : ℕ} {xs ys : List Bytes} (x : Bytes) → Removed k xs ys → Removed k (x ∷ xs) (x ∷ ys)
  lost : {k : ℕ} {xs ys : List Bytes} (x : Bytes) → Removed k xs ys → Removed (k + 1) (x ∷ xs) ys

id-client_of : (cid : ℕ) (cs : List Client) (c : Client) → client_of cid cs ≡ some c → c.id ≡ cid
unfolding client_of
id-client_of cid [] c e = absurd (ground (arith, e))
id-client_of cid (d ∷ cs) c e = elim (Bool-cases (d.id == cid)) [
  | inl here ↦
      let found : d ≡ c = some_inj (ground (arith, here, e)) in
      subst (λ x. x.id ≡ cid) found (ground (arith, here))
  | inr there ↦ id-client_of cid cs c (ground (arith, there, e))
]

-- A queue is within the limit of its size.
abbrev pub fits : ℕ → List Bytes → Bool
fits size q = not (not (size == 0) && ltb size (length q))

-- What a subscriber gets: the frames `ys` taken and those in its queue are the frames `xs` in
-- order, less those that its counter has grown by.
pub record Delivered (cid : ℕ) (p : Publisher) (before : ℕ) (xs ys : List Bytes) : Type 0 where
  pub client : Client
  pub stats : Stats
  pub gone : ℕ
  pub found : client_of cid p.clients ≡ some client
  pub has_stats : client.stats ≡ some stats
  pub counted : stats.dropped ≡ before + gone
  pub removed : Removed gone xs (ys ++ client.queue)
  pub bounded : fits p.queue_size client.queue ≡ true

all_kept : (xs : List Bytes) → Removed 0 xs xs
all_kept [] = nothing
all_kept (x ∷ xs) = kept x (all_kept xs)

append_assoc : (xs ys zs : List Bytes) → (xs ++ ys) ++ zs ≡ xs ++ (ys ++ zs)
append_assoc [] ys zs = refl
append_assoc (x ∷ xs) ys zs = ap (λ t. x ∷ t) (append_assoc xs ys zs)

-- An offer to a queue within its limit: it is put in the queue, or it is put in after the oldest
-- frame was dropped and counted.
put_free :
    (size : ℕ) (x : Bytes) (q : List Bytes) → full size q ≡ false → put size x q ≡ q ++ (x ∷ [])
unfolding put
put_free size x q e = rw e refl

discarded-full :
    (size : ℕ) (y : Bytes) (q : List Bytes) → fits size (y ∷ q) ≡ true → full size q ≡ false
unfolding full
discarded-full size y q h = ground (arith, h)

fits-put :
    (size : ℕ) (x : Bytes) (q : List Bytes) → full size q ≡ false → fits size (q ++ (x ∷ [])) ≡ true
unfolding full
fits-put size x q h = ground (arith, h, length-append q (x ∷ []))

fits-discard : (size : ℕ) (q : List Bytes) → fits size q ≡ true → fits size (discard q) ≡ true
fits-discard size [] h = h
fits-discard size (y ∷ q) h = ground (arith, h)

-- One more frame before those taken.
taken_one :
    (cid : ℕ) (p : Publisher) (before : ℕ) (x : Bytes) (xs ys : List Bytes)
    → Delivered cid p before xs ys
    → Delivered cid p before (x ∷ xs) (x ∷ ys)
taken_one cid p before x xs ys d = record {
  client = d.client;
  stats = d.stats;
  gone = d.gone;
  found = d.found;
  has_stats = d.has_stats;
  counted = d.counted;
  removed = kept x d.removed;
  bounded = d.bounded;
}

lost_one :
    (cid : ℕ) (p : Publisher) (before : ℕ) (x : Bytes) (xs ys : List Bytes)
    → Delivered cid p (before + 1) xs ys
    → Delivered cid p before (x ∷ xs) ys
lost_one cid p before x xs ys d = record {
  client = d.client;
  stats = d.stats;
  gone = d.gone + 1;
  found = d.found;
  has_stats = d.has_stats;
  counted = omega (arith, d.counted);
  removed = lost x d.removed;
  bounded = d.bounded;
}

-- The client after a step that its entries are not changed by.
kept_by :
    (cid i : ℕ) (f : Client → Client) (cs : List Client) (c : Client)
    → ((d : Client) → (f d).id ≡ d.id)
    → client_of cid cs ≡ some c
    → (i == cid) ≡ false
    → client_of cid (each (at i f) cs) ≡ some c
kept_by cid i f cs c same e n =
    let other : (c.id == i) ≡ false = ground (arith, n, id-client_of cid cs c e) in
    client_of-each cid (at i f) cs c (λ d. ground (arith, same d)) e ∙ rw other refl

changed_by :
    (cid i : ℕ) (f : Client → Client) (cs : List Client) (c : Client)
    → ((d : Client) → (f d).id ≡ d.id)
    → client_of cid cs ≡ some c
    → (i == cid) ≡ true
    → client_of cid (each (at i f) cs) ≡ some (f c)
changed_by cid i f cs c same e n =
    let own : (c.id == i) ≡ true = ground (arith, n, id-client_of cid cs c e) in
    client_of-each cid (at i f) cs c (λ d. ground (arith, same d)) e ∙ rw own refl

append_nil : (xs : List Bytes) → xs ++ [] ≡ xs
append_nil [] = refl
append_nil (x ∷ xs) = ap (λ t. x ∷ t) (append_nil xs)

-- What `get` takes from a queue.
taken_head :
    (cid : ℕ) (p : Publisher) (before : ℕ) (q xs ys : List Bytes)
    → Delivered cid p before (discard q ++ xs) ys
    → Delivered cid p before (q ++ xs) (head q ++ ys)
taken_head cid p before [] xs ys d = d
taken_head cid p before (y ∷ q) xs ys d = taken_one cid p before y (q ++ xs) ys d

-- What an offer to a full queue drops.
lost_head :
    (cid : ℕ) (p : Publisher) (before size : ℕ) (x : Bytes) (q xs ys : List Bytes)
    → full size q ≡ true
    → fits size q ≡ true
    → Delivered cid p (before + 1) (put size x (discard q) ++ xs) ys
    → Delivered cid p before (q ++ (x ∷ xs)) ys
unfolding full
lost_head cid p before size x [] xs ys f b d = absurd (ground (arith, f))
lost_head cid p before size x (y ∷ q) xs ys f b d =
    let same = put_free size x q (discarded-full size y q b) in
    lost_one cid p before y (q ++ (x ∷ xs)) ys (
      subst (λ zs. Delivered cid p (before + 1) zs ys) (append_assoc q (x ∷ []) xs)
        (subst (λ zs. Delivered cid p (before + 1) (zs ++ xs) ys) same d))

fits-put-discard :
    (size : ℕ) (x : Bytes) (q : List Bytes)
    → full size q ≡ true
    → fits size q ≡ true
    → fits size (put size x (discard q)) ≡ true
unfolding full
fits-put-discard size x [] f b = absurd (ground (arith, f))
fits-put-discard size x (y ∷ q) f b =
    let free = discarded-full size y q b in rw (put_free size x q free) (fits-put size x q free)

offer_id : (size : ℕ) (x : Bytes) (c : Client) → (offer size x c).id ≡ c.id
unfolding offer
offer_id size x c = ground arith

offer_free :
    (size : ℕ) (x : Bytes) (c : Client)
    → full size c.queue ≡ false
    → offer size x c ≡ record c { queue = c.queue ++ (x ∷ []) }
unfolding offer
offer_free size x c e =
    let same = put_free size x c.queue e in rw e (ap (λ q. record c { queue = q }) same)

offer-full :
    (size : ℕ) (x : Bytes) (c : Client)
    → full size c.queue ≡ true
    → offer size x c ≡ record c { queue = put size x (discard c.queue); stats = count_drop c.stats }
unfolding offer
offer-full size x c e = rw e refl

-- A connected and registered subscriber whose queue is within its limit gets, while it stays, what
-- is in its queue and what is published, in this order, less exactly the frames that its counter
-- of dropped frames has grown by, and its queue never outgrows the limit.
pub delivered :
    (cid : ℕ) (ss : List Step) (p : Publisher) (c : Client) (st : Stats)
    → client_of cid p.clients ≡ some c
    → c.stats ≡ some st
    → fits p.queue_size c.queue ≡ true
    → stays cid ss ≡ true
    → Delivered cid (run ss p) st.dropped (c.queue ++ published ss) (taken cid ss p)
unfolding run step taken published stays
delivered cid [] p c st e h b s = record {
  client = c;
  stats = st;
  gone = 0;
  found = e;
  has_stats = h;
  counted = omega arith;
  removed = subst (λ q. Removed 0 q c.queue) (sym (append_nil c.queue)) (all_kept c.queue);
  bounded = b;
}
delivered cid (connected ∷ ss) p c st e h b s =
    delivered cid ss (connect p) c st (unfold connect in client_of-append cid p.clients _ c e) h
      (unfold connect in b) s
delivered cid (registered i name ∷ ss) p c st e h b s =
    delivered cid ss (register i name p) c st
      (unfold register in kept_by cid i _ p.clients c (λ d. refl) e (ground (arith, s))) h
      (unfold register in b) (ground (arith, s))
delivered cid (leaves i ∷ ss) p c st e h b s =
    delivered cid ss (disconnect i p) c st
      (unfold disconnect in client_of-without cid i p.clients c (ground (arith, s)) e) h
      (unfold disconnect in b) (ground (arith, s))
delivered cid (closes ∷ ss) p c st e h b s = absurd (ground (arith, s))
delivered cid (written i ∷ ss) p c st e h b s = elim (Bool-cases (i == cid)) [
  | inr other ↦
      delivered cid ss (sent i p) c st
        (unfold sent in kept_by cid i _ p.clients c (λ d. refl) e other) h (unfold sent in b) s
  | inl own ↦
      delivered cid ss (sent i p) (record c { stats = count_sent c.stats })
        (record st { sent = st.sent + 1 })
        (unfold sent in changed_by cid i _ p.clients c (λ d. refl) e own) (rw h refl)
        (unfold sent in b) s
]
delivered cid (gets i ∷ ss) p c st e h b s = elim (Bool-cases (i == cid)) [
  | inr other ↦ rw other (
      delivered cid ss (get i p) c st
        (unfold get in kept_by cid i _ p.clients c (λ d. refl) e other) h (unfold get in b) s)
  | inl own ↦
      rw (own, e)
        (taken_head cid (run ss (get i p)) st.dropped c.queue (published ss)
          (taken cid ss (get i p))
          (delivered cid ss (get i p) (record c { queue = discard c.queue }) st
            (unfold get in changed_by cid i _ p.clients c (λ d. refl) e own) h
            (unfold get in fits-discard p.queue_size c.queue b) s))
]
delivered cid (publishes x ∷ ss) p c st e h b s =
    let size = p.queue_size in
    let there = client_of-each cid (offer size x) p.clients c (offer_id size x) e in
    elim (Bool-cases (full size c.queue)) [
      | inr free ↦
          subst
            (λ zs. Delivered cid (run ss (publish x p)) st.dropped zs (taken cid ss (publish x p)))
            (append_assoc c.queue (x ∷ []) (published ss))
            (delivered cid ss (publish x p) (record c { queue = c.queue ++ (x ∷ []) }) st
              (unfold publish in there ∙ ap some (offer_free size x c free)) h
              (unfold publish in fits-put size x c.queue free) s)
      | inl filled ↦
          lost_head cid (run ss (publish x p)) st.dropped size x c.queue (published ss)
            (taken cid ss (publish x p)) filled b
            (delivered cid ss (publish x p)
              (record c { queue = put size x (discard c.queue); stats = count_drop c.stats })
              (record st { dropped = st.dropped + 1 })
              (unfold publish in there ∙ ap some (offer-full size x c filled)) (rw h refl)
              (unfold publish in fits-put-discard size x c.queue filled b) s)
    ]
