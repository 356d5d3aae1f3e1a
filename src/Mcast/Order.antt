-- ===== src/Mcast/Order.antt =====
-- Frames are delivered in the order of their numbers: each number from the first expected one is
-- delivered once, or skipped as unrecoverable and counted.
use market_feed_platform.Prelude.{
  ℕ, zero, suc, ◌+◌, ◌-◌, ◌≤◌, ◌≡◌, refl, sym, ap, ◌∙◌, arith, inl, inr, Bool-cases, Option-cases,
  some_inj, Bool, not, ◌&&◌, Option, none, some, List, [], ◌∷◌, ◌++◌, ltb, ◌==◌, ==→eq, length,
  length-append,
}
use mathlib.Core.Path.{subst}
use market_feed_platform.Protocol.{Frame}
use market_feed_platform.Mcast.{
  restart, take_out, accept, settle_ack, observe_with, forget_below, answered, Subscriber, held,
  is_some, deliver, drain_loop, drain_pending, run_end, ask, request_loop, request_missing,
  store_ahead, observe_at, observe, skip_to, acknowledge, Ack,
}

abbrev pub numbers : List Frame → List ℕ
numbers [] = []
numbers (f ∷ fs) = f.seq ∷ numbers fs

-- From one expected number to another: each number between is in the list, in order, or one of
-- `k` that were skipped.
pub data Span : ℕ → List ℕ → ℕ → ℕ → Type 0 where
  arrived : (e : ℕ) → Span e [] e 0
  next : {e t k : ℕ} {ns : List ℕ} → Span (e + 1) ns t k → Span e (e ∷ ns) t k
  skipped : {e t k m : ℕ} {ns : List ℕ} (n : ℕ) → m ≡ n + k → Span (e + n) ns t k → Span e ns t m

Span-append :
    {e t u k j : ℕ} {ns ms : List ℕ} → Span e ns t k → Span t ms u j → Span e (ns ++ ms) u (k + j)
Span-append {u = u} {j = j} {ms = ms} (arrived e) b =
    subst (λ (n : ℕ). Span e ms u n) (omega arith) b
Span-append (next a) b = next (Span-append a b)
Span-append {j = j} (skipped {k = k} {m = m} n h a) b = skipped n (omega arith) (Span-append a b)

-- What a step does to a subscriber that expects `e`.
pub record Advances (e : ℕ) (s s' : Subscriber) : Type 0 where
  pub to : ℕ
  pub new : List Frame
  pub lost : ℕ
  pub expects : s'.expected ≡ some to
  pub grown : s'.frames ≡ s.frames ++ new
  pub span : Span e (numbers new) to lost
  pub counted_lost : s'.stats.unrecoverable ≡ s.stats.unrecoverable + lost
  pub counted : s'.stats.delivered ≡ s.stats.delivered + length new

numbers-append : (fs gs : List Frame) → numbers (fs ++ gs) ≡ numbers fs ++ numbers gs
numbers-append [] gs = refl
numbers-append (f ∷ fs) gs = ap (λ t. f.seq ∷ t) (numbers-append fs gs)

append_assoc : (xs ys zs : List Frame) → (xs ++ ys) ++ zs ≡ xs ++ (ys ++ zs)
append_assoc [] ys zs = refl
append_assoc (x ∷ xs) ys zs = ap (λ t. x ∷ t) (append_assoc xs ys zs)

append_nil : (xs : List Frame) → xs ≡ xs ++ []
append_nil [] = refl
append_nil (x ∷ xs) = ap (λ t. x ∷ t) (append_nil xs)

Advances-after :
    (e : ℕ) (s t u : Subscriber) (a : Advances e s t) → Advances a.to t u → Advances e s u
Advances-after e s t u a b = record {
  to = b.to;
  new = a.new ++ b.new;
  lost = a.lost + b.lost;
  expects = b.expects;
  grown = b.grown ∙ ap (λ fs. fs ++ b.new) a.grown ∙ append_assoc s.frames a.new b.new;
  span =
      subst (λ ns. Span e ns b.to (a.lost + b.lost)) (sym (numbers-append a.new b.new))
        (Span-append a.span b.span);
  counted_lost = omega (arith, a.counted_lost, b.counted_lost);
  counted = omega (arith, a.counted, b.counted, length-append a.new b.new);
}

pub Advances-trans :
    (e d : ℕ) (s t u : Subscriber)
    → t.expected ≡ some d
    → Advances e s t
    → Advances d t u
    → Advances e s u
Advances-trans e d s t u h a b =
    Advances-after e s t u a (subst (λ n. Advances n t u) (some_inj (sym h ∙ a.expects)) b)

-- A step that delivers nothing and skips nothing.
pub record Quiet (s s' : Subscriber) : Type 0 where
  pub same_expected : s'.expected ≡ s.expected
  pub same_frames : s'.frames ≡ s.frames
  pub same_lost : s'.stats.unrecoverable ≡ s.stats.unrecoverable
  pub same_count : s'.stats.delivered ≡ s.stats.delivered

pub Advances-Quiet :
    (e : ℕ) (s s' : Subscriber) → s.expected ≡ some e → Quiet s s' → Advances e s s'
Advances-Quiet e s s' h q = record {
  to = e;
  new = [];
  lost = 0;
  expects = q.same_expected ∙ h;
  grown = q.same_frames ∙ append_nil s.frames;
  span = arrived e;
  counted_lost = omega (arith, q.same_lost);
  counted = omega (arith, q.same_count);
}

pub Quiet-trans : (s t u : Subscriber) → Quiet s t → Quiet t u → Quiet s u
Quiet-trans s t u a b = record {
  same_expected = b.same_expected ∙ a.same_expected;
  same_frames = b.same_frames ∙ a.same_frames;
  same_lost = b.same_lost ∙ a.same_lost;
  same_count = b.same_count ∙ a.same_count;
}

held-seq : (n : ℕ) (fs : List Frame) (f : Frame) → held n fs ≡ some f → f.seq ≡ n
unfolding held
held-seq n [] f h = absurd (ground (arith, h))
held-seq n (g ∷ gs) f h = elim (Bool-cases (g.seq == n)) [
  | inl e ↦
      let same : g ≡ f = some_inj (ground (arith, e, h)) in
      subst (λ x. x.seq ≡ n) same (==→eq g.seq n e)
  | inr e ↦ held-seq n gs f (ground (arith, e, h))
]

-- The delivery of the expected frame.
pub Advances-deliver :
    (e : ℕ) (f : Frame) (s s' : Subscriber)
    → f.seq ≡ e
    → s'.expected ≡ some (e + 1)
    → s'.frames ≡ s.frames ++ (f ∷ [])
    → s'.stats.unrecoverable ≡ s.stats.unrecoverable
    → s'.stats.delivered ≡ s.stats.delivered + 1
    → Advances e s s'
Advances-deliver e f s s' n h g u d = record {
  to = e + 1;
  new = f ∷ [];
  lost = 0;
  expects = h;
  grown = g;
  span = subst (λ m. Span e (m ∷ []) (e + 1) 0) (sym n) (next (arrived (e + 1)));
  counted_lost = omega (arith, u);
  counted = omega (arith, d);
}

Advances-take_out : (e : ℕ) (f : Frame) (s : Subscriber) → f.seq ≡ e → Advances e s (take_out e f s)
unfolding take_out deliver
Advances-take_out e f s n = Advances-deliver e f s (take_out e f s) n refl refl refl refl

pub Advances-idle : (e : ℕ) (s : Subscriber) → s.expected ≡ some e → Advances e s s
Advances-idle e s h =
    Advances-Quiet e s s h
      (record { same_expected = refl; same_frames = refl; same_lost = refl; same_count = refl })

pub Advances-drain_loop :
    (fuel e : ℕ) (s : Subscriber) → s.expected ≡ some e → Advances e s (drain_loop fuel e s)
unfolding drain_loop
Advances-drain_loop zero e s h = Advances-idle e s h
Advances-drain_loop (suc fuel) e s h = elim (Option-cases (held e s.pending)) [
  | inl nothing ↦ rw nothing (Advances-idle e s h)
  | inr found ↦
      let s' = take_out e found.0 s in
      rw found.1 (
        Advances-trans e (e + 1) s s' (drain_loop fuel (e + 1) s') (unfold take_out in refl)
          (Advances-take_out e found.0 s (held-seq e s.pending found.0 found.1))
          (Advances-drain_loop fuel (e + 1) s' (unfold take_out in refl)))
]

pub Advances-drain_pending :
    (e : ℕ) (s : Subscriber) → s.expected ≡ some e → Advances e s (drain_pending e s)
unfolding drain_pending
Advances-drain_pending e s = Advances-drain_loop (length s.pending) e s

Quiet-ask : (now lo hi : ℕ) (s : Subscriber) → Quiet s (ask now lo hi s)
unfolding ask
Quiet-ask now lo hi s = ground arith

Quiet-request_loop :
    (fuel now lo upto : ℕ) (s : Subscriber) → Quiet s (request_loop fuel now lo upto s)
unfolding request_loop
Quiet-request_loop zero now lo upto s = ground arith
Quiet-request_loop (suc fuel) now lo upto s =
    let hi = run_end (upto - lo) lo upto s.pending in
    elim (Bool-cases (ltb lo upto)) [
      | inr done ↦ rw done (ground arith)
      | inl more ↦ elim (Bool-cases (is_some (held lo s.pending))) [
        | inl there ↦ rw (more, there) (Quiet-request_loop fuel now (lo + 1) upto s)
        | inr missing ↦
            rw (more, missing)
              (Quiet-trans s (ask now lo hi s) _ (Quiet-ask now lo hi s)
                (Quiet-request_loop fuel now (hi + 1) upto (ask now lo hi s)))
      ]
    ]

pub Quiet-request_missing :
    (now e upto : ℕ) (s : Subscriber) → Quiet s (request_missing now e upto s)
unfolding request_missing
Quiet-request_missing now e upto s = Quiet-request_loop (upto - e) now e upto s

Quiet-store_ahead :
    (now e : ℕ) (f : Frame) (via : Bool) (s : Subscriber) → Quiet s (store_ahead now e f via s)
unfolding store_ahead
Quiet-store_ahead now e f via s = ground arith

Advances-accept : (e : ℕ) (f : Frame) (s : Subscriber) → f.seq ≡ e → Advances e s (accept e f s)
unfolding accept
Advances-accept e f s n =
    let s' : Subscriber = let d = deliver f s in record d { expected = some (e + 1) } in
    Advances-trans e (e + 1) s s' (drain_pending (e + 1) s') refl
      (unfold deliver in Advances-deliver e f s s' n refl refl refl refl)
      (Advances-drain_pending (e + 1) s' refl)

Advances-observe_at :
    (now e : ℕ) (f : Frame) (via : Bool) (s : Subscriber)
    → s.expected ≡ some e
    → Advances e s (observe_at now e f via s)
unfolding observe_at
Advances-observe_at now e f via s h = elim (Bool-cases (ltb f.seq e)) [
  | inl old ↦ rw old (Advances-Quiet e s _ h (ground arith))
  | inr no_old ↦ elim (Bool-cases (f.seq == e)) [
    | inl here ↦ rw (no_old, here) (Advances-accept e f s (==→eq f.seq e here))
    | inr ahead ↦
        let s' = store_ahead now e f via s in
        rw (no_old, ahead)
          (Advances-Quiet e s _ h (
            Quiet-trans s s' (request_missing now e f.seq s') (Quiet-store_ahead now e f via s)
              (unfold request_missing in Quiet-request_loop (f.seq - e) now e f.seq s')))
  ]
]

Advances-skip_to : (e oldest : ℕ) (s : Subscriber) → e ≤ oldest → Advances e s (skip_to e oldest s)
unfolding skip_to
Advances-skip_to e oldest s le =
    let s' : Subscriber =
      let st = s.stats in
      record s {
        stats = record st { unrecoverable = st.unrecoverable + (oldest - e) };
        gap_seen_at = forget_below oldest s.gap_seen_at;
        expected = some oldest;
      } in
    Advances-trans e oldest s s' (drain_pending oldest s') refl
      (record {
        to = oldest;
        new = [];
        lost = oldest - e;
        expects = refl;
        grown = append_nil s.frames;
        span =
            skipped (oldest - e) (omega arith)
              (subst (λ n. Span n [] oldest 0) (omega arith) (arrived oldest));
        counted_lost = refl;
        counted = omega arith;
      })
      (Advances-drain_pending oldest s' refl)

Advances-settle_ack :
    (e : ℕ) (a : Ack) (s : Subscriber) (o : Option ℕ)
    → o ≡ some e
    → s.expected ≡ some e
    → Advances e s (settle_ack a s o)
Advances-settle_ack e a s none i h = absurd (ground (arith, i))
Advances-settle_ack e a s (some d) i h =
    let same : e ≡ d = some_inj (sym i) in
    elim (Bool-cases (not (a.unavailable == 0) && ltb d a.oldest_available)) [
      | inl skips ↦ rw skips (
          subst (λ n. Advances e s (skip_to n a.oldest_available s)) same
            (Advances-skip_to e a.oldest_available s (ground (arith, same, skips))))
      | inr stays ↦ rw stays (Advances-idle e s h)
    ]

pub Advances-acknowledge :
    (e : ℕ) (a : Ack) (s : Subscriber) → s.expected ≡ some e → Advances e s (acknowledge a s)
unfolding acknowledge
Advances-acknowledge e a s h =
    let s' : Subscriber =
      let st = s.stats in
      record s {
        outstanding = answered a.from_seq a.to_seq s.outstanding;
        stats = record st { retrans_frames = st.retrans_frames + a.sent };
      } in
    Advances-trans e e s s' (settle_ack a s' s.expected) h (Advances-Quiet e s s' h (ground arith))
      (Advances-settle_ack e a s' s.expected h h)

Advances-observe_with :
    (now e : ℕ) (f : Frame) (via : Bool) (s : Subscriber) (o : Option ℕ)
    → o ≡ some e
    → s.expected ≡ some e
    → Advances e s (observe_with now f via s o)
Advances-observe_with now e f via s none i h = absurd (ground (arith, i))
Advances-observe_with now e f via s (some d) i h =
    subst (λ n. Advances e s (observe_at now n f via s)) (some_inj (sym i))
      (Advances-observe_at now e f via s h)

pub Advances-observe :
    (now e : ℕ) (f : Frame) (via : Bool) (s : Subscriber)
    → s.expected ≡ some e
    → Advances e s (observe now f via s)
unfolding observe
Advances-observe now e f via s h = Advances-observe_with now e f via s s.expected h h

-- The end of a snapshot delivers and skips nothing by itself.
pub Advances-restart : (e : ℕ) (s : Subscriber) → Advances e s (restart e s)
unfolding restart
Advances-restart e s = record {
  to = e;
  new = [];
  lost = 0;
  expects = refl;
  grown = append_nil s.frames;
  span = arrived e;
  counted_lost = omega arith;
  counted = omega arith;
}
