-- ===== src/Mcast/Ready.antt =====
-- The frame of the number that is expected next: after a drain it is not held, and whatever arrives
-- then keeps it so.
use market_feed_platform.Prelude.{
  ℕ, zero, suc, ◌+◌, ◌-◌, ◌≤◌, ◌≡◌, refl, sym, ◌∙◌, arith, inl, inr, Bool-cases, Option-cases, Bool,
  false, not, ◌&&◌, Option, none, some, List, [], ◌∷◌, ltb, ◌==◌, length,
}
use mathlib.Core.Path.{subst}
use market_feed_platform.Protocol.{Frame}
use market_feed_platform.Mcast.{
  Subscriber, held, is_some, release, hold, deliver, take_out, drain_loop, drain_pending, run_end,
  ask, request_loop, request_missing, store_ahead, accept, observe_at, observe_with, observe,
  skip_to, settle_ack, acknowledge, Ack,
}

abbrev pub ready_at : Option ℕ → List Frame → Bool
ready_at none fs = false
ready_at (some e) fs = is_some (held e fs)

-- Whether the expected frame is held.
abbrev pub ready : Subscriber → Bool
ready s = ready_at s.expected s.pending

held_none : (e : ℕ) (fs : List Frame) → length fs ≤ 0 → is_some (held e fs) ≡ false
unfolding held
held_none e [] h = refl
held_none e (f ∷ fs) h = absurd (omega arith)

length-release :
    (e : ℕ) (fs : List Frame) (f : Frame)
    → held e fs ≡ some f
    → length (release e fs) + 1 ≡ length fs
unfolding held release
length-release e [] f h = absurd (ground (arith, h))
length-release e (g ∷ gs) f h = elim (Bool-cases (g.seq == e)) [
  | inl here ↦ rw here (omega arith)
  | inr other ↦ rw other (omega (arith, length-release e gs f (ground (arith, other, h))))
]

held-hold :
    (e : ℕ) (f : Frame) (fs : List Frame) → (f.seq == e) ≡ false → held e (hold f fs) ≡ held e fs
unfolding held hold
held-hold e f [] h = rw h refl
held-hold e f (g ∷ gs) h = ground (arith, h, held-hold e f gs h)

ready-drain_loop :
    (fuel e : ℕ) (s : Subscriber)
    → s.expected ≡ some e
    → length s.pending ≤ fuel
    → ready (drain_loop fuel e s) ≡ false
unfolding drain_loop
ready-drain_loop zero e s h le = rw h (held_none e s.pending le)
ready-drain_loop (suc fuel) e s h le = elim (Option-cases (held e s.pending)) [
  | inl nothing ↦ rw nothing (rw h (rw nothing refl))
  | inr found ↦ rw found.1 (
      ready-drain_loop fuel (e + 1) (take_out e found.0 s) (unfold take_out in refl)
        (unfold take_out deliver in omega (arith, length-release e s.pending found.0 found.1)))
]

pub ready-drain_pending :
    (e : ℕ) (s : Subscriber) → s.expected ≡ some e → ready (drain_pending e s) ≡ false
unfolding drain_pending
ready-drain_pending e s h = ready-drain_loop (length s.pending) e s h (omega arith)

-- Requests neither hold nor release a frame.
record Keeps (s s' : Subscriber) : Type 0 where
  same_expected : s'.expected ≡ s.expected
  same_pending : s'.pending ≡ s.pending

Keeps-trans : (s t u : Subscriber) → Keeps s t → Keeps t u → Keeps s u
Keeps-trans s t u a b = record {
  same_expected = b.same_expected ∙ a.same_expected;
  same_pending = b.same_pending ∙ a.same_pending;
}

Keeps-ask : (now lo hi : ℕ) (s : Subscriber) → Keeps s (ask now lo hi s)
unfolding ask
Keeps-ask now lo hi s = ground arith

Keeps-request_loop :
    (fuel now lo upto : ℕ) (s : Subscriber) → Keeps s (request_loop fuel now lo upto s)
unfolding request_loop
Keeps-request_loop zero now lo upto s = ground arith
Keeps-request_loop (suc fuel) now lo upto s =
    let hi = run_end (upto - lo) lo upto s.pending in
    elim (Bool-cases (ltb lo upto)) [
      | inr done ↦ rw done (ground arith)
      | inl more ↦ elim (Bool-cases (is_some (held lo s.pending))) [
        | inl there ↦ rw (more, there) (Keeps-request_loop fuel now (lo + 1) upto s)
        | inr missing ↦
            rw (more, missing)
              (Keeps-trans s (ask now lo hi s) _ (Keeps-ask now lo hi s)
                (Keeps-request_loop fuel now (hi + 1) upto (ask now lo hi s)))
      ]
    ]

pub ready-request_missing :
    (now e upto : ℕ) (s : Subscriber)
    → ready s ≡ false
    → ready (request_missing now e upto s) ≡ false
unfolding request_missing
ready-request_missing now e upto s h =
    let k = Keeps-request_loop (upto - e) now e upto s in rw (k.same_expected, k.same_pending) h

ready-store_ahead :
    (now e : ℕ) (f : Frame) (via : Bool) (s : Subscriber)
    → s.expected ≡ some e
    → (f.seq == e) ≡ false
    → ready s ≡ false
    → ready (store_ahead now e f via s) ≡ false
unfolding store_ahead
ready-store_ahead now e f via s h n r =
    let r' : is_some (held e s.pending) ≡ false = subst (λ o. ready_at o s.pending ≡ false) h r in
    elim (Bool-cases (is_some (held f.seq s.pending))) [
      | inl there ↦ rw there r
      | inr missing ↦ rw missing (rw h (rw (held-hold e f s.pending n) r'))
    ]

ready-observe_at :
    (now e : ℕ) (f : Frame) (via : Bool) (s : Subscriber)
    → s.expected ≡ some e
    → ready s ≡ false
    → ready (observe_at now e f via s) ≡ false
unfolding observe_at
ready-observe_at now e f via s h r = elim (Bool-cases (ltb f.seq e)) [
  | inl old ↦ rw old r
  | inr no_old ↦ elim (Bool-cases (f.seq == e)) [
    | inl here ↦ rw (no_old, here) (unfold accept in ready-drain_pending (e + 1) _ refl)
    | inr ahead ↦
        rw (no_old, ahead)
          (ready-request_missing now e f.seq (store_ahead now e f via s)
            (ready-store_ahead now e f via s h ahead r))
  ]
]

ready-observe_with :
    (now e : ℕ) (f : Frame) (via : Bool) (s : Subscriber) (o : Option ℕ)
    → o ≡ some e
    → s.expected ≡ some e
    → ready s ≡ false
    → ready (observe_with now f via s o) ≡ false
ready-observe_with now e f via s none i h r = absurd (ground (arith, i))
ready-observe_with now e f via s (some d) i h r = ready-observe_at now d f via s (h ∙ sym i) r

pub ready-observe :
    (now e : ℕ) (f : Frame) (via : Bool) (s : Subscriber)
    → s.expected ≡ some e
    → ready s ≡ false
    → ready (observe now f via s) ≡ false
unfolding observe
ready-observe now e f via s h r = ready-observe_with now e f via s s.expected h h r

ready-settle_ack :
    (a : Ack) (s : Subscriber) (o : Option ℕ) → ready s ≡ false → ready (settle_ack a s o) ≡ false
ready-settle_ack a s none r = r
ready-settle_ack a s (some e) r =
    elim (Bool-cases (not (a.unavailable == 0) && ltb e a.oldest_available)) [
      | inl skips ↦ rw skips (unfold skip_to in ready-drain_pending a.oldest_available _ refl)
      | inr stays ↦ rw stays r
    ]

pub ready-acknowledge :
    (a : Ack) (s : Subscriber) → ready s ≡ false → ready (acknowledge a s) ≡ false
unfolding acknowledge
ready-acknowledge a s r = ready-settle_ack a _ s.expected r
