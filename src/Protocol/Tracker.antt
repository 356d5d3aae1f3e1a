-- ===== src/Protocol/Tracker.antt =====
-- src/mdfeed/protocol.py, `SequenceTracker`: gaps, losses and duplicates seen by a subscriber.
use market_feed_platform.Prelude.{
  ℕ, ◌+◌, ◌-◌, ◌≤◌, max, ◌≡◌, refl, ◌∙◌, sym, some_inj, arith, length, Option, none, some, List, [],
  ◌∷◌, ltb, ◌==◌, if◌then◌else◌,
}

pub record SequenceTracker : Type 0 where
  pub expected : Option ℕ
  pub gap_count : ℕ
  pub lost_messages : ℕ
  pub duplicate_count : ℕ

abbrev pub initial : SequenceTracker
initial = record { expected = none; gap_count = 0; lost_messages = 0; duplicate_count = 0 }

-- `SequenceTracker.observe`: the number lost before this frame, and the tracker after it.
unfoldable pub observe : SequenceTracker → ℕ → ℕ × SequenceTracker
observe t seq = elim t.expected [
  | none ↦ (0, record t { expected = some (seq + 1) })
  | some e ↦
      if seq == e
      then (0, record t { expected = some (e + 1) })
      else if ltb seq e
      then (0, record t { duplicate_count = t.duplicate_count + 1 })
      else (
        seq - e,
        record t {
          gap_count = t.gap_count + 1;
          lost_messages = t.lost_messages + (seq - e);
          expected = some (seq + 1);
        },
      )
]

-- The frames of a session, observed in order.
unfoldable pub observe_all : SequenceTracker → List ℕ → SequenceTracker
observe_all t [] = t
observe_all t (s ∷ ss) = observe_all (observe t s).1 ss

-- What a tracker has seen since `t`, where `e` was expected: `e'` is expected now, and the `n`
-- frames since, the numbers lost and the duplicates add up.
pub record Accounts (t : SequenceTracker) (e n : ℕ) (t' : SequenceTracker) : Type 0 where
  pub next : ℕ
  pub expects : t'.expected ≡ some next
  pub grows : e ≤ next
  pub balance :
      next + t'.duplicate_count + t.lost_messages ≡ e + n + t.duplicate_count + t'.lost_messages

observe-Accounts :
    (t : SequenceTracker) (e s : ℕ) → t.expected ≡ some e → Accounts t e 1 (observe t s).1
unfolding observe
observe-Accounts t e s h = record {
  next = max e (s + 1);
  expects = ground (arith, h);
  grows = omega arith;
  balance = ground (arith, h);
}

observe_all-Accounts :
    (ss : List ℕ) (t : SequenceTracker) (e : ℕ)
    → t.expected ≡ some e
    → Accounts t e (length ss) (observe_all t ss)
unfolding observe_all
observe_all-Accounts [] t e h = record {
  next = e;
  expects = h;
  grows = omega arith;
  balance = omega arith;
}
observe_all-Accounts (s ∷ ss) t e h =
    let a = observe-Accounts t e s h in
    let b = observe_all-Accounts ss (observe t s).1 a.next a.expects in
    record {
      next = b.next;
      expects = b.expects;
      grows = omega (arith, a.grows, b.grows);
      balance = omega (arith, a.balance, b.balance);
    }

-- The numbers rise from frame to frame.
abbrev pub Rising : ℕ → List ℕ → Type 0
Rising m [] = Unit
Rising m (s ∷ ss) = (m ≤ s) × Rising (s + 1) ss

abbrev pub last_of : ℕ → List ℕ → ℕ
last_of s [] = s
last_of s (x ∷ xs) = last_of x xs

-- On a rising stream nothing counts as a duplicate, and the number after the last is expected.
observe_all-Rising :
    (ss : List ℕ) (t : SequenceTracker) (s : ℕ)
    → t.expected ≡ some (s + 1)
    → Rising (s + 1) ss
    → ((observe_all t ss).expected ≡ some (last_of s ss + 1))
      × ((observe_all t ss).duplicate_count ≡ t.duplicate_count)
unfolding observe_all
observe_all-Rising [] t s h r = (h, refl)
observe_all-Rising (x ∷ xs) t s h r =
    let u = (observe t x).1 in
    let e : u.expected ≡ some (x + 1) = unfold observe in ground (arith, h, r.0) in
    let d : u.duplicate_count ≡ t.duplicate_count = unfold observe in ground (arith, h, r.0) in
    let ih = observe_all-Rising xs u x e r.1 in (ih.0, ih.1 ∙ d)

-- A subscriber whose first frame is `s` and whose later frames rise counts as lost exactly the
-- numbers of the span up to its last frame that it did not receive, and no duplicates.
pub lost-observe_all :
    (s : ℕ) (ss : List ℕ)
    → Rising (s + 1) ss
    → let t = observe_all initial (s ∷ ss) in
      (t.lost_messages + (1 + length ss) ≡ last_of s ss + 1 - s)
      × (t.duplicate_count ≡ 0)
      × (t.expected ≡ some (last_of s ss + 1))
unfolding observe_all observe
lost-observe_all s ss r =
    let u = (observe initial s).1 in
    let a = observe_all-Accounts ss u (s + 1) refl in
    let b = observe_all-Rising ss u s refl r in
    let n : a.next ≡ last_of s ss + 1 = some_inj (sym a.expects ∙ b.0) in
    (omega (arith, a.balance, a.grows, n, b.1), b.1, b.0)
