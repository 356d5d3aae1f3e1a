-- ===== src/Strategies/Spacing.antt =====
-- The signals that the gate lets through for one symbol and strategy are spaced.
use market_feed_platform.Prelude.{
  ℕ, ◌+◌, ◌≤◌, ◌<◌, ◌≡◌, refl, ◌∙◌, arith, ==→eq, inl, inr, Bool-cases, false, ◌&&◌, Option, none,
  some, List, [], ◌∷◌, ◌==◌, if◌then◌else◌,
}
use mathlib.Core.Path.{subst}
use market_feed_platform.Strategies.{Last, SignalGate, is_for, last_of, set_last, too_soon, allow}

-- The bars on which a signal is let through for a symbol and a strategy, of all bars with one.
unfoldable pub allowed : ℕ → ℕ → List Last → SignalGate → List ℕ
allowed key strategy [] g = []
allowed key strategy (e ∷ es) g =
    let r = allow e.key e.strategy e.bar_ts g in
    let rest = allowed key strategy es r.1 in
    if r.0 && is_for key strategy e then e.bar_ts ∷ rest else rest

abbrev pub Apart : ℕ → Option ℕ → ℕ → Type 0
Apart cooldown none ts = Unit
Apart cooldown (some prev) ts = prev + cooldown ≤ ts

-- Each element is at least the cooldown after the one before it.
abbrev pub Spaced : ℕ → Option ℕ → List ℕ → Type 0
Spaced cooldown prev [] = Unit
Spaced cooldown prev (t ∷ ts) = Apart cooldown prev t × Spaced cooldown (some t) ts

apart :
    (cooldown : ℕ) (prev : Option ℕ) (ts : ℕ)
    → 0 < cooldown
    → too_soon cooldown prev ts ≡ false
    → Apart cooldown prev ts
apart cooldown none ts h e = tt
apart cooldown (some prev) ts h e = ground (arith, h, e)

last_of-set_last :
    (key strategy i j ts : ℕ) (es : List Last)
    → last_of key strategy (set_last i j ts es)
      ≡ (if i == key && j == strategy then some ts else last_of key strategy es)
unfolding last_of set_last
last_of-set_last key strategy i j ts [] = ground arith
last_of-set_last key strategy i j ts (e ∷ es) =
    ground (arith, last_of-set_last key strategy i j ts es)

-- With a cooldown, two signals that the gate lets through one after the other for a symbol and a
-- strategy are at least the cooldown apart in the time of their bars, and so is the first of them
-- from the last one that the gate remembers, whatever other signals come between them.
pub allowed-Spaced :
    (key strategy : ℕ) (bars : List Last) (g : SignalGate)
    → 0 < g.cooldown
    → Spaced g.cooldown (last_of key strategy g.last) (allowed key strategy bars g)
unfolding allowed allow
allowed-Spaced key strategy [] g h = tt
allowed-Spaced key strategy (e ∷ es) g h =
    let on : (g.cooldown == 0) ≡ false = ground (arith, h) in
    elim (Bool-cases (too_soon g.cooldown (last_of e.key e.strategy g.last) e.bar_ts)) [
      | inl soon ↦
          rw (on, soon)
            (allowed-Spaced key strategy es (record g { suppressed = g.suppressed + 1 }) h)
      | inr late ↦
          let g' = record g { last = set_last e.key e.strategy e.bar_ts g.last } in
          let rest = allowed-Spaced key strategy es g' h in
          let now = last_of-set_last key strategy e.key e.strategy e.bar_ts g.last in
          elim (Bool-cases (is_for key strategy e)) [
            | inl own ↦
                let same_key = ==→eq e.key key (ground (arith, own)) in
                let same_strategy = ==→eq e.strategy strategy (ground (arith, own)) in
                let late' : too_soon g.cooldown (last_of key strategy g.last) e.bar_ts ≡ false =
                  subst (λ i. too_soon g.cooldown (last_of i strategy g.last) e.bar_ts ≡ false)
                    same_key
                    (subst (λ j. too_soon g.cooldown (last_of e.key j g.last) e.bar_ts ≡ false)
                      same_strategy late) in
                rw (on, late, own)
                  (
                    apart g.cooldown (last_of key strategy g.last) e.bar_ts h late',
                    subst (λ p. Spaced g.cooldown p (allowed key strategy es g'))
                        (now ∙ rw own refl) rest,
                  )
            | inr other ↦
                rw (on, late, other)
                  (subst (λ p. Spaced g.cooldown p (allowed key strategy es g'))
                    (now ∙ rw other refl) rest)
          ]
    ]
