-- ===== src/Migration/Runs.antt =====
-- src/mdfeed/migration/engine.py: the copy of all tables.
use market_feed_platform.Prelude.{
  ==→eq, ℕ, ◌+◌, ◌≤◌, ◌<◌, ◌≡◌, refl, sym, ◌∙◌, arith, inl, inr, Bool-cases, none, List, [], ◌∷◌,
  length, ◌==◌,
}
use mathlib.Core.Path.{subst}
use market_feed_platform.Migration.{
  Target, contents, Copy, finished, killed, stopped, migrate_table, and_then, migrate_tables,
  validate_checkpoints,
}
use market_feed_platform.Migration.Chunks.{Increasing}
use market_feed_platform.Migration.Resume.{stored_below, Kept, Went, migrate_table-Went}

abbrev pub Each : (ℕ → Type 0) → List ℕ → Type 0
Each p [] = Unit
Each p (t ∷ ts) = p t × Each p ts

pub Each-all : (p : ℕ → Type 0) → ((t : ℕ) → p t) → (ts : List ℕ) → Each p ts
Each-all p f [] = tt
Each-all p f (t ∷ ts) = (f t, Each-all p f ts)

-- The rows of some source tables.
unfoldable pub total {ℓ} : {A : Type ℓ} → (ℕ → List A) → List ℕ → ℕ
total source [] = 0
total source (t ∷ ts) = length (source t) + total source ts

module _ {Row : Type 0} (h : List (ℕ × Row) → ℕ) (run : ℕ) (source : ℕ → List (ℕ × Row))
    (increasing : (t : ℕ) → Increasing 0 (source t)) where
  abbrev pub Full : Target Row → ℕ → Type 0
  Full tgt t = tgt.rows t ≡ contents (source t)

  abbrev pub Through : List ℕ → ℕ → ℕ → Target Row → Copy × Target Row → Type 0
  Through ts n budget tgt (finished b, tgt') =
      Kept h run source increasing tgt'
      × (tgt'.runs ≡ tgt.runs)
      × (0 < n → (u : ℕ) → Full tgt u → Full tgt' u)
      × (0 < n → Each (Full tgt') ts)
      × (budget ≤ b + total source ts)
  Through ts n budget tgt (killed, tgt') =
      Kept h run source increasing tgt' × (tgt'.runs ≡ tgt.runs) × (budget < total source ts)
  Through ts n budget tgt (stopped e, tgt') = ⊥

  Through-then :
      (t : ℕ) (ts : List ℕ) (n budget b : ℕ) (tgt mid : Target Row) (x : Copy × Target Row)
      → Went h run source increasing t n budget tgt (finished b, mid)
      → Through ts n b mid x
      → Through (t ∷ ts) n budget tgt x
  unfolding total
  Through-then t ts n budget b tgt mid (finished b', tgt') w v = (
    v.0,
    v.1 ∙ w.1,
    λ lt u full. elim (Bool-cases (u == t)) [
      | inl same ↦ v.2 lt u (subst (Full mid) (sym (==→eq u t same)) (w.3 lt))
      | inr other ↦ v.2 lt u (w.2 u other ∙ full)
    ],
    λ lt. (v.2 lt t (w.3 lt), v.3 lt),
    omega (arith, w.4, v.4, stored_below h run source increasing t mid w.0),
  )
  Through-then t ts n budget b tgt mid (killed, tgt') w v =
      (v.0, v.1 ∙ w.1, omega (arith, w.4, v.2, stored_below h run source increasing t mid w.0))
  Through-then t ts n budget b tgt mid (stopped e, tgt') w v = v

  next-Through :
      (t : ℕ) (ts : List ℕ) (n budget : ℕ) (tgt : Target Row) (x : Copy × Target Row)
      (next : ℕ → Target Row → Copy × Target Row)
      → ((b : ℕ) (mid : Target Row)
          → Kept h run source increasing mid
          → Through ts n b mid (next b mid))
      → Went h run source increasing t n budget tgt x
      → Through (t ∷ ts) n budget tgt (and_then h next x)
  unfolding total
  next-Through t ts n budget tgt (finished b, mid) next go w =
      Through-then t ts n budget b tgt mid (next b mid) w (go b mid w.0)
  next-Through t ts n budget tgt (killed, tgt') next go w = (w.0, w.1, omega (arith, w.2))
  next-Through t ts n budget tgt (stopped e, tgt') next go w = w

  pub migrate_tables-Through :
      (counts : ℕ → ℕ) (ts : List ℕ) (n budget : ℕ) (tgt : Target Row)
      → Each (λ t. counts t ≡ length (source t)) ts
      → Kept h run source increasing tgt
      → Through ts n budget tgt (migrate_tables h run source counts n ts budget tgt)
  unfolding migrate_tables
  migrate_tables-Through counts [] n budget tgt c k = (k, refl, λ lt u f. f, λ lt. tt, omega arith)
  migrate_tables-Through counts (t ∷ ts) n budget tgt c k =
      next-Through t ts n budget tgt (migrate_table h run t (source t) (counts t) n budget tgt)
        (migrate_tables h run source counts n ts)
        (λ b mid k'. migrate_tables-Through counts ts n b mid c.1 k')
        (rw c.0 (migrate_table-Went h run source increasing budget t n tgt k))

  -- The checkpoints of a kept target pass.
  pub validated :
      (tgt : Target Row) (ts : List ℕ)
      → Kept h run source increasing tgt
      → validate_checkpoints h run source tgt ts ≡ none
  unfolding validate_checkpoints
  validated tgt [] k = refl
  validated tgt (t ∷ ts) k = rw ((k t).valid, validated tgt ts k) refl
