-- ===== src/Migration/Resume.antt =====
-- src/mdfeed/migration/engine.py: a migration that is killed goes on where it was, and a run with
-- enough time copies every row once.
use market_feed_platform.Prelude.{
  ℕ, zero, suc, ◌+◌, ◌≤◌, ◌<◌, ◌≡◌, refl, sym, ap, ◌∙◌, arith, inl, inr, Bool-cases, false, some,
  List, [], ◌∷◌, ◌++◌, take, length, length-append, ltb, ◌==◌, ==_refl,
}
use mathlib.Core.Path.{subst}
use mathlib.Core.List.{append-nil}
use market_feed_platform.Migration.{
  Target, put, contents, checkpoint_rowid, checkpoint_count, read_sqlite_chunk, Copy, finished,
  killed, stopped, commit, copy_round, migrate_table,
}
use market_feed_platform.Migration.Chunks.{
  Increasing, Copied, checkpoint_of, chunk_of, commit-Copied, length-contents,
}

some_taken :
    {Row : Type 0} (n : ℕ) (rest : List (ℕ × Row)) (i : ℕ) (r : Row) (more : List (ℕ × Row))
    → take n rest ≡ (i, r) ∷ more
    → 0 < length rest
some_taken zero rest i r more e = absurd (ground (arith, e))
some_taken (suc n) [] i r more e = absurd (ground (arith, e))
some_taken (suc n) (x ∷ rest) i r more e = omega arith

module _ {Row : Type 0} (h : List (ℕ × Row) → ℕ) (run : ℕ) (source : ℕ → List (ℕ × Row))
    (increasing : (t : ℕ) → Increasing 0 (source t)) where
  -- Every table is copied as far as its checkpoint says.
  abbrev pub Kept : Target Row → Type 0
  Kept tgt = (t : ℕ) → Copied h (source t) (tgt.checkpoints run t) (tgt.rows t)

  -- The chunk that is read next.
  chunk_next :
      (t n : ℕ) (tgt : Target Row) (k : Kept tgt)
      → read_sqlite_chunk (checkpoint_rowid (tgt.checkpoints run t)) n (source t)
        ≡ take n (k t).rest
  chunk_next t n tgt k =
      let p = k t in
      rw (p.reached, p.split)
        (chunk_of n p.done p.rest (subst (λ z. Increasing 0 z) p.split (increasing t)))

  commit-Kept :
      (t n i : ℕ) (r : Row) (more : List (ℕ × Row)) (tgt : Target Row) (k : Kept tgt)
      → take n (k t).rest ≡ (i, r) ∷ more
      → Kept (commit h run t i ((i, r) ∷ more) tgt)
  unfolding commit put
  commit-Kept t n i r more tgt k e u =
      let c = tgt.checkpoints run t in
      elim (Bool-cases (u == t)) [
        | inl same ↦
            let eq : u ≡ t = ground (arith, same) in
            let p = commit-Copied h (source t) c (tgt.rows t) n i r more (k t) (increasing t) e in
            rw (==_refl run, same)
              (subst
                (λ z.
                  Copied h (source z) (some (checkpoint_of h c i ((i, r) ∷ more)))
                    (tgt.rows t ++ contents ((i, r) ∷ more)))
                (sym eq) p)
        | inr other ↦ rw (==_refl run, other) (k u)
      ]

  -- What a commit adds.
  commit_rows :
      (t i : ℕ) (chunk : List (ℕ × Row)) (tgt : Target Row)
      → (commit h run t i chunk tgt).rows t ≡ tgt.rows t ++ contents chunk
  unfolding commit put
  commit_rows t i chunk tgt = rw (==_refl t) refl

  commit_other :
      (t i u : ℕ) (chunk : List (ℕ × Row)) (tgt : Target Row)
      → (u == t) ≡ false
      → (commit h run t i chunk tgt).rows u ≡ tgt.rows u
  unfolding commit put
  commit_other t i u chunk tgt e = rw e refl

  commit_runs :
      (t i : ℕ) (chunk : List (ℕ × Row)) (tgt : Target Row)
      → (commit h run t i chunk tgt).runs ≡ tgt.runs
  unfolding commit
  commit_runs t i chunk tgt = refl

  pub stored_below : (t : ℕ) (tgt : Target Row) → Kept tgt → length (tgt.rows t) ≤ length (source t)
  stored_below t tgt k =
      let p = k t in
      omega (
        arith,
        ap length p.copied,
        length-contents p.done,
        ap length p.split,
        length-append p.done p.rest,
      )

  count_of :
      (t : ℕ) (tgt : Target Row) (k : Kept tgt)
      → checkpoint_count (tgt.checkpoints run t) ≡ length (tgt.rows t)
  count_of t tgt k =
      let p = k t in p.counted ∙ sym (length-contents p.done) ∙ ap length (sym p.copied)

  -- With nothing left to read the table is copied.
  none_left : (n : ℕ) (rest : List (ℕ × Row)) → 0 < n → take n rest ≡ [] → rest ≡ []
  none_left zero rest lt e = absurd (omega (arith, lt))
  none_left (suc n) [] lt e = refl
  none_left (suc n) (x ∷ rest) lt e = absurd (ground (arith, e))

  full_at :
      (t n : ℕ) (tgt : Target Row) (k : Kept tgt)
      → take n (k t).rest ≡ []
      → 0 < n
      → tgt.rows t ≡ contents (source t)
  full_at t n tgt k e lt =
      let p = k t in
      let all : source t ≡ p.done =
        p.split ∙ ap (λ z. p.done ++ z) (none_left n p.rest lt e) ∙ append-nil p.done in
      p.copied ∙ ap contents (sym all)

  some_left :
      (t n i : ℕ) (r : Row) (more : List (ℕ × Row)) (tgt : Target Row) (k : Kept tgt)
      → take n (k t).rest ≡ (i, r) ∷ more
      → length (tgt.rows t) < length (source t)
  some_left t n i r more tgt k e =
      let p = k t in
      omega (
        arith,
        ap length p.copied,
        length-contents p.done,
        ap length p.split,
        length-append p.done p.rest,
        some_taken n p.rest i r more e,
      )

  -- What a call of `_migrate_table` comes to.
  abbrev pub Went : ℕ → ℕ → ℕ → Target Row → Copy × Target Row → Type 0
  Went t n budget tgt (finished b, tgt') =
      Kept tgt'
      × (tgt'.runs ≡ tgt.runs)
      × ((u : ℕ) → (u == t) ≡ false → tgt'.rows u ≡ tgt.rows u)
      × (0 < n → tgt'.rows t ≡ contents (source t))
      × (budget + length (tgt.rows t) ≤ b + length (tgt'.rows t))
  Went t n budget tgt (killed, tgt') =
      Kept tgt' × (tgt'.runs ≡ tgt.runs) × (budget + length (tgt.rows t) < length (source t))
  Went t n budget tgt (stopped e, tgt') = ⊥

  -- One more chunk before it.
  Went-commit :
      (t n budget i : ℕ) (r : Row) (more : List (ℕ × Row)) (tgt : Target Row)
      (x : Copy × Target Row)
      → Went t n budget (commit h run t i ((i, r) ∷ more) tgt) x
      → Went t n (suc budget) tgt x
  Went-commit t n budget i r more tgt (finished b, tgt') w =
      let grown = ap length (commit_rows t i ((i, r) ∷ more) tgt) in
      (
        w.0,
        w.1 ∙ commit_runs t i ((i, r) ∷ more) tgt,
        λ u e. w.2 u e ∙ commit_other t i u ((i, r) ∷ more) tgt e,
        w.3,
        omega (arith, w.4, grown, length-append (tgt.rows t) (contents ((i, r) ∷ more))),
      )
  Went-commit t n budget i r more tgt (killed, tgt') w =
      let grown = ap length (commit_rows t i ((i, r) ∷ more) tgt) in
      (
        w.0,
        w.1 ∙ commit_runs t i ((i, r) ∷ more) tgt,
        omega (arith, w.2, grown, length-append (tgt.rows t) (contents ((i, r) ∷ more))),
      )
  Went-commit t n budget i r more tgt (stopped e, tgt') w = w

  round-Went :
      (t n budget : ℕ) (tgt : Target Row) (k : Kept tgt) (chunk : List (ℕ × Row))
      (rest : Target Row → Copy × Target Row)
      → ((tgt' : Target Row) → Kept tgt' → Went t n budget tgt' (rest tgt'))
      → take n (k t).rest ≡ chunk
      → Went t n
          (suc budget)
          tgt
          (copy_round h run t (length (source t)) rest (suc budget) chunk tgt)
  round-Went t n budget tgt k [] rest go e =
      (k, refl, λ u z. refl, λ lt. full_at t n tgt k e lt, omega arith)
  round-Went t n budget tgt k ((i, r) ∷ more) rest go e =
      let tgt' = commit h run t i ((i, r) ∷ more) tgt in
      let k' = commit-Kept t n i r more tgt k e in
      let fits : ltb (length (source t)) (checkpoint_count (tgt'.checkpoints run t)) ≡ false =
        ground (arith, count_of t tgt' k', stored_below t tgt' k') in
      rw fits (Went-commit t n budget i r more tgt (rest tgt') (go tgt' k'))

  last-Went :
      (t n : ℕ) (tgt : Target Row) (k : Kept tgt) (chunk : List (ℕ × Row))
      → take n (k t).rest ≡ chunk
      → Went t n 0 tgt (elim chunk [ [] ↦ (finished 0, tgt) | r ∷ more ↦ (killed, tgt) ])
  last-Went t n tgt k [] e = (k, refl, λ u z. refl, λ lt. full_at t n tgt k e lt, omega arith)
  last-Went t n tgt k ((i, r) ∷ more) e = (k, refl, omega (arith, some_left t n i r more tgt k e))

  pub migrate_table-Went :
      (budget t n : ℕ) (tgt : Target Row)
      → Kept tgt
      → Went t n budget tgt (migrate_table h run t (source t) (length (source t)) n budget tgt)
  unfolding migrate_table
  migrate_table-Went zero t n tgt k =
      rw (chunk_next t n tgt k, migrate_table) (last-Went t n tgt k (take n (k t).rest) refl)
  migrate_table-Went (suc b) t n tgt k = rw (chunk_next t n tgt k) (
      round-Went t n b tgt k (take n (k t).rest)
        (migrate_table h run t (source t) (length (source t)) n b)
        (λ tgt' k'. migrate_table-Went b t n tgt' k') refl)
