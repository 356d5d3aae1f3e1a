-- ===== src/Auth/Sessions.antt =====
-- src/mdfeed/auth.py: a session ends, by its age and by a logout.
use market_feed_platform.Prelude.{
  ℕ, ◌+◌, ◌<◌, ◌≡◌, refl, sym, arith, inl, inr, Bool-cases, Option-cases, some_inj, Bool, true,
  false, not, ◌&&◌, Option, none, some, List, [], ◌∷◌, ◌==◌,
}
use mathlib.Core.Path.{subst}
use market_feed_platform.Auth.{
  absolute_ttl, Session, find_session, remove, create_session, expired, check, revoke, Door, create,
  login, login_verified, logout, guarded,
}
use market_feed_platform.Auth.Throttle.{Move, begin, verify, leave, pass, move, run}

-- No session is made for the token.
abbrev pub NoNew : ℕ → List Move → Type 0
NoNew tok [] = Unit
NoNew tok (begin now header body ∷ ms) = NoNew tok ms
NoNew tok (verify now ok tok' ∷ ms) = ((tok' == tok) ≡ false) × NoNew tok ms
NoNew tok (leave t ∷ ms) = NoNew tok ms
NoNew tok (pass now write header t ∷ ms) = NoNew tok ms

begin_sessions :
    (now : ℕ) (header body : Bool) (d : Door)
    → (move (begin now header body) d).sessions ≡ d.sessions
unfolding move login
begin_sessions now header body d = ground arith

module _ (tok : ℕ) (p : ℕ → Type 0) where
  -- The sessions of the token were created at an instant with the property.
  abbrev Born : List Session → Type 0
  Born [] = Unit
  Born (s ∷ ss) = ((s.token == tok) ≡ true → p s.created) × Born ss

  remove-Born : (t : ℕ) (ss : List Session) → Born ss → Born (remove t ss)
  unfolding remove
  remove-Born t [] b = tt
  remove-Born t (s ∷ ss) b = elim (Bool-cases (s.token == t)) [
    | inl e ↦ rw e (remove-Born t ss b.1)
    | inr e ↦ rw e (b.0, remove-Born t ss b.1)
  ]

  found-Born :
      (t : ℕ) (ss : List Session) (s : Session)
      → find_session t ss ≡ some s
      → Born ss
      → (s.token == tok) ≡ true
      → p s.created
  unfolding find_session
  found-Born t [] s e b = absurd (ground (arith, e))
  found-Born t (x ∷ ss) s e b = elim (Bool-cases (x.token == t)) [
    | inl hit ↦
        let same : x ≡ s = some_inj (ground (arith, hit, e)) in
        subst (λ y. (y.token == tok) ≡ true → p y.created) same b.0
    | inr miss ↦ found-Born t ss s (ground (arith, miss, e)) b.1
  ]

  check-Born : (now : ℕ) (t : Option ℕ) (ss : List Session) → Born ss → Born (check now t ss).1
  unfolding check
  check-Born now none ss b = b
  check-Born now (some t) ss b = elim (Option-cases (find_session t ss)) [
    | inl missing ↦ rw (missing, check) b
    | inr found ↦ elim (Bool-cases (expired now found.0)) [
      | inl old ↦ rw (found.1, check) (rw old (remove-Born t ss b))
      | inr young ↦
          rw (found.1, check) (rw young (found-Born t ss found.0 found.1 b, remove-Born t ss b))
    ]
  ]

  create_session-Born :
      (now t subject : ℕ) (ss : List Session)
      → (t == tok) ≡ false
      → Born ss
      → Born (create_session now t subject ss)
  unfolding create_session
  create_session-Born now t subject ss e b =
      (λ h. absurd (ground (arith, h, e)), remove-Born t ss b)

  pass-Born :
      (now : ℕ) (write header : Bool) (t : Option ℕ) (d : Door)
      → Born d.sessions
      → Born (move (pass now write header t) d).sessions
  unfolding move guarded
  pass-Born now write header t d b = elim (Bool-cases (write && not header)) [
    | inl e ↦ rw (e, move, guarded) b
    | inr e ↦ rw (e, move, guarded) (check-Born now t d.sessions b)
  ]

  run-Born : (ms : List Move) (d : Door) → NoNew tok ms → Born d.sessions → Born (run ms d).sessions
  unfolding run move login login_verified logout guarded revoke
  run-Born [] d n b = b
  run-Born (begin now header body ∷ ms) d n b =
      run-Born ms (move (begin now header body) d) n
        (subst Born (sym (begin_sessions now header body d)) b)
  run-Born (verify now true t ∷ ms) d n b =
      run-Born ms (move (verify now true t) d) n.1 (create_session-Born now t 0 d.sessions n.0 b)
  run-Born (verify now false t ∷ ms) d n b = run-Born ms (move (verify now false t) d) n.1 b
  run-Born (leave none ∷ ms) d n b = run-Born ms (move (leave none) d) n b
  run-Born (leave (some t) ∷ ms) d n b =
      run-Born ms (move (leave (some t)) d) n (remove-Born t d.sessions b)
  run-Born (pass now write header t ∷ ms) d n b =
      run-Born ms (move (pass now write header t) d) n (pass-Born now write header t d b)

-- Where the token was removed it is not found.
remove-none : (tok : ℕ) (p : ℕ → Type 0) (ss : List Session) → Born tok p (remove tok ss)
unfolding remove
remove-none tok p [] = tt
remove-none tok p (s ∷ ss) = elim (Bool-cases (s.token == tok)) [
  | inl e ↦ rw e (remove-none tok p ss)
  | inr e ↦ rw e (λ h. absurd (ground (arith, h, e)), remove-none tok p ss)
]

find_session-token :
    (tok : ℕ) (ss : List Session) (s : Session)
    → find_session tok ss ≡ some s
    → (s.token == tok) ≡ true
unfolding find_session
find_session-token tok [] s e = absurd (ground (arith, e))
find_session-token tok (x ∷ ss) s e = elim (Bool-cases (x.token == tok)) [
  | inl hit ↦
      let same : x ≡ s = some_inj (ground (arith, hit, e)) in
      subst (λ y. (y.token == tok) ≡ true) same hit
  | inr miss ↦ find_session-token tok ss s (ground (arith, miss, e))
]

check-Born-false :
    (now tok : ℕ) (p : ℕ → Type 0) (ss : List Session)
    → ((s : Session) → p s.created → expired now s ≡ true)
    → Born tok p ss
    → (check now (some tok) ss).0 ≡ false
unfolding check
check-Born-false now tok p ss old b = elim (Option-cases (find_session tok ss)) [
  | inl missing ↦ rw (missing, check) refl
  | inr found ↦
      let s = found.0 in
      let e : expired now s ≡ true =
        old s (found-Born tok p tok ss s found.1 b (find_session-token tok ss s found.1)) in
      rw (found.1, check) (rw e refl)
]

-- A login at `created` makes a session for a token.  Whatever logins, verifications, logouts and
-- pages follow, in any order, so that none makes a session for the same token, the token is refused
-- at every instant more than `absolute_ttl` after the login, however much it was used meanwhile.
pub check-run-expired :
    (before ms : List Move) (created now tok : ℕ)
    → NoNew tok ms
    → created + absolute_ttl < now
    → (check now
        (some tok)
        (run ms (login_verified created true tok (run before create)).1).sessions).0
      ≡ false
check-run-expired before ms created now tok n h =
    let d = run before create in
    let p : ℕ → Type 0 = λ c. c ≡ created in
    let made : Born tok p (login_verified created true tok d).1.sessions =
      unfold login_verified in unfold create_session in (λ e. refl, remove-none tok p d.sessions) in
    check-Born-false now tok p (run ms (login_verified created true tok d).1).sessions
      (λ s e. ground (arith, e, h)) (run-Born tok p ms (login_verified created true tok d).1 n made)

-- After a logout with a token, whatever follows, so that none makes a session for the same token,
-- the token is refused.
pub check-run-logout :
    (before ms : List Move) (now tok : ℕ)
    → NoNew tok ms
    → (check now (some tok) (run ms (logout (some tok) (run before create))).sessions).0 ≡ false
check-run-logout before ms now tok n =
    let d = run before create in
    let p : ℕ → Type 0 = λ c. ⊥ in
    let gone : Born tok p (logout (some tok) d).sessions =
      unfold logout in unfold revoke in remove-none tok p d.sessions in
    check-Born-false now tok p (run ms (logout (some tok) d)).sessions (λ s e. absurd e)
      (run-Born tok p ms (logout (some tok) d) n gone)
