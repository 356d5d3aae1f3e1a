-- ===== src/Auth/Throttle.antt =====
-- src/mdfeed/auth.py and src/mdfeed/services/order_desk.py: how many passwords can be tried.
use market_feed_platform.Prelude.{
  ℕ, zero, suc, ◌+◌, ◌-◌, ◌≤◌, ◌<◌, ◌≡◌, ◌⊎◌, refl, ap, arith, inl, inr, Bool-cases, Bool, true,
  false, Option, List, [], ◌∷◌, ◌++◌, ltb, leb, if◌then◌else◌, length,
}
use market_feed_platform.Auth.{
  fail_window, fail_limit, lock_time, LoginThrottle, locked_for, recent_fails, fail, Door, create,
  Answer, csrf, locked, bad_json, verification, wrong_password, logged_in, login, login_verified,
  logout, guarded,
}

-- What comes to the door, in any order: verifications run at the same time.
pub data Move : Type 0 where
  begin : ℕ → Bool → Bool → Move
  verify : ℕ → Bool → ℕ → Move
  leave : Option ℕ → Move
  pass : ℕ → Bool → Bool → Option ℕ → Move

unfoldable pub move : Move → Door → Door
move (begin now header body) d = (login now header body d).1
move (verify now ok tok) d = (login_verified now ok tok d).1
move (leave tok) d = logout tok d
move (pass now write header tok) d = (guarded now write header tok d).1

unfoldable pub run : List Move → Door → Door
run [] d = d
run (m ∷ ms) d = run ms (move m d)

-- A wrong password that is tried alone: the instants when its login comes and is verified.
abbrev after_login : ℕ → Answer × Door → Door
after_login now (verification, d) = (login_verified now false 0 d).1
after_login now (csrf, d) = d
after_login now (locked n, d) = d
after_login now (bad_json, d) = d
after_login now (wrong_password, d) = d
after_login now (logged_in tok, d) = d

unfoldable pub guess : ℕ × ℕ → Door → Door
guess (t, u) d = after_login u (login t true true d)

unfoldable pub guesses : List (ℕ × ℕ) → Door → Door
guesses [] d = d
guesses (g ∷ gs) d = guesses gs (guess g d)

abbrev Few : Door → Type 0
Few d = length d.throttle.fails < fail_limit

fail-few : (now : ℕ) (th : LoginThrottle) → length (fail now th).fails < fail_limit
unfolding fail
fail-few now th =
    let fails = recent_fails now th.fails ++ (now ∷ []) in
    elim (Bool-cases (leb fail_limit (length fails))) [
      | inl lock ↦ rw lock (omega arith)
      | inr more ↦ rw more (ground (arith, more))
    ]

move-Few : (m : Move) (d : Door) → Few d → Few (move m d)
unfolding move login login_verified logout guarded
move-Few (begin now header body) d h = ground (arith, h)
move-Few (verify now true tok) d h = omega arith
move-Few (verify now false tok) d h = fail-few now d.throttle
move-Few (leave tok) d h = h
move-Few (pass now write header tok) d h = ground (arith, h)

run-Few : (ms : List Move) (d : Door) → Few d → Few (run ms d)
unfolding run
run-Few [] d h = h
run-Few (m ∷ ms) d h = run-Few ms (move m d) (move-Few m d h)

-- The tries of a minute from `s` on.
abbrev pub In : ℕ → ℕ × ℕ → Type 0
In s (t, u) = (s ≤ t) × (t < s + lock_time) × (s ≤ u) × (u < s + lock_time)

abbrev pub AllIn : ℕ → List (ℕ × ℕ) → Type 0
AllIn s [] = Unit
AllIn s (g ∷ gs) = In s g × AllIn s gs

unfoldable since : ℕ → List ℕ → ℕ
since s [] = 0
since s (x ∷ xs) = (if leb s x then 1 else 0) + since s xs

since_all : (s : ℕ) (xs : List ℕ) → since s xs ≤ length xs
unfolding since
since_all s [] = omega arith
since_all s (x ∷ xs) = let rest = since_all s xs in ground (arith, rest)

since-append : (s u : ℕ) (xs : List ℕ) → s ≤ u → since s (xs ++ (u ∷ [])) ≡ since s xs + 1
unfolding since
since-append s u [] h = ground (arith, h)
since-append s u (x ∷ xs) h = omega (arith, since-append s u xs h)

since-recent_fails :
    (s u : ℕ) (xs : List ℕ) → u < s + lock_time → since s (recent_fails u xs) ≡ since s xs
unfolding since recent_fails
since-recent_fails s u [] h = refl
since-recent_fails s u (x ∷ xs) h =
    let rest = since-recent_fails s u xs h in
    elim (Bool-cases (ltb (u - x) fail_window)) [
      | inl e ↦ rw e (omega (arith, rest))
      | inr e ↦
          let before : leb s x ≡ false = ground (arith, h, e) in
          rw (e, before) (omega (arith, rest))
    ]

-- A guess, by the lock.
guess_locked : (t u : ℕ) (d : Door) → ltb 0 (locked_for t d.throttle) ≡ true → guess (t, u) d ≡ d
unfolding guess login
guess_locked t u d e = rw e refl

guess_tried :
    (t u : ℕ) (d : Door)
    → ltb 0 (locked_for t d.throttle) ≡ false
    → ((guess (t, u) d).throttle ≡ fail u d.throttle) × ((guess (t, u) d).verified ≡ d.verified + 1)
unfolding guess login login_verified
guess_tried t u d e = rw e (refl, refl)

shut_out :
    (s : ℕ) (gs : List (ℕ × ℕ)) (d : Door)
    → AllIn s gs
    → s + lock_time ≤ d.throttle.locked_until
    → guesses gs d ≡ d
unfolding guesses
shut_out s [] d a h = refl
shut_out s ((t, u) ∷ gs) d a h =
    let e : ltb 0 (locked_for t d.throttle) ≡ true =
      unfold locked_for in ground (arith, a.0.1, h) in
    rw (guess_locked t u d e) (shut_out s gs d a.1 h)

-- A fail in the minute.
fail_cases :
    (s u : ℕ) (th : LoginThrottle)
    → s ≤ u
    → u < s + lock_time
    → ((fail u th).fails ≡ []) × (s + lock_time ≤ (fail u th).locked_until)
      ⊎ (since s (fail u th).fails ≡ since s th.fails + 1)
unfolding fail
fail_cases s u th le lt =
    let kept = recent_fails u th.fails in
    elim (Bool-cases (leb fail_limit (length (kept ++ (u ∷ []))))) [
      | inl lock ↦ rw lock (inl (refl, omega (arith, le)))
      | inr more ↦
          rw more
            (inr (omega (arith, since-append s u kept le, since-recent_fails s u th.fails lt)))
    ]

guesses_counted :
    (s : ℕ) (gs : List (ℕ × ℕ)) (d : Door)
    → AllIn s gs
    → Few d
    → (guesses gs d).verified + since s d.throttle.fails ≤ d.verified + fail_limit
unfolding guesses
guesses_counted s [] d a h = omega (arith, since_all s d.throttle.fails, h)
guesses_counted s ((t, u) ∷ gs) d a h = elim (Bool-cases (ltb 0 (locked_for t d.throttle))) [
  | inl e ↦ rw (guess_locked t u d e, guesses) (guesses_counted s gs d a.1 h)
  | inr e ↦
      let d' = guess (t, u) d in
      let (th, n) = guess_tried t u d e in
      let few : Few d' = rw th (fail-few u d.throttle) in
      elim (fail_cases s u d.throttle a.0.2 a.0.3) [
        | inl lock ↦
            let until : s + lock_time ≤ d'.throttle.locked_until = rw th lock.1 in
            omega (
              arith,
              ap (λ x. x.verified) (shut_out s gs d' a.1 until),
              n,
              since_all s d.throttle.fails,
              h,
            )
        | inr more ↦
            let rest = guesses_counted s gs d' a.1 few in
            omega (arith, rest, n, ap (λ x. since s x.fails) th, more)
      ]
]

-- Whatever logins, verifications, logouts and pages came before, in any order: of the wrong
-- passwords that are then tried one after the other within the time of one lock, whose logins come
-- and are verified from `s` on and before `s + lock_time`, at most five are verified.
pub guesses-run :
    (before : List Move) (s : ℕ) (gs : List (ℕ × ℕ))
    → AllIn s gs
    → (guesses gs (run before create)).verified ≤ (run before create).verified + fail_limit
guesses-run before s gs a =
    let d = run before create in
    omega (arith, guesses_counted s gs d a (run-Few before create (omega arith)))

-- Logins that come at once.
unfoldable pub crowd : ℕ → ℕ → List Move
crowd zero now = []
crowd (suc n) now = begin now true true ∷ crowd n now

begun :
    (now : ℕ) (d : Door)
    → ltb 0 (locked_for now d.throttle) ≡ false
    → move (begin now true true) d
      ≡ record d { verifying = d.verifying + 1; verified = d.verified + 1 }
unfolding move login
begun now d e = rw (e, move, login) refl

crowd_on :
    (n now : ℕ) (d : Door)
    → ltb 0 (locked_for now d.throttle) ≡ false
    → (run (crowd n now) d).verified ≡ d.verified + n
unfolding crowd run
crowd_on zero now d e = omega arith
crowd_on (suc n) now d e =
    let d' : Door = record d { verifying = d.verifying + 1; verified = d.verified + 1 } in
    rw (begun now d e, run) (omega (arith, crowd_on n now d' e))

-- However many logins come at a time at which the door is not locked and before one of their
-- verifications ends, the password of each is verified.
pub run-crowd :
    (before : List Move) (n now : ℕ)
    → locked_for now (run before create).throttle ≡ 0
    → (run (crowd n now) (run before create)).verified ≡ (run before create).verified + n
run-crowd before n now e = crowd_on n now (run before create) (ground (arith, e))
