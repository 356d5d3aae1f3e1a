-- ===== src/Auth/Tests.antt =====
-- The door's theorems at concrete inputs.
use market_feed_platform.Prelude.{ℕ, ◌+◌, ◌≤◌, ◌≡◌, refl, arith, true, false, some, List, [], ◌∷◌}
use market_feed_platform.Auth.{
  fail_limit, create, locked_for, check, login, login_verified, logout, guarded, fail, recent_fails,
  create_session, find_session, remove,
}
use market_feed_platform.Auth.Throttle.{
  Move, begin, verify, pass, move, run, guess, guesses, guesses-run, crowd, run-crowd,
}
use market_feed_platform.Auth.Sessions.{check-run-expired, check-run-logout}

-- Two wrong passwords at the same time, then a right one, and a page.
abbrev before : List Move
before =
    begin 1_000_000 true true
    ∷ begin 1_100_000 true true
    ∷ verify 1_200_000 false 0
    ∷ verify 1_300_000 false 0
    ∷ begin 2_000_000 true true
    ∷ verify 2_100_000 true 77
    ∷ pass 3_000_000 true true (some 77)
    ∷ []

-- Six guesses, one each second.
abbrev six : List (ℕ × ℕ)
six =
    (10_000_000, 10_100_000)
    ∷ (11_000_000, 11_100_000)
    ∷ (12_000_000, 12_100_000)
    ∷ (13_000_000, 13_100_000)
    ∷ (14_000_000, 14_100_000)
    ∷ (15_000_000, 15_100_000)
    ∷ []

five-verified :
    ((run before create).verified ≡ 3) × ((guesses six (run before create)).verified ≡ 8)
unfolding run move login login_verified guarded guesses guess locked_for fail recent_fails check
    find_session remove create_session
five-verified = (refl, refl)

guesses-run_example :
    (guesses six (run before create)).verified ≤ (run before create).verified + fail_limit
guesses-run_example = guesses-run before 10_000_000 six (
  (omega arith, omega arith, omega arith, omega arith),
  (
    (omega arith, omega arith, omega arith, omega arith),
    (
      (omega arith, omega arith, omega arith, omega arith),
      (
        (omega arith, omega arith, omega arith, omega arith),
        (
          (omega arith, omega arith, omega arith, omega arith),
          ((omega arith, omega arith, omega arith, omega arith), tt),
        ),
      ),
    ),
  ),
)

run-crowd_example :
    (run (crowd 20 4_000_000) (run before create)).verified ≡ (run before create).verified + 20
unfolding run move login login_verified guarded locked_for fail recent_fails check find_session
    remove create_session
run-crowd_example = run-crowd before 20 4_000_000 refl

check-run-expired_example :
    (check 43_300_000_000
      (some 77)
      (run
        (pass 20_000_000_000 false false (some 77) ∷ [])
        (login_verified 4_000_000 true 77 (run [] create)).1).sessions).0
    ≡ false
check-run-expired_example =
    check-run-expired [] (pass 20_000_000_000 false false (some 77) ∷ []) 4_000_000 43_300_000_000
      77 tt (omega arith)

check-run-logout_example :
    (check 5_000_000
      (some 77)
      (run (verify 4_000_000 true 78 ∷ []) (logout (some 77) (run before create))).sessions).0
    ≡ false
check-run-logout_example =
    check-run-logout before (verify 4_000_000 true 78 ∷ []) 5_000_000 77 (refl, tt)
