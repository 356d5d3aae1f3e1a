-- ===== src/Auth.antt =====
-- src/mdfeed/auth.py: `LoginThrottle` and `SessionStore`, and src/mdfeed/services/order_desk.py: the
-- login, the logout and the guard of the desk's pages.  Instants are microseconds of a monotonic
-- clock, whose reading is an argument.  A token is a number, drawn outside, and `none` where the
-- cookie has none.  The hash of the password and the text of the cookies are left out.
pub mod Throttle
pub mod Sessions
mod Tests
use market_feed_platform.Prelude.{
  ℕ, suc, ◌+◌, ◌-◌, Bool, true, false, not, ◌&&◌, ◌||◌, Option, none, some, List, [], ◌∷◌, ◌++◌,
  ltb, leb, ◌==◌, if◌then◌else◌, length,
}

abbrev pub idle_ttl : ℕ
idle_ttl = 1_800_000_000

abbrev pub absolute_ttl : ℕ
absolute_ttl = 43_200_000_000

abbrev pub fail_window : ℕ
fail_window = 300_000_000

abbrev pub fail_limit : ℕ
fail_limit = 5

abbrev pub lock_time : ℕ
lock_time = 60_000_000

pub record LoginThrottle : Type 0 where
  pub fails : List ℕ
  pub locked_until : ℕ

abbrev pub create_throttle : LoginThrottle
create_throttle = record { fails = []; locked_until = 0 }

-- `max(0.0, self._locked_until - now)`
unfoldable pub locked_for : ℕ → LoginThrottle → ℕ
locked_for now th = th.locked_until - now

-- The fails of the window.
unfoldable pub recent_fails : ℕ → List ℕ → List ℕ
recent_fails now [] = []
recent_fails now (t ∷ ts) =
    let rest = recent_fails now ts in if ltb (now - t) fail_window then t ∷ rest else rest

unfoldable pub fail : ℕ → LoginThrottle → LoginThrottle
fail now th =
    let fails = recent_fails now th.fails ++ (now ∷ []) in
    if leb fail_limit (length fails)
    then record { fails = []; locked_until = now + lock_time }
    else record th { fails = fails }

abbrev pub success : LoginThrottle → LoginThrottle
success th = record th { fails = [] }

pub record Session : Type 0 where
  pub token : ℕ
  pub created : ℕ
  pub last : ℕ
  pub subject : ℕ

-- `_sessions.get(token)`
unfoldable pub find_session : ℕ → List Session → Option Session
find_session tok [] = none
find_session tok (s ∷ ss) = if s.token == tok then some s else find_session tok ss

unfoldable pub remove : ℕ → List Session → List Session
remove tok [] = []
remove tok (s ∷ ss) = let rest = remove tok ss in if s.token == tok then rest else s ∷ rest

-- `create`
unfoldable pub create_session : ℕ → ℕ → ℕ → List Session → List Session
create_session now tok subject ss =
    record { token = tok; created = now; last = now; subject = subject } ∷ remove tok ss

abbrev pub expired : ℕ → Session → Bool
expired now s = ltb idle_ttl (now - s.last) || ltb absolute_ttl (now - s.created)

abbrev check_found : ℕ → ℕ → List Session → Option Session → Bool × List Session
check_found now tok ss none = (false, ss)
check_found now tok ss (some s) =
    if expired now s
    then (false, remove tok ss)
    else (true, record s { last = now } ∷ remove tok ss)

unfoldable pub check : ℕ → Option ℕ → List Session → Bool × List Session
check now none ss = (false, ss)
check now (some tok) ss = check_found now tok ss (find_session tok ss)

abbrev subject_of : Option Session → Option ℕ
subject_of none = none
subject_of (some s) = some s.subject

unfoldable pub subject : ℕ → Option ℕ → List Session → Option ℕ × List Session
subject now none ss = (none, ss)
subject now (some tok) ss =
    let r = check now (some tok) ss in
    (if r.0 then subject_of (find_session tok r.1) else none, r.1)

unfoldable pub revoke : Option ℕ → List Session → List Session
revoke none ss = ss
revoke (some tok) ss = remove tok ss

-- The desk's part of the state: how many passwords are being verified, and how many were.
pub record Door : Type 0 where
  pub throttle : LoginThrottle
  pub sessions : List Session
  pub verifying : ℕ
  pub verified : ℕ

abbrev pub create : Door
create = record { throttle = create_throttle; sessions = []; verifying = 0; verified = 0 }

pub data Answer : Type 0 where
  csrf : Answer
  locked : ℕ → Answer
  bad_json : Answer
  verification : Answer
  wrong_password : Answer
  logged_in : ℕ → Answer

-- `login` up to the verification of the password, which runs in a thread.
unfoldable pub login : ℕ → Bool → Bool → Door → Answer × Door
login now header body d =
    if not header
    then (csrf, d)
    else if ltb 0 (locked_for now d.throttle)
    then (locked (locked_for now d.throttle), d)
    else if not body
    then (bad_json, d)
    else (verification, record d { verifying = d.verifying + 1; verified = d.verified + 1 })

-- `login` from the result of a verification on.
unfoldable pub login_verified : ℕ → Bool → ℕ → Door → Answer × Door
login_verified now ok tok d =
    if not ok
    then (wrong_password, record d { throttle = fail now d.throttle; verifying = d.verifying - 1 })
    else (
      logged_in tok,
      record d {
        throttle = success d.throttle;
        sessions = create_session now tok 0 d.sessions;
        verifying = d.verifying - 1;
      },
    )

unfoldable pub logout : Option ℕ → Door → Door
logout tok d = record d { sessions = revoke tok d.sessions }

pub data Guard : Type 0 where
  no_csrf_header login_required passed : Guard

-- `guarded`, up to the call of the page.
unfoldable pub guarded : ℕ → Bool → Bool → Option ℕ → Door → Guard × Door
guarded now write header tok d =
    let r = check now tok d.sessions in
    if write && not header
    then (no_csrf_header, d)
    else (if r.0 then passed else login_required, record d { sessions = r.1 })
