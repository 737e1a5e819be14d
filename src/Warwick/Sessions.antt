-- ===== src/Warwick/Sessions.antt =====
-- internal/warwick/session_pool.go: one upstream session with its login and its backoff after a human
-- admin has taken the account over. `login` is what the site answers.
pub mod Backoff
pub mod Pool
pub mod Inventory
use classroom.Base.{
  ℕ, suc, ◌+◌, ◌-◌, ◌*◌, ◌^◌, ◌%◌, Bool, true, false, ◌&&◌, not, String, ltb, leb, ◌==◌, str_eq,
  if◌then◌else◌,
}
use classroom.Scraper.Policy.{second, minute}

-- `pooledSession`, its client and credentials left out. 0 is the zero time.
pub record Session : Type 0 where
  pub cookie : String
  pub obtained_at : ℕ
  pub expires_at : ℕ
  pub generation : ℕ
  pub backed_off_until : ℕ
  pub backoff_count : ℕ

-- What `loginWithContext` answers: a cookie, the error of a context, or another error.
pub data Login : Type 0 where
  logged_in : String → Login
  login_canceled login_failed : Login

pub data AuthError : Type 0 where
  auth_conflict context_error login_error : AuthError

-- A cookie with its generation, or an error.
pub data Access : Type 0 where
  granted : String → ℕ → Access
  denied : AuthError → Access

abbrev pub min_valid_age : ℕ
min_valid_age = 2 * minute

abbrev pub max_valid_age : ℕ
max_valid_age = 55 * minute

abbrev pub backoff_initial : ℕ
backoff_initial = 30 * second

abbrev pub backoff_max : ℕ
backoff_max = 15 * minute

abbrev pub max_attempts : ℕ
max_attempts = 6

-- The count of `applyBackoff`: the first failure of a young session counts as the last attempt.
unfoldable pub next_count : ℕ → Session → ℕ
next_count now s =
    let n = suc s.backoff_count in
    let m = if n == 1 && leb (now - s.obtained_at) min_valid_age then max_attempts else n in
    if ltb max_attempts m then max_attempts else m

-- `applyBackoff`, at the time `now`.
unfoldable pub apply_backoff : ℕ → Session → Session
unfolding next_count
apply_backoff now s =
    let d = backoff_initial * 2 ^ (next_count now s - 1) in
    record s {
      backoff_count = next_count now s;
      backed_off_until = now + (if ltb backoff_max d then backoff_max else d);
    }

-- `resetBackoff`.
abbrev pub reset_backoff : Session → Session
reset_backoff s = record s { backed_off_until = 0; backoff_count = 0 }

-- `isBackedOff`.
abbrev pub is_backed_off : ℕ → Session → Bool
is_backed_off now s = ltb now s.backed_off_until

-- `isKickCandidate`.
abbrev pub is_kick_candidate : ℕ → Session → Bool
is_kick_candidate now s = not (s.obtained_at == 0) && leb (now - s.obtained_at) max_valid_age

abbrev pub session_ttl : ℕ
session_ttl = 60 * minute

abbrev pub refresh_buffer : ℕ
refresh_buffer = 5 * minute

-- The success of `doLoginLocked`. The generation is a 64-bit number.
unfoldable pub log_in : ℕ → String → Session → Session
log_in now cookie s = record s {
  cookie = cookie;
  obtained_at = now;
  expires_at = now + session_ttl;
  generation = suc s.generation % 2 ^ 64;
}

-- The cookie is there and not about to expire. The subtraction of the buffer is on the other side.
abbrev pub is_fresh : ℕ → Session → Bool
is_fresh now s = not (str_eq s.cookie "") && ltb (now + refresh_buffer) s.expires_at

abbrev pub access_of : Session → Access
access_of s = granted s.cookie s.generation

-- A failed login: a kick of a recent session backs off.
unfoldable pub login_fails : ℕ → Session → Access × Session
unfolding apply_backoff
login_fails now s =
    if is_kick_candidate now s
    then (denied auth_conflict, apply_backoff now s)
    else (denied login_error, s)

-- The login of `ensureValidSession`.
unfoldable pub ensure_login : ℕ → Login → Session → Access × Session
unfolding log_in login_fails
ensure_login now (logged_in cookie) s =
    (access_of (log_in now cookie s), reset_backoff (log_in now cookie s))
ensure_login now login_canceled s = (denied context_error, s)
ensure_login now login_failed s = login_fails now s

-- `ensureValidSession`; `done` is whether the context is.
unfoldable pub ensure_valid_session : Bool → ℕ → Login → Session → Access × Session
unfolding ensure_login
ensure_valid_session done now login s =
    if done
    then (denied context_error, s)
    else if is_fresh now s
    then (access_of s, s)
    else if is_backed_off now s
    then (denied auth_conflict, s)
    else ensure_login now login s

-- The login of `ForceRefreshOnSessionContext`, in which a cancellation counts as a failure.
unfoldable pub refresh_login : ℕ → Login → Session → Access × Session
unfolding log_in login_fails
refresh_login now (logged_in cookie) s =
    (access_of (log_in now cookie s), reset_backoff (log_in now cookie s))
refresh_login now login_canceled s =
    if is_kick_candidate now s then login_fails now s else (denied context_error, s)
refresh_login now login_failed s = login_fails now s

-- `ForceRefreshOnSessionContext`.
unfoldable pub force_refresh : Bool → ℕ → Login → Session → Access × Session
unfolding refresh_login
force_refresh done now login s =
    if done
    then (denied context_error, s)
    else if is_backed_off now s
    then (denied auth_conflict, s)
    else refresh_login now login s
