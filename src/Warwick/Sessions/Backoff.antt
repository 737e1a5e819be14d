-- ===== src/Warwick/Sessions/Backoff.antt =====
-- The backoff of internal/warwick/session_pool.go.
use classroom.Base.{ℕ, ◌+◌, ◌-◌, ◌*◌, ◌^◌, ◌≤◌, ◌≡◌, refl, true, false, arith}
use native.Mathlib.Nat.{pow-le-pow_right}
use classroom.Scraper.Policy.{second, minute}
use classroom.Warwick.Sessions.{
  Session, login_failed, denied, auth_conflict, is_fresh, is_backed_off, is_kick_candidate,
  next_count, apply_backoff, ensure_valid_session, force_refresh, min_valid_age, ensure_login,
  login_fails,
}

next_count_bounds : (now : ℕ) (s : Session) → (1 ≤ next_count now s) × (next_count now s ≤ 6)
unfolding next_count
next_count_bounds now s = ground arith

pow_pos : (n : ℕ) → 1 ≤ 2 ^ n
pow_pos n = pow-le-pow_right {n = 2} (omega arith) {i = 0} {j = n} (omega arith)

next_count_first :
    (now : ℕ) (s : Session)
    → s.backoff_count ≡ 0
    → now ≤ s.obtained_at + min_valid_age
    → next_count now s ≡ 6
unfolding next_count
next_count_first now s first young = ground arith

first_is_longest :
    (now : ℕ) (s : Session)
    → s.backoff_count ≡ 0
    → now ≤ s.obtained_at + min_valid_age
    → (apply_backoff now s).backed_off_until ≡ now + 15 * minute
unfolding apply_backoff
first_is_longest now s first young = rw (next_count_first now s first young, apply_backoff) refl

-- A login that fails on a recent session starts a backoff of at least half a minute and at most fifteen,
-- in `ensureValidSession` and in a forced refresh alike; of a session no older than two minutes it is
-- fifteen at once, when it is the first failure.
pub kick_backs_off :
    (now : ℕ) (s : Session)
    → is_kick_candidate now s ≡ true
    → is_backed_off now s ≡ false
    → is_fresh now s ≡ false
    → let t = apply_backoff now s in
      (ensure_valid_session false now login_failed s ≡ (denied auth_conflict, t))
      × (force_refresh false now login_failed s ≡ (denied auth_conflict, t))
      × (now + 30 * second ≤ t.backed_off_until)
      × (t.backed_off_until ≤ now + 15 * minute)
      × (s.backoff_count ≡ 0
          → now ≤ s.obtained_at + min_valid_age
          → t.backed_off_until ≡ now + 15 * minute)
unfolding ensure_valid_session force_refresh apply_backoff
kick_backs_off now s kick off stale = (
  rw (off, stale, kick, ensure_valid_session, ensure_login, login_fails) refl,
  rw (off, kick, force_refresh, login_fails) refl,
  let p = pow_pos (next_count now s - 1) in ground (arith, p),
  ground arith,
  λ first young. first_is_longest now s first young,
)
