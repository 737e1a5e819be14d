-- ===== src/Store/Observe.antt =====
-- `ObserveHost` of internal/db/snapshot_repository.go: how a host's limits follow what its targets meet.
use classroom.Base.{
  ℕ, suc, ◌+◌, ◌-◌, ◌*◌, min, max, ◌&&◌, Option, none, some, ltb, leb, ◌==◌, if◌then◌else◌,
}
use classroom.Scraper.Policy.{minute, hour}
use classroom.Store.Hosts.{Floats, HostState, refill_tokens, is_paused}

-- The outcomes that `ObserveHost` tells apart. `other_outcome` is its default.
pub data Observed : Type 0 where
  rate_limited : ℕ → Observed
  auth_error healthy other_outcome : Observed
  transient_error : ℕ → Observed

-- The pause after an HTTP 429 with the given Retry-After.
unfoldable pub pause_after_429 : Option ℕ → ℕ → ℕ → ℕ
pause_after_429 last now retry_after =
    let pause = if ltb (15 * minute) retry_after then retry_after else 15 * minute in
    elim last [
      | none ↦ pause
      | some at ↦ if leb (now - at) hour && ltb pause hour then hour else pause
    ]

module _ {R : Type 0} (F : Floats R) where
  abbrev pub lowered : R → R
  lowered x = if F.lt (F.half x) F.quarter then F.quarter else F.half x

  abbrev pub raised : R → R → R
  raised base x = if F.lt base (F.plus x F.quarter) then base else F.plus x F.quarter

  -- The columns that every outcome sets: the bucket is refilled up to `now`, LEAST(tokens, burst).
  abbrev pub refilled : ℕ → HostState R → HostState R
  refilled now h = record h {
    available_tokens =
        if F.lt (F.of_count h.burst) (refill_tokens F h now)
        then F.of_count h.burst
        else refill_tokens F h now;
    tokens_updated_at = now;
  }

  -- A healthy outcome: the twentieth in a row raises the limits towards the baseline.
  unfoldable pub observe_healthy : ℕ → HostState R → HostState R
  observe_healthy now h =
      let up = leb 20 (h.healthy_streak + 1) in
      record (refilled now h) {
        current_rps = if up then raised h.baseline_rps h.current_rps else h.current_rps;
        current_concurrency =
            if up
            then min (h.current_concurrency + 1) h.baseline_concurrency
            else h.current_concurrency;
        consecutive_429s = 0;
        healthy_streak = if up then 0 else h.healthy_streak + 1;
        paused_until = if is_paused h.paused_until now then h.paused_until else none;
      }

  -- `ObserveHost` on the locked row.
  unfoldable pub observe_host : ℕ → Observed → HostState R → HostState R
  unfolding observe_healthy pause_after_429
  observe_host observed_at o h =
      let now = max observed_at h.tokens_updated_at in
      let base = refilled now h in
      elim o [
        | rate_limited retry_after ↦ record base {
          current_rps = lowered h.current_rps;
          current_concurrency = 1;
          consecutive_429s = suc h.consecutive_429s;
          last_429_at = some now;
          healthy_streak = 0;
          paused_until = some (now + pause_after_429 h.last_429_at now retry_after);
        }
        | auth_error ↦ record base { healthy_streak = 0; paused_until = some (now + 15 * minute) }
        | healthy ↦ observe_healthy now h
        | transient_error failures ↦ record base {
          current_rps = if failures == 3 then lowered h.current_rps else h.current_rps;
          current_concurrency =
              if failures == 3 then max 1 (h.current_concurrency - 1) else h.current_concurrency;
          healthy_streak = 0;
        }
        | other_outcome ↦ record base { healthy_streak = 0 }
      ]
