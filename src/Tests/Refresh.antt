-- ===== src/Tests/Refresh.antt =====
-- `RefreshNow` of internal/scraper/scheduler.go, internal/service/activity_controller.go and
-- internal/warwick/inflight.go at concrete inputs.
use classroom.Base.{◌≡◌, ◌<◌, refl, arith, true, false, some, List, [], ◌∷◌, if◌then◌else◌}
use classroom.Domain.Snapshot.{validate_ref, valid_kind}
use classroom.Scraper.Codec.{is_blank, courses}
use classroom.Scraper.Run.{commit_input}
use classroom.Scraper.Refresh.{
  refreshed, attempt_failed, Poll, leased, Start, found, missing, refresh_now,
}
use classroom.Scraper.Refresh.Coalesced.{IsEarly, row_after, coalesced_verdict}
use classroom.Store.Target.{Target}
use classroom.Store.Seeds.{new_row}
use classroom.Store.Leases.{claim_row}
use classroom.Store.Rows.{successful}
use classroom.Service.Activity.{
  stopping, idling, settle, Controller, new_controller, count_activity, send_activity, wake, Step,
  counts, sends, wakes, starts, goes,
}
use classroom.Service.Activity.Idle.{IsLive, HasStopped, IsIdle, controller_idles}
use classroom.Tests.Run.{codec, two, catalog_row, inputs, tables}
use classroom.Warwick.Inflight.Sharing.{
  Action, enters, leaves, ends, act_all, IsGroup, inflight-IsGroup,
}

abbrev poll : Target → Poll
poll t = record { wait_broken = false; current = some t; now = 10; claim = leased }

abbrev start : Start
start = record { first = found catalog_row; seeded = false; second = missing; made_due = true }

early : IsEarly catalog_row (poll catalog_row)
unfolding claim_row new_row
early = (refl, (catalog_row, refl, refl, refl, refl))

abbrev written : Target
written = row_after codec (inputs (courses two)) (tables catalog_row) catalog_row

coalesced_verdict_example :
    refresh_now
      (is_blank codec)
      catalog_row.ref
      start
      leased
      (poll catalog_row ∷ poll catalog_row ∷ poll written ∷ [])
    ≡ (if successful (commit_input codec (inputs (courses two)) catalog_row).outcome
        then refreshed
        else attempt_failed)
unfolding claim_row new_row validate_ref valid_kind
coalesced_verdict_example =
    coalesced_verdict (is_blank codec) codec (inputs (courses two)) (tables catalog_row) catalog_row
      start (poll catalog_row ∷ poll catalog_row ∷ []) (poll written) [] refl refl refl
      (early, (early, tt)) refl refl

-- A request that wakes the workers.
abbrev woken : Controller
woken = wake (send_activity (count_activity new_controller))

controller_idles_example :
    IsLive woken
    × ((c' : Controller) → Step woken c' → woken.idle_rounds < c'.idle_rounds → HasStopped woken)
    × (woken.phase ≡ stopping → (settle woken).phase ≡ idling → IsIdle woken)
unfolding count_activity send_activity
controller_idles_example = controller_idles (
    goes
      (goes (goes starts (counts new_controller))
        (sends (count_activity new_controller) (omega arith)))
      (wakes (send_activity (count_activity new_controller)) refl refl))

-- Two callers share a producer; one leaves, the producer ends, and a third caller starts anew.
abbrev shared : List Action
shared = enters "k" ∷ enters "k" ∷ leaves 0 ∷ ends 0 ∷ enters "k" ∷ []

inflight-IsGroup_example : IsGroup (act_all shared [])
inflight-IsGroup_example = inflight-IsGroup shared
