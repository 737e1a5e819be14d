-- ===== src/Service/Activity/Idle.antt =====
-- The controller of internal/service/activity_controller.go loses no activity and idles only when idle.
use classroom.Base.{
  ◌<◌, ◌≡◌, refl, sym, ◌∙◌, ap, ◌⊎◌, inl, inr, Bool, true, false, ◌||◌, not, ltb, ◌==◌, arith,
  Bool-cases,
}
use classroom.Service.Activity.{
  Phase, stopping, idling, leaving, returned, is_locked, Controller, count_activity, send_activity,
  begin_activity, finish_activity, wake, expire, settle, run_handlers, cancel, run_last_handlers,
  Step, counts, sends, begins, finishes, wakes, expires, settles, handles, cancels, leaves,
  Reachable, starts, goes,
}

abbrev pub has_left : Phase → Bool
has_left leaving = true
has_left returned = true
has_left _ = false

-- Activity that is not handled has a notification on its way or in the channel; running workers have a
-- timer; in the timer's branch, with the lock, the workers have stopped, no request is in flight and the
-- activity that was read is what is handled; and after a cancelled context the workers have stopped.
pub record IsLive (c : Controller) : Type 0 where
  pub pending : (c.handled ≡ c.activity_seq) ⊎ ((c.token ≡ true) ⊎ (0 < c.senders))
  pub timed : c.running ≡ true → c.armed ≡ true
  pub quiet :
      is_locked c.phase ≡ true → (c.running ≡ false) × (c.in_flight ≡ 0) × (c.expiring ≡ c.handled)
  pub left : has_left c.phase ≡ true → c.running ≡ false

count-IsLive : (c : Controller) → IsLive c → IsLive (count_activity c)
unfolding count_activity
count-IsLive c i = record {
  pending = inr (inr (omega arith));
  timed = i.timed;
  quiet = i.quiet;
  left = i.left;
}

Step-IsLive : {c c' : Controller} → Step c c' → IsLive c → IsLive c'
unfolding send_activity begin_activity finish_activity wake expire settle run_handlers cancel
    run_last_handlers count_activity
Step-IsLive (counts c) i = count-IsLive c i
Step-IsLive (sends c h) i = record {
  pending = inr (inl refl);
  timed = i.timed;
  quiet = i.quiet;
  left = i.left;
}
Step-IsLive (begins c h) i = record {
  pending = i.pending;
  timed = i.timed;
  quiet = λ e. cc;
  left = i.left;
}
Step-IsLive (finishes true c h) i = record {
  pending = inr (inr (omega arith));
  timed = i.timed;
  quiet = λ e. let (r, f, x) = i.quiet e in (r, omega (arith, f), x);
  left = i.left;
}
Step-IsLive (finishes false c h) i = record {
  pending = i.pending;
  timed = i.timed;
  quiet = λ e. let (r, f, x) = i.quiet e in (r, omega (arith, f), x);
  left = i.left;
}
Step-IsLive (wakes c h t) i =
    let free : is_locked c.phase ≡ false = ap is_locked h in
    let here : has_left c.phase ≡ false = ap has_left h in
    record { pending = inl refl; timed = λ e. refl; quiet = λ e. cc; left = λ e. cc }
Step-IsLive (expires c h t) i =
    let free : is_locked c.phase ≡ false = ap is_locked h in
    let here : has_left c.phase ≡ false = ap has_left h in
    elim (Bool-cases (ltb 0 c.in_flight || not (c.activity_seq == c.handled))) [
      | inl b ↦
          rw (b, expire)
            (record { pending = i.pending; timed = λ e. refl; quiet = λ e. cc; left = λ e. cc })
      | inr b ↦
          rw (b, expire)
            (record {
              pending = i.pending;
              timed = λ e. cc;
              quiet = λ e. (refl, ground (arith, b), refl);
              left = λ e. cc;
            })
    ]
Step-IsLive (settles c h) i =
    let locked : is_locked c.phase ≡ true = ap is_locked h in
    elim (Bool-cases (not (c.activity_seq == c.expiring))) [
      | inl b ↦
          rw (b, settle)
            (record { pending = i.pending; timed = i.timed; quiet = λ e. cc; left = λ e. cc })
      | inr b ↦
          rw (b, settle)
            (record {
              pending = i.pending;
              timed = i.timed;
              quiet = λ e. i.quiet locked;
              left = λ e. cc;
            })
    ]
Step-IsLive (handles c h) i = record {
  pending = i.pending;
  timed = i.timed;
  quiet = λ e. cc;
  left = λ e. cc;
}
Step-IsLive (cancels c h) i = record {
  pending = i.pending;
  timed = λ e. cc;
  quiet = λ e. cc;
  left = λ e. refl;
}
Step-IsLive (leaves c h) i = record {
  pending = i.pending;
  timed = i.timed;
  quiet = λ e. cc;
  left = λ e. i.left (ap has_left h);
}

Reachable-IsLive : {c : Controller} → Reachable c → IsLive c
Reachable-IsLive starts = record {
  pending = inl refl;
  timed = λ e. cc;
  quiet = λ e. cc;
  left = λ e. cc;
}
Reachable-IsLive (goes r s) = Step-IsLive s (Reachable-IsLive r)

-- What holds where the idle handlers run: in the timer's branch no request is in flight.
abbrev pub HasStopped : Controller → Type 0
HasStopped c =
    (c.running ≡ false) × (((c.phase ≡ idling) × (c.in_flight ≡ 0)) ⊎ (c.phase ≡ leaving))

handlers_run_stopped :
    {c c' : Controller} → Step c c' → IsLive c → c.idle_rounds < c'.idle_rounds → HasStopped c
unfolding send_activity begin_activity finish_activity wake expire settle run_handlers cancel
    run_last_handlers count_activity
handlers_run_stopped (counts c) i h = absurd (omega (arith, h))
handlers_run_stopped (sends c e) i h = absurd (omega (arith, h))
handlers_run_stopped (begins c e) i h = absurd (omega (arith, h))
handlers_run_stopped (finishes true c e) i h = absurd (omega (arith, h))
handlers_run_stopped (finishes false c e) i h = absurd (omega (arith, h))
handlers_run_stopped (wakes c e t) i h = absurd (omega (arith, h))
handlers_run_stopped (expires c e t) i h = ground arith
handlers_run_stopped (settles c e) i h = ground arith
handlers_run_stopped (handles c e) i h = let (r, f, x) = i.quiet (ap is_locked e) in (r, inl (e, f))
handlers_run_stopped (cancels c e) i h = absurd (omega (arith, h))
handlers_run_stopped (leaves c e) i h = (i.left (ap has_left e), inr e)

-- What holds where the timer's branch has decided for the handlers.
abbrev pub IsIdle : Controller → Type 0
IsIdle c = (c.running ≡ false) × (c.in_flight ≡ 0) × (c.handled ≡ c.activity_seq)

settle-IsIdle :
    (c : Controller) → IsLive c → c.phase ≡ stopping → (settle c).phase ≡ idling → IsIdle c
unfolding settle
settle-IsIdle c i h k =
    let (r, f, x) = i.quiet (ap is_locked h) in
    elim (Bool-cases (c.activity_seq == c.expiring)) [
      | inl b ↦ let same : c.activity_seq ≡ c.expiring = ground (arith, b) in (r, f, sym (same ∙ x))
      | inr b ↦ ground arith
    ]

-- In every interleaving of requests with the controller, a cancelled context included: activity that it
-- has not handled is on its way to the channel or in it, so it is not lost; workers that run have a timer
-- that will end them; the idle handlers run only while the workers have stopped, and in the timer's branch
-- only while no request is in flight, as the lock keeps it, or else after the context is done; and the
-- timer's branch decides for them only when all activity is handled as well.
pub controller_idles :
    {c : Controller}
    → Reachable c
    → IsLive c
      × ((c' : Controller) → Step c c' → c.idle_rounds < c'.idle_rounds → HasStopped c)
      × (c.phase ≡ stopping → (settle c).phase ≡ idling → IsIdle c)
controller_idles {c} r =
    let i = Reachable-IsLive r in (i, (λ c' s. handlers_run_stopped s i), settle-IsIdle c i)
