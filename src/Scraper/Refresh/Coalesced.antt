-- ===== src/Scraper/Refresh/Coalesced.antt =====
-- `RefreshNow` of internal/scraper/scheduler.go next to another worker's run of the same target.
use classroom.Base.{
  suc, ◌≡◌, refl, ◌∙◌, Bool, true, false, none, some, List, [], ◌∷◌, if◌then◌else◌, String, arith,
  Bool-cases, inl, inr, All, ◌++◌,
}
use classroom.Domain.Snapshot.{validate_ref}
use classroom.Scraper.Codec.{Codec}
use classroom.Scraper.Run.{Inputs, commit_input, next_of}
use classroom.Scraper.Refresh.{
  leased, Refreshed, refreshed, attempt_failed, Poll, is_held, judge_row, poll_row, refresh_loop,
  claim_or_wait, refresh_now, Start, found,
}
use classroom.Store.Target.{Target}
use classroom.Store.Rows.{CommitInput, Store, successful, success_row, failure_row}
use classroom.Store.Commit.{outcome_row}

-- A poll that reads a row that the run has not written yet, and a lease that goes on.
abbrev pub IsEarly : Target → Poll → Type 0
IsEarly baseline p =
    (p.wait_broken ≡ false)
    × ((t : Target) × (p.current ≡ some t)
        × (t.validation_seq ≡ baseline.validation_seq)
        × (t.consecutive_failures ≡ baseline.consecutive_failures)
        × (is_held t p.now ≡ true))

early_goes_on :
    (baseline : Target) (p : Poll) (ps : List Poll)
    → IsEarly baseline p
    → refresh_loop baseline (p ∷ ps) ≡ refresh_loop baseline ps
unfolding refresh_loop poll_row judge_row
early_goes_on baseline p ps (go, (t, read, seq, failures, held)) = rw (go, read) (ground arith)

-- The row that the other worker's run leaves.
abbrev pub row_after : Codec → Inputs → Store → Target → Target
row_after c n s t = outcome_row (commit_input c n t) s t t

outcome_row-success :
    (i : CommitInput) (s : Store) (t : Target)
    → successful i.outcome ≡ true
    → (outcome_row i s t t).validation_seq ≡ suc t.validation_seq
unfolding outcome_row success_row
outcome_row-success i s t e = elim (Bool-cases i.changed_content) [
  | inl b ↦ rw (e, b) refl
  | inr b ↦ rw (e, b) refl
]

outcome_row-failure :
    (i : CommitInput) (s : Store) (t : Target)
    → successful i.outcome ≡ false
    → ((outcome_row i s t t).validation_seq ≡ t.validation_seq)
      × ((outcome_row i s t t).consecutive_failures ≡ i.consecutive_failures)
unfolding outcome_row failure_row
outcome_row-failure i s t e = rw e (refl, refl)

commit_input-failures :
    (c : Codec) (n : Inputs) (t : Target)
    → successful (commit_input c n t).outcome ≡ false
    → (commit_input c n t).consecutive_failures ≡ suc t.consecutive_failures
unfolding commit_input next_of
commit_input-failures c n t e = rw e refl

judge_row-advanced :
    (t u : Target) → u.validation_seq ≡ suc t.validation_seq → judge_row t u ≡ some refreshed
unfolding judge_row
judge_row-advanced t u h = ground arith

judge_row-failed :
    (t u : Target)
    → u.validation_seq ≡ t.validation_seq
    → u.consecutive_failures ≡ suc t.consecutive_failures
    → judge_row t u ≡ some attempt_failed
unfolding judge_row
judge_row-failed t u h k = ground arith

-- The waiter's verdict on the run of the other worker.
abbrev pub verdict : Codec → Inputs → Target → Refreshed
verdict c n t = if successful (commit_input c n t).outcome then refreshed else attempt_failed

judge_row-after :
    (c : Codec) (n : Inputs) (s : Store) (t : Target)
    → judge_row t (row_after c n s t) ≡ some (verdict c n t)
judge_row-after c n s t = elim (Bool-cases (successful (commit_input c n t).outcome)) [
  | inl e ↦
      rw e
        (judge_row-advanced t (row_after c n s t) (outcome_row-success (commit_input c n t) s t e))
  | inr e ↦
      let (seq, fails) = outcome_row-failure (commit_input c n t) s t e in
      rw e (judge_row-failed t (row_after c n s t) seq (fails ∙ commit_input-failures c n t e))
]

-- The polls that read the row before the run has written it.
early_go_on :
    (baseline : Target) (early ps : List Poll)
    → All (IsEarly baseline) early
    → refresh_loop baseline (early ++ ps) ≡ refresh_loop baseline ps
early_go_on baseline [] ps all = refl
early_go_on baseline (p ∷ early) ps (h, hs) =
    early_goes_on baseline p (early ++ ps) h ∙ early_go_on baseline early ps hs

reads_verdict :
    (baseline u : Target) (p : Poll) (ps : List Poll) (r : Refreshed)
    → p.wait_broken ≡ false
    → p.current ≡ some u
    → judge_row baseline u ≡ some r
    → refresh_loop baseline (p ∷ ps) ≡ r
unfolding refresh_loop poll_row
reads_verdict baseline u p ps r go read h = rw (go, read, poll_row, h) refl

-- A refresh of a valid reference whose row exists, and whose target another worker holds, waits, however
-- often it reads the row before that worker's run is committed; the first read after the commit ends it,
-- with the fate of that run: refreshed when the run is a success, and otherwise failed. It starts no run
-- of its own meanwhile.
pub coalesced_verdict :
    (blank : String → Bool) (c : Codec) (n : Inputs) (s : Store) (t : Target) (start : Start)
    (early : List Poll) (last : Poll) (more : List Poll)
    → validate_ref blank t.ref ≡ none
    → start.first ≡ found t
    → start.made_due ≡ true
    → All (IsEarly t) early
    → last.wait_broken ≡ false
    → last.current ≡ some (row_after c n s t)
    → refresh_now blank t.ref start leased (early ++ last ∷ more)
      ≡ (if successful (commit_input c n t).outcome then refreshed else attempt_failed)
unfolding refresh_now claim_or_wait
coalesced_verdict blank c n s t start early last more valid first due all go read =
    rw (valid, refresh_now, first, due, claim_or_wait)
      (early_go_on t early (last ∷ more) all
        ∙ reads_verdict t (row_after c n s t) last more (verdict c n t) go read
            (judge_row-after c n s t))
