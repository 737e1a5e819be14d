-- ===== src/Store/Grants.antt =====
-- What `AcquireHostPermit` of internal/db/snapshot_repository.go grants.
use classroom.Base.{
  ℕ, ◌+◌, ◌≤◌, ◌<◌, ◌≡◌, refl, sym, ◌∙◌, ap, Bool, true, false, String, Option, none, some, List,
  [], ◌∷◌, ◌++◌, ltb, leb, arith, inl, inr, Bool-cases, Option-cases, subst, ltb→lt,
}
use classroom.Store.Hosts.{
  Floats, Permit, PermitRequest, PermitDecision, granted, Permits, Acquired, decided, rejected,
  refill_tokens, is_paused, count_active, decide, permit_of,
}

count-append :
    (host : String) (now : ℕ) (ps : List Permit) (p : Permit)
    → count_active host now (ps ++ p ∷ []) ≤ count_active host now ps + 1
unfolding count_active
count-append host now [] p = ground arith
count-append host now (q ∷ ps) p = ground (arith, count-append host now ps p)

-- What a decision leaves: a grant puts one permit more on a host that had fewer active ones than its
-- concurrency and at least one token, so that they stay within it; any other decision grants none.
abbrev pub Decides : {R : Type 0} → Floats R → PermitRequest → ℕ → Permits R → Acquired R → Type 0
Decides F r now db (rejected e) = ⊥
Decides F r now db (decided db' (granted p)) =
    (count_active r.host now db'.rows ≤ db.state.current_concurrency)
    × (F.lt (refill_tokens F db.state now) F.one_ ≡ false)
    × (is_paused db.state.paused_until now ≡ false)
    × (db'.state.available_tokens ≡ F.minus (refill_tokens F db.state now) F.one_)
    × (db'.rows ≡ db.rows ++ p ∷ [])
Decides F r now db (decided db' (PermitDecision.retry_at at)) =
    (db'.rows ≡ db.rows) × (is_paused db.state.paused_until now ≡ false)
Decides F r now db (decided db' (PermitDecision.paused at)) =
    (db' ≡ db) × (db.state.paused_until ≡ some at) × (now < at)

module _ {R : Type 0} (F : Floats R) (r : PermitRequest) (now : ℕ) (db : Permits R) where
  abbrev tokens : R
  tokens = refill_tokens F db.state now

  abbrev active : ℕ
  active = count_active r.host now db.rows

  decide_paused :
      (at : ℕ)
      → db.state.paused_until ≡ some at
      → ltb now at ≡ true
      → Decides F r now db (decide F r now db)
  unfolding decide
  decide_paused at e h =
      let here : decide F r now db ≡ decided db (PermitDecision.paused at) =
        rw (e, h, decide) refl in
      subst (Decides F r now db) (sym here) (refl, e, ltb→lt now at h)

  decide_open :
      is_paused db.state.paused_until now ≡ false
      → (full poor : Bool) → leb db.state.current_concurrency active ≡ full
      → F.lt tokens F.one_ ≡ poor
      → Decides F r now db (decide F r now db)
  unfolding decide
  decide_open open_ true poor e k = rw (open_, e, decide) (refl, open_)
  decide_open open_ false true e k = rw (open_, e, k, decide) (refl, open_)
  decide_open open_ false false e k =
      rw (open_, e, k, decide)
        (
          ground (arith, count-append r.host now db.rows (permit_of F r now db.next_permit)),
          k,
          open_,
          refl,
          refl,
        )

  -- `AcquireHostPermit`, from the host's pause on, after the expired permits are gone, either grants one
  -- permit to a host that is not paused, takes one token for it and keeps the active permits within the
  -- concurrency, or grants none and leaves the permits as they were.
  pub decide_lem : Decides F r now db (decide F r now db)
  decide_lem = elim (Bool-cases (is_paused db.state.paused_until now)) [
    | inr open_ ↦ decide_open open_ _ _ refl refl
    | inl shut ↦ elim (Option-cases db.state.paused_until) [
      | inl e ↦ absurd (never e shut)
      | inr (at, e) ↦ decide_paused at e (sym (ap (λ o. is_paused o now) e) ∙ shut)
    ]
  ]
    where
      never : {o : Option ℕ} → o ≡ none → is_paused o now ≡ true → ⊥
      never e h = ground arith
