-- ===== src/Store/Missing.antt =====
-- The life of a child whose parent page does or does not list it: `ReconcileLifecycle` and
-- `applyChildPresence` of internal/db/snapshot_repository.go.
use classroom.Base.{
  ℕ, suc, ◌+◌, ◌≤◌, ◌<◌, ◌≡◌, refl, sym, ◌∙◌, ap, subst, Bool, true, false, ◌&&◌, not, String, none,
  some, List, [], ◌∷◌, if◌then◌else◌, arith, All, inl, inr, length, ltb, ltb→lt, leb, min,
  Bool-cases,
}
use classroom.Domain.Snapshot.{SnapshotKind, session_detail, course_detail, TargetRef}
use classroom.Store.Target.{
  Target, active, missing, tombstoned, update_where, find_target, find_target-update_where,
}
use classroom.Store.Presence.{
  children_of, is_child, seen_keys, any_key, is_tombstoned, tombstone_threshold, activate_row,
  mark_missing_row, reconcile_rows, present_row, absent_row, apply_child_presence,
}

-- What one reconciliation does to the row of a key.
find_reconciled :
    (parent : TargetRef) (kind : SnapshotKind) (key : String) (keys : List String)
    (version now id : ℕ) (ts : List Target) (t : Target)
    → find_target id ts ≡ some t
    → is_child parent kind key t.ref ≡ true
    → find_target id (reconcile_rows parent kind key keys version now ts)
      ≡ some (
          if any_key t.ref.resource_key keys
          then activate_row version now t
          else if is_tombstoned t.lifecycle_state
          then t
          else mark_missing_row (tombstone_threshold kind) now t)
unfolding reconcile_rows activate_row mark_missing_row
find_reconciled parent kind key keys version now id ts t found child =
    let listed =
      λ (u : Target). is_child parent kind key u.ref && any_key u.ref.resource_key keys in
    let unlisted = λ (u : Target).
      is_child parent kind key u.ref
      && not (any_key u.ref.resource_key keys)
      && not (is_tombstoned u.lifecycle_state) in
    let first = find_target-update_where listed (activate_row version now) id ts (λ u. refl) in
    let second =
      find_target-update_where unlisted (mark_missing_row (tombstone_threshold kind) now) id
        (update_where listed (activate_row version now) ts) (λ u. refl) in
    ground (arith, first, second)

-- The row of a child that `applyChildPresence` finds unlisted.
find_absent :
    (parent : TargetRef) (kind : SnapshotKind) (key : String) (seen : List TargetRef) (id : ℕ)
    (ts : List Target) (t : Target)
    → find_target id ts ≡ some t
    → children_of parent ≡ some (kind, key)
    → is_child parent kind key t.ref ≡ true
    → any_key t.ref.resource_key (seen_keys parent kind key seen) ≡ false
    → find_target id (apply_child_presence parent seen ts) ≡ some (absent_row t)
unfolding apply_child_presence
find_absent parent kind key seen id ts t found kids child unseen =
    let keys = seen_keys parent kind key seen in
    let listed =
      λ (u : Target). is_child parent kind key u.ref && any_key u.ref.resource_key keys in
    let unlisted =
      λ (u : Target). is_child parent kind key u.ref && not (any_key u.ref.resource_key keys) in
    let first = find_target-update_where listed present_row id ts (λ u. refl) in
    let second =
      find_target-update_where unlisted absent_row id (update_where listed present_row ts)
        (λ u. refl) in
    rw (kids, apply_child_presence) (ground (arith, first, second))

-- A successful run of the parent: its version, the time, the children that it has seen, and whether it
-- has published a new version.
pub record Page : Type 0 where
  pub version : ℕ
  pub now : ℕ
  pub seen : List TargetRef
  pub published : Bool

-- What a run does to the rows of its children: `applyChildPresence` in the commit of a new version, then
-- `ReconcileLifecycle`. The seeds of the listed children, which change no other row, are left out.
unfoldable pub run_page : TargetRef → SnapshotKind → String → Page → List Target → List Target
run_page parent kind key p ts =
    reconcile_rows parent kind key (seen_keys parent kind key p.seen) p.version p.now
      (if p.published then apply_child_presence parent p.seen ts else ts)

abbrev pub run_pages : TargetRef → SnapshotKind → String → List Page → List Target → List Target
run_pages parent kind key [] ts = ts
run_pages parent kind key (p ∷ pages) ts =
    run_pages parent kind key pages (run_page parent kind key p ts)

abbrev pub published_pages : List Page → ℕ
published_pages [] = 0
published_pages (p ∷ pages) =
    let rest = published_pages pages in if p.published then suc rest else rest

-- Where a child stands that `n` runs have not listed, of which `m` have published.
abbrev pub IsAbsent : ℕ → ℕ → ℕ → Bool → Target → Type 0
IsAbsent threshold n m enabled t =
    (t.missing_count ≡ min 2 m)
    × (n < threshold
        → (t.consecutive_missing_count ≡ n)
          × (t.enabled ≡ (if leb 2 m then false else enabled))
          × (0 < n → t.lifecycle_state ≡ missing)
          × (is_tombstoned t.lifecycle_state ≡ false))
    × (threshold ≤ n → (t.lifecycle_state ≡ tombstoned) × (t.enabled ≡ false))

-- The row of the child after one run that does not list it.
abbrev unlisted_row : ℕ → Page → Target → Target
unlisted_row threshold p t =
    let u = if p.published then absent_row t else t in
    if is_tombstoned u.lifecycle_state then u else mark_missing_row threshold p.now u

published-IsAbsent :
    (threshold n m : ℕ) (b : Bool) (t : Target)
    → IsAbsent threshold n m b t
    → IsAbsent threshold n (suc m) b (absent_row t)
published-IsAbsent threshold n m b t (count, below, above) = (
  ground (arith, count),
  λ h. let (same, on, miss, open_) = below h in (same, ground (arith, on, count), miss, open_),
  λ h. let (dead, off) = above h in (dead, ground (arith, off)),
)

marked-IsAbsent :
    (threshold n m now : ℕ) (b : Bool) (t : Target)
    → 0 < threshold
    → IsAbsent threshold n m b t
    → IsAbsent threshold
        (suc n)
        m
        b
        (if is_tombstoned t.lifecycle_state then t else mark_missing_row threshold now t)
unfolding mark_missing_row
marked-IsAbsent threshold n m now b t pos (listed, below, above) =
    elim (Bool-cases (ltb n threshold)) [
      | inl e ↦
          let (count, same, _, open_) = below (ltb→lt n threshold e) in
          rw open_ (
            listed,
            (λ h. (omega arith, ground arith, (λ k. ground arith), ground arith)),
            (λ h. (ground arith, ground arith)),
          )
      | inr e ↦
          let over : threshold ≤ n = ground arith in
          let (dead, off) = above over in
          rw (ap is_tombstoned dead) (listed, (λ h. absurd (omega arith)), (λ h. (dead, off)))
    ]

unlisted_row-IsAbsent :
    (threshold n m : ℕ) (b : Bool) (p : Page) (t : Target)
    → 0 < threshold
    → IsAbsent threshold n m b t
    → IsAbsent threshold (suc n) (if p.published then suc m else m) b (unlisted_row threshold p t)
unlisted_row-IsAbsent threshold n m b p t pos i = elim (Bool-cases p.published) [
  | inl e ↦ rw e (
      marked-IsAbsent threshold n (suc m) p.now b (absent_row t) pos
        (published-IsAbsent threshold n m b t i))
  | inr e ↦ rw e (marked-IsAbsent threshold n m p.now b t pos i)
]

threshold_pos : (kind : SnapshotKind) → 0 < tombstone_threshold kind
unfolding tombstone_threshold
threshold_pos SnapshotKind.course_catalog = omega arith
threshold_pos course_detail = omega arith
threshold_pos session_detail = omega arith
threshold_pos SnapshotKind.student_profiles = omega arith
threshold_pos (SnapshotKind.other s) = omega arith

unlisted_row-ref :
    (threshold : ℕ) (p : Page) (t : Target) → (unlisted_row threshold p t).ref ≡ t.ref
unfolding mark_missing_row
unlisted_row-ref threshold p t = ground arith

-- No run lists the child of the key.
abbrev pub IsUnlisted : TargetRef → SnapshotKind → String → String → List Page → Type 0
IsUnlisted parent kind key own pages =
    All (λ p. any_key own (seen_keys parent kind key p.seen) ≡ false) pages

none_more : (m : ℕ) → m ≡ 0 + m
none_more m = omega arith

none_after : (n : ℕ) → n ≡ n + 0
none_after n = omega arith

one_run : (n k : ℕ) → suc n + k ≡ n + suc k
one_run n k = omega arith

one_page :
    (p : Page) (pages : List Page) (m : ℕ)
    → published_pages pages + (if p.published then suc m else m) ≡ published_pages (p ∷ pages) + m
one_page p pages m = ground arith

module _ (parent : TargetRef) (kind : SnapshotKind) (key : String)
    (kids : children_of parent ≡ some (kind, key)) (id : ℕ) where
  find_unlisted :
      (p : Page) (ts : List Target) (t : Target)
      → find_target id ts ≡ some t
      → is_child parent kind key t.ref ≡ true
      → any_key t.ref.resource_key (seen_keys parent kind key p.seen) ≡ false
      → find_target id (run_page parent kind key p ts)
        ≡ some (unlisted_row (tombstone_threshold kind) p t)
  unfolding run_page
  find_unlisted p ts t found child unseen = elim (Bool-cases p.published) [
    | inl e ↦
        let here = find_absent parent kind key p.seen id ts t found kids child unseen in
        rw e (
          find_reconciled parent kind key (seen_keys parent kind key p.seen) p.version p.now id
            (apply_child_presence parent p.seen ts) (absent_row t) here child
          ∙ rw unseen refl)
    | inr e ↦ rw e (
        find_reconciled parent kind key (seen_keys parent kind key p.seen) p.version p.now id ts t
          found child
        ∙ rw unseen refl)
  ]

  unlisted_runs :
      (pages : List Page) (n m : ℕ) (b : Bool) (ts : List Target) (t : Target)
      → find_target id ts ≡ some t
      → is_child parent kind key t.ref ≡ true
      → IsAbsent (tombstone_threshold kind) n m b t
      → IsUnlisted parent kind key t.ref.resource_key pages
      → (t' : Target) × (find_target id (run_pages parent kind key pages ts) ≡ some t')
        × IsAbsent (tombstone_threshold kind) (n + length pages) (published_pages pages + m) b t'
  unlisted_runs [] n m b ts t found child i unseen = (
    t,
    found,
    subst (λ k. IsAbsent (tombstone_threshold kind) (n + 0) k b t) (none_more m)
        (subst (λ k. IsAbsent (tombstone_threshold kind) k m b t) (none_after n) i),
  )
  unlisted_runs (p ∷ pages) n m b ts t found child i (e, unseen) =
      let u = unlisted_row (tombstone_threshold kind) p t in
      let r : u.ref ≡ t.ref = unlisted_row-ref (tombstone_threshold kind) p t in
      let (t', found', a) =
        unlisted_runs pages (suc n) (if p.published then suc m else m) b
          (run_page parent kind key p ts) u (find_unlisted p ts t found child e)
          (ap (is_child parent kind key) r ∙ child)
          (unlisted_row-IsAbsent (tombstone_threshold kind) n m b p t (threshold_pos kind) i)
          (subst (λ x. IsUnlisted parent kind key x.resource_key pages) (sym r) unseen) in
      (
        t',
        found',
        subst (λ k. IsAbsent (tombstone_threshold kind) k (published_pages (p ∷ pages) + m) b t')
            (one_run n (length pages))
            (subst (λ k. IsAbsent (tombstone_threshold kind) (suc n + length pages) k b t')
              (one_page p pages m) a),
      )

  -- A child that was present and that none of the next successful runs of its parent lists: below the
  -- threshold of its kind it is missing, and still enabled as it was unless two of these runs have
  -- published a new version, which disable it; from the threshold on it is tombstoned and disabled.
  pub unlisted_child_is_tombstoned :
      (pages : List Page) (ts : List Target) (t : Target)
      → find_target id ts ≡ some t
      → is_child parent kind key t.ref ≡ true
      → (t.lifecycle_state ≡ active) × (t.consecutive_missing_count ≡ 0) × (t.missing_count ≡ 0)
      → IsUnlisted parent kind key t.ref.resource_key pages
      → (t' : Target) × (find_target id (run_pages parent kind key pages ts) ≡ some t')
        × IsAbsent (tombstone_threshold kind) (length pages) (published_pages pages) t.enabled t'
  unlisted_child_is_tombstoned pages ts t found child (state, count, listed) unseen =
      let (t', found', a) =
        unlisted_runs pages 0 0 t.enabled ts t found child
          (
            omega (arith, listed),
            (λ h. (count, refl, (λ k. absurd (omega arith)), ap is_tombstoned state)),
            (λ h. absurd (omega (arith, threshold_pos kind))),
          )
          unseen in
      (
        t',
        found',
        subst (λ m. IsAbsent (tombstone_threshold kind) (length pages) m t.enabled t') (omega arith)
            (subst
              (λ n. IsAbsent (tombstone_threshold kind) n (published_pages pages + 0) t.enabled t')
              (omega arith) a),
      )

-- A page that lists a child makes it active and enabled and forgets its absences, whatever state it
-- was in; one that was tombstoned is due at once and no longer tombstoned.
pub listed_child_is_active :
    (parent : TargetRef) (kind : SnapshotKind) (key : String) (keys : List String)
    (version now id : ℕ) (ts : List Target) (t : Target)
    → find_target id ts ≡ some t
    → is_child parent kind key t.ref ≡ true
    → any_key t.ref.resource_key keys ≡ true
    → (t' : Target) × (find_target id (reconcile_rows parent kind key keys version now ts)
        ≡ some t')
      × (t'.lifecycle_state ≡ active)
      × (t'.enabled ≡ true)
      × (t'.consecutive_missing_count ≡ 0)
      × (t'.last_seen_parent_version ≡ some version)
      × (t.lifecycle_state ≡ tombstoned
          → (t'.next_run_at ≡ now) × (t'.tombstoned_at ≡ none) × (t'.reactivated_at ≡ some now))
unfolding activate_row
listed_child_is_active parent kind key keys version now id ts t found child listed = (
  activate_row version now t,
  find_reconciled parent kind key keys version now id ts t found child ∙ rw listed refl,
  refl,
  refl,
  refl,
  refl,
  (λ dead. (ground arith, ground arith, ground arith)),
)
