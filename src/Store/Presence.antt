-- ===== src/Store/Presence.antt =====
-- Which children of a page are still listed: `applyChildPresence`, `tombstoneThresholdForChildKind` and
-- `ReconcileLifecycle` of internal/db/snapshot_repository.go.
use classroom.Base.{
  ℕ, ◌+◌, min, Bool, true, false, ◌||◌, ◌&&◌, not, String, Option, none, some, List, [], ◌∷◌, leb,
  str_eq, if◌then◌else◌,
}
use classroom.Domain.Snapshot.{
  SnapshotKind, course_catalog, course_detail, session_detail, kind_eq, TargetRef,
}
use classroom.Store.Target.{Target, LifecycleState, active, missing, tombstoned, update_where}
use classroom.Store.Seeds.{TargetSeed, SeedError, upsert_seeds}

-- The switch at the head of both: the kind of the children, and their parent key.
unfoldable pub children_of : TargetRef → Option (SnapshotKind × String)
children_of r = elim (r.kind) [
  | course_catalog ↦ some (course_detail, "")
  | course_detail ↦ some (session_detail, r.resource_key)
  | _ ↦ none
]

abbrev pub is_child : TargetRef → SnapshotKind → String → TargetRef → Bool
is_child parent kind key r =
    str_eq r.host parent.host && kind_eq r.kind kind && str_eq r.parent_key key

-- `seenKeys`.
unfoldable pub seen_keys : TargetRef → SnapshotKind → String → List TargetRef → List String
seen_keys parent kind key [] = []
seen_keys parent kind key (r ∷ rs) =
    let rest = seen_keys parent kind key rs in
    if is_child parent kind key r then r.resource_key ∷ rest else rest

-- `resource_key = ANY(keys)`.
unfoldable pub any_key : String → List String → Bool
any_key k [] = false
any_key k (x ∷ xs) = str_eq k x || any_key k xs

-- The SET of a child that is listed, and of one that is not, in `applyChildPresence`.
abbrev pub present_row : Target → Target
present_row t = record t { missing_count = 0; enabled = true }

abbrev pub absent_row : Target → Target
absent_row t = record t {
  missing_count = min 2 (t.missing_count + 1);
  enabled = if leb 1 t.missing_count then false else t.enabled;
}

-- `applyChildPresence`. The first UPDATE of no keys has no rows.
unfoldable pub apply_child_presence : TargetRef → List TargetRef → List Target → List Target
apply_child_presence parent seen ts = elim (children_of parent) [
  | none ↦ ts
  | some (kind, key) ↦
      let keys = seen_keys parent kind key seen in
      update_where (λ t. is_child parent kind key t.ref && not (any_key t.ref.resource_key keys))
        absent_row
        (update_where (λ t. is_child parent kind key t.ref && any_key t.ref.resource_key keys)
          present_row ts)
]

-- `tombstoneThresholdForChildKind`.
unfoldable pub tombstone_threshold : SnapshotKind → ℕ
tombstone_threshold session_detail = 2
tombstone_threshold course_detail = 3
tombstone_threshold _ = 3

abbrev pub is_tombstoned : LifecycleState → Bool
is_tombstoned tombstoned = true
is_tombstoned _ = false

-- The SET of a child that is listed, in `ReconcileLifecycle`, at the time `now`.
unfoldable pub activate_row : ℕ → ℕ → Target → Target
activate_row version now t =
    let back = is_tombstoned t.lifecycle_state in
    record t {
      lifecycle_state = active;
      last_seen_parent_version = some version;
      consecutive_missing_count = 0;
      reactivated_at = if back then some now else t.reactivated_at;
      tombstoned_at = if back then none else t.tombstoned_at;
      consecutive_failures = if back then 0 else t.consecutive_failures;
      next_run_at = if back then now else t.next_run_at;
      enabled = true;
    }

-- The SET of a child that is not listed.
unfoldable pub mark_missing_row : ℕ → ℕ → Target → Target
mark_missing_row threshold now t =
    let over = leb threshold (t.consecutive_missing_count + 1) in
    record t {
      lifecycle_state = if over then tombstoned else missing;
      consecutive_missing_count = t.consecutive_missing_count + 1;
      tombstoned_at = if over then some now else t.tombstoned_at;
      enabled = if over then false else t.enabled;
    }

-- The two UPDATEs of `ReconcileLifecycle`.
unfoldable pub reconcile_rows :
    TargetRef → SnapshotKind → String → List String → ℕ → ℕ → List Target → List Target
reconcile_rows parent kind key keys version now ts =
    update_where
      (λ t.
        is_child parent kind key t.ref
        && not (any_key t.ref.resource_key keys)
        && not (is_tombstoned t.lifecycle_state))
      (mark_missing_row (tombstone_threshold kind) now)
      (update_where (λ t. is_child parent kind key t.ref && any_key t.ref.resource_key keys)
        (activate_row version now) ts)

-- `ReconcileLifecycle`, of a parent with the given version, seeds and seen children.
unfoldable pub reconcile_lifecycle :
    (String → Bool)
    → (String → Bool)
    → TargetRef
    → ℕ
    → List TargetSeed
    → List TargetRef
    → ℕ
    → ℕ × List Target
    → (Option SeedError) × (ℕ × List Target)
reconcile_lifecycle blank valid_json parent version seeds seen now db = elim (children_of parent) [
  | none ↦ (none, db)
  | some (kind, key) ↦
      let (error, (fresh, ts)) = upsert_seeds blank valid_json seeds db in
      elim error [
        | some e ↦ (some e, db)
        | none ↦ (
          none,
          (fresh, reconcile_rows parent kind key (seen_keys parent kind key seen) version now ts),
        )
      ]
]
