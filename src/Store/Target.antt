-- ===== src/Store/Target.antt =====
-- The row of `scrape_targets` as internal/db/snapshot_repository.go reads and writes it, and UPDATE.
-- Timestamps are nanoseconds, the four intervals are seconds. `updated_at` is left out.
use classroom.Base.{
  ℕ, Bool, false, ◌||◌, String, Option, none, some, List, [], ◌∷◌, ◌++◌, ◌==◌, if◌then◌else◌, ◌≡◌,
  refl, arith,
}
use classroom.Domain.Snapshot.{TargetRef, DataQuality}

pub data LifecycleState : Type 0 where
  active missing tombstoned : LifecycleState

pub record Target : Type 0 where
  pub id : ℕ
  pub ref : TargetRef
  pub attributes : String
  pub priority : ℕ
  pub missing_count : ℕ
  pub current_snapshot_id : Option ℕ
  pub current_version : ℕ
  pub validation_seq : ℕ
  pub current_content_hash : Option String
  pub current_interval : ℕ
  pub min_interval : ℕ
  pub max_interval : ℕ
  pub max_serve_age : ℕ
  pub next_run_at : ℕ
  pub last_attempt_at : Option ℕ
  pub last_validated_at : Option ℕ
  pub last_content_change_at : Option ℕ
  pub consecutive_failures : ℕ
  pub recent_changes : List Bool
  pub etag : Option String
  pub last_modified : Option String
  pub cache_control : Option String
  pub previous_record_count : ℕ
  pub quality_state : DataQuality
  pub last_rejection_code : Option String
  pub current_parser_version : Option String
  pub lease_owner : Option String
  pub lease_generation : ℕ
  pub lease_expires_at : Option ℕ
  pub enabled : Bool
  pub lifecycle_state : LifecycleState
  pub last_seen_parent_version : Option ℕ
  pub consecutive_missing_count : ℕ
  pub tombstoned_at : Option ℕ
  pub reactivated_at : Option ℕ

-- UPDATE ... SET f WHERE p.
unfoldable pub update_where : (Target → Bool) → (Target → Target) → List Target → List Target
update_where p f [] = []
update_where p f (t ∷ ts) = (if p t then f t else t) ∷ update_where p f ts

-- `RowsAffected() != 0` for such a statement.
unfoldable pub any_row : (Target → Bool) → List Target → Bool
any_row p [] = false
any_row p (t ∷ ts) = p t || any_row p ts

-- SELECT ... WHERE id = k, of the primary key.
unfoldable pub find_target : ℕ → List Target → Option Target
find_target k [] = none
find_target k (t ∷ ts) = if t.id == k then some t else find_target k ts

-- The row of a key after an UPDATE that keeps the keys.
pub find_target-update_where :
    (p : Target → Bool) (f : Target → Target) (k : ℕ) (ts : List Target)
    → ((t : Target) → (f t).id ≡ t.id)
    → find_target k (update_where p f ts)
      ≡ elim (find_target k ts) [ none ↦ none | some t ↦ some (if p t then f t else t) ]
unfolding find_target update_where
find_target-update_where p f k [] keeps = refl
find_target-update_where p f k (t ∷ ts) keeps =
    ground (arith, keeps t, find_target-update_where p f k ts keeps)

pub find_target-append :
    (k : ℕ) (ts us : List Target) (t : Target)
    → find_target k ts ≡ some t
    → find_target k (ts ++ us) ≡ some t
unfolding find_target
find_target-append k [] us t h = cc
find_target-append k (x ∷ ts) us t h = ground (arith, find_target-append k ts us t)

-- An UPDATE of no row changes no row.
pub update_where_none :
    (p : Target → Bool) (f : Target → Target) (ts : List Target)
    → any_row p ts ≡ false
    → update_where p f ts ≡ ts
unfolding any_row update_where
update_where_none p f [] h = refl
update_where_none p f (t ∷ ts) h = ground (arith, update_where_none p f ts)
