-- ===== src/Domain/Classroom.antt =====
-- internal/domain/classroom.go and the profiles of internal/domain/dashboard.go: what a page of the
-- upstream site holds. Fields that no rule reads are left out.
use classroom.Base.{ℕ, Bool, true, false, String, Option, List, str_eq, if◌then◌else◌}
use classroom.Domain.Snapshot.{SessionStatus, active, done, not_started, auth_error, unknown}

-- `SessionStatus` is a string in Go; every string but four is `unknown`.
unfoldable pub session_status : String → SessionStatus
session_status s =
    if str_eq s "active"
    then active
    else if str_eq s "done"
    then done
    else if str_eq s "not_started"
    then not_started
    else if str_eq s "auth_error"
    then auth_error
    else unknown s

-- `GetSessionStatus` succeeds.
unfoldable pub known_session_status : String → Bool
unfolding session_status
known_session_status s = elim (session_status s) [ unknown t ↦ false | _ ↦ true ]

pub record CourseSummary : Type 0 where
  pub course_id : String
  pub name : String
  pub status : String

pub record SessionSummary : Type 0 where
  pub session_id : String
  pub session_number : ℕ
  pub name : String
  pub date : String
  pub status : String

pub record CourseDetail : Type 0 where
  pub course_id : String
  pub sessions : List SessionSummary

pub record StudentCheckin : Type 0 where
  pub student_id : String
  pub name : String
  pub checked_in : Bool
  pub checked_in_at : Option String

pub record SessionDetail : Type 0 where
  pub session_id : String
  pub checked_in_count : ℕ
  pub students : List StudentCheckin
  pub qr_expires_at : Option String

pub record StudentProfile : Type 0 where
  pub student_id : String
  pub student_guid : String
  pub full_name : String
