-- ===== src/Errors.antt =====
-- app/internal/repository/errors.go and app/internal/service/errors.go.
-- An error value is a sentinel, a sentinel wrapped with a text, or an error of its own.
use strike_reserve.Base.{ℕ, ◌==◌, String, Bool, true, false, ◌||◌, str_eq, if◌then◌else◌}

-- What pgx reports: no row, an error of the server, or any other failure.
pub data DriverError : Type 0 where
  no_rows : DriverError
  pg_error : (code : String) → (detail : String) → (message : String) → DriverError
  other : String → DriverError

pub data RepositoryError : Type 0 where
  not_found conflict foreign_key validation internal no_rows_affected forbidden : RepositoryError

pub data ServiceError : Type 0 where
  not_found slot_not_existing slot_is_used forbidden token_is_invalid already_exists
        invalid_email_or_password lane_not_found :
      ServiceError

pub data Error : Type 0 where
  repository : RepositoryError → Error
  -- fmt.Errorf("%w: %s", sentinel, text)
  wrapped : RepositoryError → String → Error
  service : ServiceError → Error
  -- fmt.Errorf("no slots generated for schedule")
  no_slots : Error
  -- an error of a library, passed on as it is
  foreign : String → Error
  -- a nil pointer was read; this is no error value of Go, and no code handles it
  panic : Error

abbrev pub pg_unique_violation : String
pg_unique_violation = "23505"

abbrev pub pg_foreign_key_violation : String
pg_foreign_key_violation = "23503"

abbrev pub pg_check_violation : String
pg_check_violation = "23514"

abbrev pub pg_not_null_violation : String
pg_not_null_violation = "23502"

abbrev pub pg_exclusion_violation : String
pg_exclusion_violation = "23P01"

-- wrapDBError, at an error that is not nil. The text of an unhandled code leaves out the code.
unfoldable pub wrap_db_error : DriverError → Error
wrap_db_error no_rows = repository not_found
wrap_db_error (pg_error code detail message) =
    if str_eq code pg_unique_violation || str_eq code pg_exclusion_violation
    then wrapped conflict detail
    else if str_eq code pg_foreign_key_violation
    then wrapped foreign_key detail
    else if str_eq code pg_check_violation || str_eq code pg_not_null_violation
    then wrapped validation message
    else wrapped internal message
wrap_db_error (other text) = wrapped internal text

abbrev pub is_not_found_kind : RepositoryError → Bool
is_not_found_kind not_found = true
is_not_found_kind _ = false

abbrev pub is_conflict_kind : RepositoryError → Bool
is_conflict_kind conflict = true
is_conflict_kind _ = false

-- errors.Is(err, repository.ErrNotFound)
abbrev pub is_not_found : Error → Bool
is_not_found (repository k) = is_not_found_kind k
is_not_found (wrapped k text) = is_not_found_kind k
is_not_found _ = false

-- errors.Is(err, repository.ErrConflict)
abbrev pub is_conflict : Error → Bool
is_conflict (repository k) = is_conflict_kind k
is_conflict (wrapped k text) = is_conflict_kind k
is_conflict _ = false

abbrev service_number : ServiceError → ℕ
service_number not_found = 0
service_number slot_not_existing = 1
service_number slot_is_used = 2
service_number forbidden = 3
service_number token_is_invalid = 4
service_number already_exists = 5
service_number invalid_email_or_password = 6
service_number lane_not_found = 7

-- errors.Is(err, k) for an error k of the services
abbrev pub is_service : ServiceError → Error → Bool
is_service k (service j) = service_number k == service_number j
is_service k _ = false
