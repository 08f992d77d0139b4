-- ===== src/Accounts/Errors.antt =====
-- The errors of the handlers as answers: Wrap of pkg/apperror/errorhandler.go, FromPostgres of
-- pkg/apperror/postgres.go and the constructors of pkg/apperror/errors.go. `to_lower` is
-- strings.ToLower.
pub mod Read
use chis.Base.{ℕ, String, Option, none, some, List, [], ◌==◌, if◌then◌else◌}
use chis.Net.{ApiErrorBody}
use chis.Accounts.Validation.{Problem, validation_failed}

-- What a handler returns: an AppError with its code, Postgres's error with its code, the validator's
-- errors, or another error.
pub data HandlerError : Type 0 where
  app_error : ℕ → String → HandlerError
  postgres : String → HandlerError
  invalid : List Problem → HandlerError
  other : HandlerError

unfoldable pub from_postgres : String → ℕ × String
from_postgres code =
    if code == "23505"
    then (409, "Resource already exists.")
    else if code == "23503"
    then (400, "Invalid reference.")
    else if code == "23502"
    then (400, "Required field is missing.")
    else if code == "23514"
    then (400, "Data validation failed.")
    else if code == "22P02"
    then (400, "Invalid input format.")
    else if code == "22003"
    then (400, "Numeric value out of range.")
    else if code == "22001"
    then (400, "Input exceeds maximum length.")
    else if code == "40001"
    then (503, "Database is busy, please try again later.")
    else if code == "40P01"
    then (503, "Database is busy, please try again later.")
    else if code == "42501"
    then (403, "Database permission denied.")
    else if code == "28000"
    then (401, "Invalid database credentials.")
    else (500, "Database error occurred.")

module _ (to_lower : String → String) (path timestamp : String) where
  -- An AppError without details
  abbrev pub plain : String → ApiErrorBody
  plain message = record { message = message; path = path; timestamp = timestamp; details = none }

  -- The status and the body of the answer.
  unfoldable pub wrap : HandlerError → ℕ × ApiErrorBody
  wrap (app_error code message) = (code, plain message)
  wrap (postgres code) = ((from_postgres code).0, plain (from_postgres code).1)
  wrap (invalid ps) = (422, validation_failed to_lower path timestamp ps)
  wrap other = (500, plain "Internal server error")
