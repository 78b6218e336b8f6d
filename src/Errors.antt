-- ===== src/Errors.antt =====
-- backend/src/utils/AppError.ts: the errors that the services throw, and the one error of the
-- database client that they let through.
use wall_e_campus_assistant.Prelude.{ℕ, String, Option, none, some}

pub record AppError : Type 0 where
  pub message : String
  pub status_code : ℕ
  pub retry_after_seconds : Option ℕ
  pub code : String

-- P2002: a unique constraint refused a row.
pub data Failure : Type 0 where
  thrown : AppError → Failure
  unique_violation : Failure

abbrev pub app_error : String → ℕ → String → AppError
app_error message status_code code = record {
  message = message;
  status_code = status_code;
  retry_after_seconds = none;
  code = code;
}

abbrev pub bad_request : String → Failure
bad_request message = thrown (app_error message 400 "BAD_REQUEST")

abbrev pub forbidden : String → Failure
forbidden message = thrown (app_error message 403 "FORBIDDEN")

abbrev pub not_found : String → Failure
not_found message = thrown (app_error message 404 "NOT_FOUND")

abbrev pub conflict : String → Failure
conflict message = thrown (app_error message 409 "CONFLICT")

abbrev pub too_many_requests : String → ℕ → String → Failure
too_many_requests message retry_after code = thrown (record {
  message = message;
  status_code = 429;
  retry_after_seconds = some retry_after;
  code = code;
})

abbrev pub unauthorized : String → Failure
unauthorized message = thrown (app_error message 401 "UNAUTHORIZED")
