-- ===== src/Accounts/Errors/Read.antt =====
-- The errors of the API at the dashboard's client.
use chis.Base.{
  ℕ, String, ◌≡◌, refl, ap, ◌∙◌, ◌≤◌, ◌==◌, arith, if◌then◌else◌, Bool, true, false, Option, none,
  some, List,
}
use chis.Net.{
  FieldError, ApiRequestError, api_request_error, api_error, Settled, rejected, Body, json,
  Response, answered, settle,
}
use chis.Net.Laws.{settle-refused}
use chis.Accounts.Validation.{format_errors, validation_failed}
use chis.Accounts.Errors.{HandlerError, app_error, postgres, invalid, other, from_postgres, wrap}

-- The code of an AppError is one of an error.
abbrev pub IsFailing : HandlerError → Type 0
IsFailing (app_error code message) = 400 ≤ code
IsFailing (postgres code) = Unit
IsFailing (invalid ps) = Unit
IsFailing other = Unit

least : (b : Bool) (p q : ℕ × String) → 400 ≤ p.0 → 400 ≤ q.0 → 400 ≤ (if b then p else q).0
least true p q h k = h
least false p q h k = k

from_postgres-failing : (code : String) → 400 ≤ (from_postgres code).0
unfolding from_postgres
from_postgres-failing code = least (code == "23505") _ _ (omega arith) (
    least (code == "23503") _ _ (omega arith) (
      least (code == "23502") _ _ (omega arith) (
        least (code == "23514") _ _ (omega arith) (
          least (code == "22P02") _ _ (omega arith) (
            least (code == "22003") _ _ (omega arith) (
              least (code == "22001") _ _ (omega arith) (
                least (code == "40001") _ _ (omega arith) (
                  least (code == "40P01") _ _ (omega arith) (
                    least (code == "42501") _ _ (omega arith)
                      (least (code == "28000") _ _ (omega arith) (omega arith)))))))))))

wrap-failing :
    (to_lower : String → String) (path timestamp : String) (e : HandlerError)
    → IsFailing e
    → 400 ≤ (wrap to_lower path timestamp e).0
unfolding wrap
wrap-failing to_lower path timestamp (app_error code message) h = h
wrap-failing to_lower path timestamp (postgres code) h = from_postgres-failing code
wrap-failing to_lower path timestamp (invalid ps) h = omega arith
wrap-failing to_lower path timestamp other h = omega arith

module _ {A : Type 0} (no_content : A) (payload : Body A) (to_lower : String → String)
    (path timestamp : String) where
  -- How the client's promise settles for the answer to an error of a handler.
  abbrev pub settled_for : HandlerError → Settled A
  settled_for e =
      let w = wrap to_lower path timestamp e in
      settle no_content
        (answered (record { status = w.0; payload = payload; error_body = json w.1 }))

  pub settle-wrap :
      (e : HandlerError)
      → IsFailing e
      → let w = wrap to_lower path timestamp e in
        settled_for e ≡ rejected (api_error (api_request_error w.0 w.1))
  settle-wrap e h =
      let w = wrap to_lower path timestamp e in
      let r : Response A = record { status = w.0; payload = payload; error_body = json w.1 } in
      let high = wrap-failing to_lower path timestamp e h in
      settle-refused no_content r w.1 (λ k. omega (arith, high, k.1)) refl

  -- The client's error for what a handler means to tell.
  abbrev told : ℕ → String → Option (List FieldError) → ApiRequestError
  told status message details = record {
    name = "ApiRequestError";
    message = message;
    status = status;
    path = path;
    timestamp = timestamp;
    details = details;
  }

  abbrev pub told_of : HandlerError → ApiRequestError
  told_of (app_error code message) = told code message none
  told_of (postgres code) = told (from_postgres code).0 (from_postgres code).1 none
  told_of (invalid ps) = told 422 "Validation failed" (some (format_errors to_lower ps))
  told_of other = told 500 "Internal server error" none

  meant :
      (e : HandlerError)
      → let w = wrap to_lower path timestamp e in api_request_error w.0 w.1 ≡ told_of e
  unfolding wrap api_request_error validation_failed
  meant (app_error code message) = refl
  meant (postgres code) = refl
  meant (invalid ps) = refl
  meant other = refl

  -- Whatever error a handler returns, an AppError's code being that of an error, the client rejects the
  -- request with an ApiRequestError of the request's path and time and the error's own status, message
  -- and details: an AppError's code and message, those that FromPostgres has for an error of Postgres,
  -- 422 and the fields' errors for what the validator reports, and 500 for any other.
  pub settle-told_of :
      (e : HandlerError) → IsFailing e → settled_for e ≡ rejected (api_error (told_of e))
  settle-told_of e h = settle-wrap e h ∙ ap (λ x. rejected (api_error x)) (meant e)
