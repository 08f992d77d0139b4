-- ===== src/Accounts/Validation.antt =====
-- FormatErrors of pkg/validator/validator.go, over the errors that the library's validator reports,
-- and the answer of pkg/apperror's Wrap. `to_lower` is strings.ToLower.
pub mod Shown
use chis.Base.{String, List, [], ◌∷◌, map, ◌==◌, if◌then◌else◌, some}
use chis.Base.Text.{concat}
use chis.Net.{FieldError, ApiErrorBody}

-- A validator.FieldError: the name of the struct's field, the tag that failed and its parameter.
pub record Problem : Type 0 where
  pub field : String
  pub tag : String
  pub param : String

-- The message for a field's name in lower case.
unfoldable pub message_for : String → Problem → String
message_for field p =
    if p.tag == "required"
    then concat field " is required"
    else if p.tag == "email"
    then concat field " must be a valid email"
    else if p.tag == "min"
    then concat field (concat " must be at least " (concat p.param " characters"))
    else if p.tag == "max"
    then concat field (concat " must be at most " (concat p.param " characters"))
    else if p.tag == "gte"
    then concat field (concat " must be greater than or equal to " p.param)
    else if p.tag == "lte"
    then concat field (concat " must be less than or equal to " p.param)
    else if p.tag == "oneof"
    then concat field (concat " must be one of: " p.param)
    else if p.tag == "uuid"
    then concat field " must be a valid UUID"
    else if p.tag == "url"
    then concat field " must be a valid URL"
    else concat field " is invalid"

abbrev pub field_error : (String → String) → Problem → FieldError
field_error to_lower p =
    let field = to_lower p.field in record { field = field; message = message_for field p }

unfoldable pub format_errors : (String → String) → List Problem → List FieldError
format_errors to_lower ps = map (field_error to_lower) ps

-- ValidationFailed, with the request's path and time
unfoldable pub validation_failed : (String → String) → String → String → List Problem → ApiErrorBody
validation_failed to_lower path timestamp ps = record {
  message = "Validation failed";
  path = path;
  timestamp = timestamp;
  details = some (format_errors to_lower ps);
}
