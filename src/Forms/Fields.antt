-- ===== src/Forms/Fields.antt =====
-- What the two forms share: how a rejected request is shown, and what they do outside their state.
use chis.Base.{String, Option, none, some, List, [], ◌∷◌, truthy, ◌==◌}
use chis.Base.Array
use chis.Net.{FieldError, Failure, api_error, other_error, not_error}
use chis.Api.Types.{AuthUser}
use chis.View.{View, text, banner, input, when}

pub data Effect : Type 0 where
  set_auth : String → AuthUser → Effect
  navigate_replace : String → Effect

-- fieldErrors.find((e) => e.field === field)?.message
unfoldable pub message : Option FieldError → Option String
message none = none
message (some e) = some e.message

unfoldable pub get_field_error : List FieldError → String → Option String
unfolding message
get_field_error errors field = message (Array.find (λ e. e.field == field) errors)

-- What `if (err.details) setFieldErrors(err.details)` sets, if anything.
abbrev pub details_of : Failure → Option (List FieldError)
details_of (api_error e) = e.details
details_of (other_error _) = none
details_of not_error = none

-- An error, of the form or of a field: nothing for a text that is empty.
abbrev pub error_view : {E : Type 0} → Option String → View E
error_view none = []
error_view (some m) = when (truthy m) (banner m ∷ [])

-- A `Field`: its label, its input with placeholder, value and change, and the error of its name.
unfoldable pub field :
    {E : Type 0} → String → String → String → (String → E) → String → List FieldError → View E
field label placeholder value change name errors =
    text label ∷ input placeholder value change ∷ error_view (get_field_error errors name)
