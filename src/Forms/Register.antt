-- ===== src/Forms/Register.antt =====
-- web/src/features/auth/hooks/use-register.ts
use chis.Base.{String, Bool, true, false, Option, none, some, List, [], ◌∷◌, truthy?, if◌then◌else◌}
use chis.Base.Text.{concat}
use chis.Net.{FieldError, Settled, fulfilled, rejected}
use chis.Api.Types.{RegisterRequest, RegisterResponse}
use chis.Hooks.Message.{message_of}
use chis.Forms.Fields.{Effect, navigate_replace, details_of}

pub record RegisterState : Type 0 where
  pub first_name : String
  pub last_name : String
  pub email : String
  pub password : String
  pub error : Option String
  pub field_errors : List FieldError
  pub is_loading : Bool

abbrev pub initial : RegisterState
initial = record {
  first_name = "";
  last_name = "";
  email = "";
  password = "";
  error = none;
  field_errors = [];
  is_loading = false;
}

unfoldable pub submit_begin : RegisterState → RegisterState
submit_begin s = record s { error = none; field_errors = []; is_loading = true }

-- The body of the request.
abbrev pub details : RegisterState → RegisterRequest
details s = record {
  email = s.email;
  password = s.password;
  first_name = s.first_name;
  last_name = s.last_name;
}

-- The login page, with the redirect that it is to take; it is the link on the form too.
unfoldable pub login_link : (String → String) → Option String → String
login_link encode none = "/login"
login_link encode (some to) =
    if truthy? (some to) then concat "/login?redirect=" (encode to) else "/login"

unfoldable pub submit_settled :
    (String → String)
    → Option String
    → Settled RegisterResponse
    → RegisterState
    → RegisterState × List Effect
unfolding login_link
submit_settled encode redirect (fulfilled _) s =
    (record s { is_loading = false }, navigate_replace (login_link encode redirect) ∷ [])
submit_settled encode redirect (rejected e) s = (
  record s {
    error = some (message_of e);
    field_errors = elim (details_of e) [ none ↦ s.field_errors | some errors ↦ errors ];
    is_loading = false;
  },
  [],
)
