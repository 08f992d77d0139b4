-- ===== src/Forms/Login.antt =====
-- web/src/features/auth/hooks/use-login.ts
use chis.Base.{String, Bool, true, false, Option, none, some, List, [], ◌∷◌, truthy?, if◌then◌else◌}
use chis.Base.Text.{concat}
use chis.Net.{FieldError, Settled, fulfilled, rejected}
use chis.Api.Types.{LoginRequest, LoginResponse}
use chis.Hooks.Message.{message_of}
use chis.Forms.Fields.{Effect, set_auth, navigate_replace, details_of}

pub record LoginState : Type 0 where
  pub email : String
  pub password : String
  pub error : Option String
  pub field_errors : List FieldError
  pub is_loading : Bool

abbrev pub initial : LoginState
initial = record { email = ""; password = ""; error = none; field_errors = []; is_loading = false }

unfoldable pub submit_begin : LoginState → LoginState
submit_begin s = record s { error = none; field_errors = []; is_loading = true }

-- The body of the request.
abbrev pub credentials : LoginState → LoginRequest
credentials s = record { email = s.email; password = s.password }

-- searchParams.get("redirect") || "/dashboard"
abbrev pub destination : Option String → String
destination none = "/dashboard"
destination (some to) = if truthy? (some to) then to else "/dashboard"

-- The continuation; `email` is the one that was submitted, and `redirect` the query's parameter.
unfoldable pub submit_settled :
    String → Option String → Settled LoginResponse → LoginState → LoginState × List Effect
submit_settled email redirect (fulfilled response) s = (
  record s { is_loading = false },
  set_auth response.token (record { id = ""; email = email; first_name = "" })
      ∷ navigate_replace (destination redirect)
      ∷ [],
)
submit_settled email redirect (rejected e) s = (
  record s {
    error = some (message_of e);
    field_errors = elim (details_of e) [ none ↦ s.field_errors | some errors ↦ errors ];
    is_loading = false;
  },
  [],
)

-- The link to the registration.
unfoldable pub register_link : (String → String) → Option String → String
register_link encode none = "/register"
register_link encode (some to) =
    if truthy? (some to) then concat "/register?redirect=" (encode to) else "/register"
