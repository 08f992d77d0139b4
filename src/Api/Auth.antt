-- ===== src/Api/Auth.antt =====
-- web/src/features/auth/api/auth-api.ts
use chis.Base.{false, some}
use chis.Net.{ApiRequestOptions, post}
use chis.Api.Types.{LoginRequest, RegisterRequest}

unfoldable pub login_user : LoginRequest → ApiRequestOptions LoginRequest
login_user credentials = record {
  method = post;
  path = "/auth/login";
  body = some credentials;
  auth = false;
}

unfoldable pub register_user : RegisterRequest → ApiRequestOptions RegisterRequest
register_user details = record {
  method = post;
  path = "/auth/register";
  body = some details;
  auth = false;
}
