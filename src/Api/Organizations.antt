-- ===== src/Api/Organizations.antt =====
-- web/src/features/dashboard/api/organization-api.ts
use chis.Base.{String, none, some, true}
use chis.Net.{ApiRequestOptions, get, post, delete}
use chis.Api.Types.{CreateOrganizationRequest}
use chis.Api.Dashboard.{NoBody}

unfoldable pub fetch_organizations : ApiRequestOptions NoBody
fetch_organizations = record { method = get; path = "/api/orgs"; body = none; auth = true }

unfoldable pub create_organization :
    CreateOrganizationRequest → ApiRequestOptions CreateOrganizationRequest
create_organization r = record { method = post; path = "/api/orgs"; body = some r; auth = true }

-- `{ name }`
pub record DeleteBody : Type 0 where
  pub name : String

unfoldable pub delete_organization : String → ApiRequestOptions DeleteBody
delete_organization name = record {
  method = delete;
  path = "/api/org";
  body = some (record { name = name });
  auth = true;
}

unfoldable pub get_signing_secret : ApiRequestOptions NoBody
get_signing_secret = record {
  method = get;
  path = "/api/org/signing-secret";
  body = none;
  auth = true;
}

unfoldable pub rotate_signing_secret : ApiRequestOptions NoBody
rotate_signing_secret = record {
  method = post;
  path = "/api/org/signing-secret/rotate";
  body = none;
  auth = true;
}
