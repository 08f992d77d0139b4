-- ===== src/Api/Invitations.antt =====
-- web/src/features/dashboard/api/invitation-api.ts
use chis.Base.{String, none, some, true}
use chis.Base.Text.{concat}
use chis.Net.{ApiRequestOptions, get, post, delete}
use chis.Api.Types.{CreateInvitationRequest}
use chis.Api.Dashboard.{NoBody}

unfoldable pub fetch_invitations : ApiRequestOptions NoBody
fetch_invitations = record { method = get; path = "/api/invitations/"; body = none; auth = true }

unfoldable pub create_invitation :
    CreateInvitationRequest → ApiRequestOptions CreateInvitationRequest
create_invitation r = record {
  method = post;
  path = "/api/invitations/";
  body = some r;
  auth = true;
}

unfoldable pub cancel_invitation : String → ApiRequestOptions NoBody
cancel_invitation id = record {
  method = delete;
  path = concat "/api/invitations/" id;
  body = none;
  auth = true;
}

-- `{ token }`
pub record AcceptBody : Type 0 where
  pub token : String

unfoldable pub accept_invitation : String → ApiRequestOptions AcceptBody
accept_invitation token = record {
  method = post;
  path = "/api/invitations/accept";
  body = some (record { token = token });
  auth = true;
}

unfoldable pub fetch_pending_invitations : ApiRequestOptions NoBody
fetch_pending_invitations = record {
  method = get;
  path = "/api/invitations/pending";
  body = none;
  auth = true;
}

pub data Action : Type 0 where
  accept decline : Action

-- `{ action }`
pub record RespondBody : Type 0 where
  pub action : Action

unfoldable pub respond_to_invitation : String → Action → ApiRequestOptions RespondBody
respond_to_invitation id action = record {
  method = post;
  path = concat "/api/invitations/" (concat id "/respond");
  body = some (record { action = action });
  auth = true;
}
