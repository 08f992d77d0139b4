-- ===== src/Pages/AcceptInvitePage.antt =====
-- web/src/features/invite/accept-invite-page.tsx. The page works on the state of the context of
-- organizations, which its effect adds to.
pub mod Joining
use chis.Base.{
  String, Bool, true, false, not, Option, none, some, List, [], ◌∷◌, ◌≡◌, refl, truthy?,
  if◌then◌else◌,
}
use chis.Base.Text.{concat}
use chis.Net.{Settled, fulfilled, rejected}
use chis.Effect.{Loader}
use chis.Hooks.Message.{message_of}
use chis.Api.Types.{AcceptInvitationResponse, Organization}
use chis.Orgs.{OrgState, add_org}
use chis.View.{View, Widget, heading, text, link}

pub record AcceptState : Type 0 where
  pub orgs : OrgState
  pub open orgs use *
  pub is_loading : Bool
  pub result : Option AcceptInvitationResponse
  pub error : Option String

abbrev pub initial : OrgState → AcceptState
initial orgs = record { orgs = orgs; is_loading = false; result = none; error = none }

abbrev pub joined : AcceptInvitationResponse → Organization
joined data_ = record {
  id = data_.org_id;
  name = data_.org_name;
  slug = data_.org_slug;
  role = data_.role;
}

unfoldable pub accept_begin : AcceptState → AcceptState
accept_begin s = record s { is_loading = true; error = none }

accept_outcome : Bool → Settled AcceptInvitationResponse → AcceptState → AcceptState
accept_outcome cancelled (fulfilled data_) s =
    if not cancelled
    then record s { result = some data_; orgs = add_org (joined data_) s.orgs }
    else s
accept_outcome cancelled (rejected e) s =
    if not cancelled then record s { error = some (message_of e) } else s

-- `finally`
accept_finally : Bool → AcceptState → AcceptState
accept_finally cancelled s = if not cancelled then record s { is_loading = false } else s

unfoldable pub accept_settled : Bool → Settled AcceptInvitationResponse → AcceptState → AcceptState
unfolding accept_outcome accept_finally
accept_settled cancelled r s = accept_finally cancelled (accept_outcome cancelled r s)

pub accept_stale :
    (r : Settled AcceptInvitationResponse) (s : AcceptState) → accept_settled true r s ≡ s
unfolding accept_settled
accept_stale (fulfilled _) s = refl
accept_stale (rejected _) s = refl

-- The effect of the page; without a token it does nothing.
abbrev pub loader : Loader AcceptState AcceptInvitationResponse
loader = record {
  absent = λ s. s;
  begin = accept_begin;
  finish = accept_settled;
  stale = accept_stale;
}

abbrev pub to_dashboard : View Unit
to_dashboard = link "Go to dashboard" "/dashboard" ∷ []

error_card : String → View Unit
error_card e = heading "Invitation failed" ∷ text e ∷ to_dashboard

result_card : Option AcceptInvitationResponse → View Unit
result_card none = []
result_card (some r) =
    heading "You're in!"
    ∷ text (concat "You've joined " (concat r.org_name (concat " as a " (concat r.role "."))))
    ∷ to_dashboard

result_or_error : Option String → Option AcceptInvitationResponse → View Unit
unfolding error_card result_card
result_or_error none r = result_card r
result_or_error (some e) r = if truthy? (some e) then error_card e else result_card r

-- What the page shows for a token.
unfoldable pub view : Option String → AcceptState → View Unit
unfolding result_or_error
view token s =
    if not (truthy? token)
    then heading "Invalid invitation"
      ∷ text "This invitation link is invalid or missing a token."
      ∷ to_dashboard
    else if s.is_loading
    then heading "Accepting invitation..."
      ∷ text "Please wait while we process your invitation."
      ∷ []
    else result_or_error s.error s.result
