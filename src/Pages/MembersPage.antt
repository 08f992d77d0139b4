-- ===== src/Pages/MembersPage.antt =====
-- web/src/features/dashboard/pages/members-page.tsx. `date` is `new Date(t).toLocaleDateString()`.
pub mod Pending
use chis.Base.{
  String, Bool, true, false, not, ◌||◌, Option, none, some, List, [], ◌∷◌, ◌++◌, ◌==◌, truthy,
  if◌then◌else◌,
}
use chis.Base.Text.{concat, trim}
use chis.Api.Types.{Invitation, CreateInvitationRequest}
use chis.Hooks.Invitations.{InvitationsState}
use chis.View.{
  View, Widget, heading, text, banner, skeleton, badge, input, button, confirm, when, each,
}

pub record MembersPageState : Type 0 where
  pub hook : InvitationsState
  pub open hook use *
  pub email : String

pub data MembersAction : Type 0 where
  set_email : String → MembersAction
  submit : MembersAction
  cancel_inv : String → MembersAction

-- What the input sets.
unfoldable pub typed : MembersAction → MembersPageState → MembersPageState
typed (set_email v) s = record s { email = v }
typed _ s = s

unfoldable pub status_variant : String → String
status_variant status =
    if status == "accepted"
    then "secondary"
    else if status == "expired" || status == "cancelled"
    then "outline"
    else "default"

-- `handleSend`: the address that `sendInvitation` is called with, if it is.
unfoldable pub handle_send : MembersPageState → Option CreateInvitationRequest
handle_send s = if not (truthy (trim s.email)) then none else some (record { email = trim s.email })

-- `handleSend` after `sendInvitation`, which never throws.
unfoldable pub sent : MembersPageState → MembersPageState
sent s = record s { email = "" }

invitation_row : (String → String) → Invitation → View MembersAction
unfolding status_variant
invitation_row date inv =
    text inv.email
    ∷ text (concat "Invited " (date inv.created_at))
    ∷ badge (status_variant inv.status) inv.status
    ∷ when (inv.status == "pending")
        (confirm "Cancel invitation" "Cancel invitation" (cancel_inv inv.id) ∷ [])

invitation_list : (String → String) → List Invitation → View MembersAction
unfolding invitation_row
invitation_list date [] = text "No invitations yet" ∷ text "Invite teammates by email above." ∷ []
invitation_list date (i ∷ is) = each (invitation_row date) (i ∷ is)

error_banner : Option String → View MembersAction
error_banner none = []
error_banner (some e) = when (truthy e) (banner e ∷ [])

unfoldable pub view : (String → String) → MembersPageState → View MembersAction
unfolding invitation_list error_banner
view date s =
    heading "Members"
      ∷ text "Invite people to your organization and manage pending invitations."
      ∷ error_banner s.error
    ++ input "Email address" s.email set_email
      ∷ button "Send invite" (s.is_sending || not (truthy (trim s.email))) submit
      ∷ (if s.is_loading
          then skeleton ∷ skeleton ∷ skeleton ∷ []
          else invitation_list date s.invitations)
