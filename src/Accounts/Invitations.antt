-- ===== src/Accounts/Invitations.antt =====
-- The handlers of internal/handler/invitation.go for the admins, with the user and the organization
-- that the guards give them, and `is_id` for `uuid.Parse`. A body that DecodeAndValidate refuses is
-- `none`, and so is a token that is not generated.
pub mod Inviting
pub mod Accepted
use chis.Base.{
  ℕ, String, Bool, true, false, not, Option, none, some, List, [], ◌∷◌, map, ◌+◌, ◌==◌, ltb,
  if◌then◌else◌,
}
use chis.Base.Array
use chis.Access.{Membership, find_by_user_and_org_id}
use chis.Accounts.{
  Invitation, Status, pending, accepted, expired, cancelled, Tables, Answer, ok, refused,
  invalid_body, other_error, Calls, User, asked, Outcome,
}
use chis.Accounts.Queries.{
  find_by_email, find_user, insert_membership, insert_invitation, find_by_token, find_invitation,
  find_by_org_and_email, find_by_org_id, has_id, update_status, accept_row, delete_invitation,
  is_pending, PendingInvitation, find_pending_by_email, MembershipWithOrg, find_all_by_user_id,
}

pub record CreateInvitationRequest : Type 0 where
  pub email : String
  pub role : String

pub record InvitationResponse : Type 0 where
  pub id : String
  pub email : String
  pub role : String
  pub status : Status
  pub expires_at : ℕ

-- An invitation's e-mail, as EmailService.SendInvitation takes it.
pub record Mail : Type 0 where
  pub to : String
  pub org_name : String
  pub inviter_name : String
  pub token : String

abbrev pub found {ℓ} : {A : Type ℓ} → Option A → Bool
found none = false
found (some a) = true

abbrev pub response_of : Invitation → InvitationResponse
response_of i = record {
  id = i.id;
  email = i.email;
  role = i.role;
  status = i.status;
  expires_at = i.expires_at;
}

-- 7 * 24 * time.Hour
abbrev pub seven_days : ℕ
seven_days = 604800

abbrev pub role_or : String → String
role_or role = if role == "" then "member" else role

abbrev pub in_org : String → MembershipWithOrg → Bool
in_org org m = m.org_id == org

-- `FindAllByUserID`, whose error the handlers drop
abbrev pub memberships_of : Bool → String → Tables → List MembershipWithOrg
memberships_of up user t = if up then find_all_by_user_id user t.organizations t.memberships else []

module _ (up : Calls) where
  -- The invitee is a member of the organization.
  unfoldable pub is_member : String → String → Tables → Bool
  is_member org email t = elim (asked (up 0) (find_by_email email t.users)) [
    | none ↦ false
    | some u ↦ found (asked (up 1) (find_by_user_and_org_id u.id org t.memberships))
  ]

  inviter_name : String → Tables → String
  inviter_name user t = elim (asked (up 5) (find_user user t.users)) [
    | none ↦ "A team member"
    | some u ↦ u.first_name
  ]

  invited_to : String → String → Tables → String
  invited_to org user t = elim (Array.find (in_org org) (memberships_of (up 6) user t)) [
    | none ↦ "your organization"
    | some m ↦ m.org_name
  ]

  -- The e-mail that `CreateInvitation` sends after the invitation is stored, if there is an e-mail
  -- service; what becomes of it changes nothing.
  unfoldable pub mail_of :
      Bool → String → String → String → Outcome InvitationResponse → Option Mail
  unfolding inviter_name invited_to
  mail_of mails user org token (t, ok r) =
      if mails
      then some (record {
        to = r.email;
        org_name = invited_to org user t;
        inviter_name = inviter_name user t;
        token = token;
      })
      else none
  mail_of mails user org token (t, refused n m) = none
  mail_of mails user org token (t, invalid_body) = none
  mail_of mails user org token (t, other_error) = none

  -- From the insertion on.
  stored : Invitation → Tables → Outcome InvitationResponse
  stored inv t = elim (asked (up 4) (insert_invitation inv t.invitations)) [
    | none ↦ (t, refused 500 "failed to create invitation")
    | some rows ↦ (record t { invitations = rows }, ok (response_of inv))
  ]

  module _ (now : ℕ) (user org : String) (id : String) (token : Option String)
      (req : CreateInvitationRequest) where
    abbrev pub new_invitation : String → Invitation
    new_invitation tok = record {
      id = id;
      org_id = org;
      email = req.email;
      role = role_or req.role;
      token = tok;
      status = pending;
      invited_by = user;
      expires_at = now + seven_days;
      accepted_at = none;
    }

    -- From the token on.
    with_token : Tables → Outcome InvitationResponse
    unfolding stored
    with_token t = elim token [
      | none ↦ (t, refused 500 "failed to generate invitation token")
      | some tok ↦ stored (new_invitation tok) t
    ]

    removed : Invitation → Tables → Outcome InvitationResponse
    unfolding with_token
    removed inv t =
        if up 3
        then with_token (record t { invitations = delete_invitation inv.id t.invitations })
        else (t, refused 500 "failed to remove old invitation")

    -- An invitation of the organization to the email is there.
    replaced : Status → Invitation → Tables → Outcome InvitationResponse
    unfolding removed
    replaced pending inv t = (t, refused 409 "invitation already pending for this email")
    replaced accepted inv t = (t, refused 409 "user is already a member")
    replaced expired inv t = removed inv t
    replaced cancelled inv t = removed inv t

    invite : Tables → Outcome InvitationResponse
    unfolding with_token replaced
    invite t =
        if is_member org req.email t
        then (t, refused 409 "user is already a member of this organization")
        else if not (up 2)
        then (t, refused 500 "failed to check existing invitation")
        else elim (find_by_org_and_email org req.email t.invitations) [
          | none ↦ with_token t
          | some inv ↦ replaced inv.status inv t
        ]

  -- `CreateInvitation`, with the id that the row gets, the generated token and the body
  unfoldable pub create_invitation :
      ℕ
      → String
      → String
      → String
      → Option String
      → Option CreateInvitationRequest
      → Tables
      → Outcome InvitationResponse
  unfolding invite
  create_invitation now user org id token none t = (t, invalid_body)
  create_invitation now user org id token (some req) t = invite now user org id token req t

  unfoldable pub list_invitations : String → Tables → Answer (List InvitationResponse)
  list_invitations org t =
      if up 0
      then ok (map response_of (find_by_org_id org t.invitations))
      else refused 500 "failed to fetch invitations"

  unfoldable pub cancel_invitation : (String → Bool) → String → String → Tables → Outcome String
  cancel_invitation is_id org id t =
      if not (is_id id)
      then (t, refused 400 "invalid invitation ID")
      else if not (up 0)
      then (t, refused 500 "failed to fetch invitations")
      else if not (Array.any (has_id id) (find_by_org_id org t.invitations))
      then (t, refused 404 "invitation not found")
      else elim (asked (up 1) (update_status "cancelled" id t.invitations)) [
        | none ↦ (t, refused 500 "failed to cancel invitation")
        | some rows ↦ (record t { invitations = rows }, ok "invitation cancelled")
      ]
