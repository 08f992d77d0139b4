-- ===== src/Accounts/Answers.antt =====
-- The handlers of internal/handler/invitation.go for the invited user, whom the guard gives them;
-- `is_id` stands for `uuid.Parse`. A body that DecodeAndValidate refuses is `none`.
pub mod Joining
pub mod Responding
pub mod Declining
pub mod Retried
pub mod Entered
pub mod Listed
use chis.Base.{
  ℕ, String, Bool, true, false, not, Option, none, some, List, [], ◌∷◌, map, ◌+◌, ◌==◌, ltb,
  if◌then◌else◌,
}
use chis.Base.Array
use chis.Access.{Membership, find_by_user_and_org_id}
use chis.Accounts.{
  Invitation, Status, pending, accepted, expired, cancelled, Tables, Answer, ok, refused,
  invalid_body, other_error, Calls, User, asked, Outcome,
}
use chis.Accounts.Queries.{
  find_by_email, find_user, insert_membership, insert_invitation, find_by_token, find_invitation,
  find_by_org_and_email, find_by_org_id, has_id, update_status, accept_row, delete_invitation,
  is_pending, PendingInvitation, find_pending_by_email, MembershipWithOrg, find_all_by_user_id,
}
use chis.Accounts.Invitations.{found, in_org, memberships_of}

-- What a user that joins is answered.
pub record Joined : Type 0 where
  pub org_id : String
  pub org_name : String
  pub org_slug : String
  pub role : String

pub data Action : Type 0 where
  accept decline : Action

abbrev pub is_decline : Action → Bool
is_decline accept = false
is_decline decline = true

pub data Responded : Type 0 where
  joins : Joined → Responded
  left : Responded

abbrev with_joined : Outcome Joined → Outcome Responded
with_joined (t, ok j) = (t, ok (joins j))
with_joined (t, refused n m) = (t, refused n m)
with_joined (t, invalid_body) = (t, invalid_body)
with_joined (t, other_error) = (t, other_error)

-- `UpdateStatus` of an invitation, whose error the handlers drop
abbrev pub set_status_of : Bool → String → String → Tables → Tables
set_status_of b text id t = elim (asked b (update_status text id t.invitations)) [
  | none ↦ t
  | some rows ↦ record t { invitations = rows }
]

abbrev pub membership_for : String → Invitation → Membership
membership_for user inv = record { user_id = user; org_id = inv.org_id; role = inv.role }

abbrev pub accepted_in : ℕ → Invitation → Tables → Tables
accepted_in now inv t = record t { invitations = accept_row now inv.id t.invitations }

module _ (up : Calls) where
  module _ (now : ℕ) (user : String) where
    joined : Invitation → Tables → Joined
    joined inv t = elim (Array.find (in_org inv.org_id) (memberships_of (up 7) user t)) [
      | none ↦ record { org_id = inv.org_id; org_name = ""; org_slug = ""; role = inv.role }
      | some m ↦ record {
        org_id = inv.org_id;
        org_name = m.org_name;
        org_slug = m.org_slug;
        role = inv.role;
      }
    ]

    -- The membership is stored.
    unfoldable pub settled : Invitation → Tables → Outcome Joined
    unfolding joined
    settled inv t =
        if up 6
        then (accepted_in now inv t, ok (joined inv (accepted_in now inv t)))
        else (t, refused 500 "failed to update invitation status")

    -- The user is not a member yet.
    unfoldable pub with_membership : Invitation → Tables → Outcome Joined
    unfolding settled
    with_membership inv t =
        elim (asked (up 5) (insert_membership (membership_for user inv) t.memberships)) [
          | none ↦ (t, refused 500 "failed to create membership")
          | some rows ↦ settled inv (record t { memberships = rows })
        ]

    -- The end of both handlers: the membership, and the invitation's status.
    unfoldable pub join : Invitation → Tables → Outcome Joined
    unfolding with_membership
    join inv t =
        if found (asked (up 3) (find_by_user_and_org_id user inv.org_id t.memberships))
        then (
          set_status_of (up 4) "accepted" inv.id t,
          refused 409 "you are already a member of this organization",
        )
        else with_membership inv t

    unfoldable pub accept_for : Invitation → Tables → Outcome Joined
    unfolding join
    accept_for inv t =
        if not (is_pending inv.status)
        then (t, refused 400 "invitation is no longer valid")
        else if ltb inv.expires_at now
        then (set_status_of (up 1) "expired" inv.id t, refused 400 "invitation has expired")
        else elim (asked (up 2) (find_user user t.users)) [
          | none ↦ (t, refused 500 "failed to look up user")
          | some u ↦
              if not (u.email == inv.email)
              then (t, refused 403 "this invitation was sent to a different email address")
              else join inv t
        ]

    -- `AcceptInvitation`, with the token of the body
    unfoldable pub accept_invitation : Option String → Tables → Outcome Joined
    unfolding accept_for
    accept_invitation none t = (t, invalid_body)
    accept_invitation (some token) t = elim (asked (up 0) (find_by_token token t.invitations)) [
      | none ↦ (t, refused 404 "invitation not found")
      | some inv ↦ accept_for inv t
    ]

    -- `GetPendingInvitations`
    unfoldable pub get_pending_invitations : Tables → Answer (List PendingInvitation)
    get_pending_invitations t = elim (asked (up 0) (find_user user t.users)) [
      | none ↦ refused 500 "failed to look up user"
      | some u ↦
          if up 1
          then ok (find_pending_by_email u.email now t.organizations t.invitations)
          else refused 500 "failed to fetch pending invitations"
    ]

    declined : Invitation → Tables → Outcome Responded
    declined inv t = elim (asked (up 8) (update_status "declined" inv.id t.invitations)) [
      | none ↦ (t, refused 500 "failed to decline invitation")
      | some rows ↦ (record t { invitations = rows }, ok left)
    ]

    respond_for : Action → String → Invitation → Tables → Outcome Responded
    unfolding declined
    respond_for action email inv t =
        if not (email == inv.email)
        then (t, refused 403 "this invitation was sent to a different email address")
        else if not (is_pending inv.status)
        then (t, refused 400 "invitation is no longer valid")
        else if ltb inv.expires_at now
        then (set_status_of (up 2) "expired" inv.id t, refused 400 "invitation has expired")
        else if is_decline action
        then declined inv t
        else with_joined (join inv t)

    responded : Action → String → Tables → User → Outcome Responded
    unfolding respond_for
    responded action id t u =
        if not (up 1)
        then (t, refused 500 "failed to look up invitation")
        else elim (find_invitation id t.invitations) [
          | none ↦ (t, refused 404 "invitation not found")
          | some inv ↦ respond_for action u.email inv t
        ]

    -- The body is decoded.
    respond_to : Option Action → String → Tables → Outcome Responded
    unfolding responded
    respond_to none id t = (t, invalid_body)
    respond_to (some action) id t = elim (asked (up 0) (find_user user t.users)) [
      | none ↦ (t, refused 500 "failed to look up user")
      | some u ↦ responded action id t u
    ]

    -- `RespondToInvitation`, with the id of the path and the action of the body
    unfoldable pub respond_to_invitation :
        (String → Bool) → String → Option Action → Tables → Outcome Responded
    unfolding respond_to
    respond_to_invitation is_id id action t =
        if is_id id then respond_to action id t else (t, refused 400 "invalid invitation ID")
