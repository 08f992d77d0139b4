-- ===== src/Accounts/Answers/Declining.antt =====
-- What becomes of a declined invitation.
use chis.Base.{ℕ, String, Bool, true, false, some, ◌≡◌, refl, ltb, arith, eq_refl, ap, ◌∙◌}
use chis.Net.{Failure, Body, json, answered, settle, Settled, rejected}
use chis.Api.Types.{AcceptInvitationResponse}
use chis.Api.Invitations
use chis.Parts.PendingInvitations.{PendingState, respond_begin, respond_settled}
use chis.Accounts.Errors.{wrap, app_error}
use chis.Accounts.Errors.Read.{settle-wrap}
use chis.Accounts.{User, Invitation, pending, Tables, refused}
use chis.Accounts.Queries.{find_user, find_invitation}
use chis.Accounts.Answers.{
  decline, respond_to_invitation, respond_to, responded, respond_for, declined,
}
use chis.Accounts.Queries.Rows.{update_status-declined}

refuses :
    (is_id : String → Bool) (now : ℕ) (user id : String) (t : Tables) (u : User) (inv : Invitation)
    → is_id id ≡ true
    → find_user user t.users ≡ some u
    → find_invitation id t.invitations ≡ some inv
    → u.email ≡ inv.email
    → inv.status ≡ pending
    → ltb inv.expires_at now ≡ false
    → respond_to_invitation (λ n. true) now user is_id id (some decline) t
      ≡ (t, refused 500 "failed to decline invitation")
unfolding respond_to_invitation respond_to responded respond_for declined
refuses is_id now user id t u inv i k f a p l =
    rw
      (
        i,
        respond_to,
        k,
        responded,
        f,
        respond_for,
        a,
        eq_refl inv.email,
        p,
        l,
        declined,
        update_status-declined inv.id t.invitations,
      )
      refl

-- A rejected answer leaves the dialog as it is.
dialog_kept :
    (e : Failure) (id : String) (s : PendingState)
    → ((respond_settled id Invitations.decline (rejected e) (respond_begin id s)).invitations
        ≡ s.invitations)
      × ((respond_settled id Invitations.decline (rejected e) (respond_begin id s)).is_open
          ≡ s.is_open)
unfolding respond_settled respond_begin
dialog_kept e id s = (refl, refl)

module _ (is_id : String → Bool) (now : ℕ) (user id : String) (t : Tables) (u : User)
    (inv : Invitation) (s : PendingState) (no_content : AcceptInvitationResponse)
    (payload : Body AcceptInvitationResponse) (to_lower : String → String)
    (path timestamp : String) where
  -- How the dialog's promise settles for an internal error of the API with a message.
  abbrev pub settled_error : String → Settled AcceptInvitationResponse
  settled_error message =
      let w = wrap to_lower path timestamp (app_error 500 message) in
      settle no_content
        (answered (record { status = w.0; payload = payload; error_body = json w.1 }))

  -- Declining never works: for a pending invitation to the user's e-mail that has not expired, with
  -- every statement answered, the answer is an internal error and nothing has changed, and the
  -- dialog that gets this error still has the invitations that it had.
  pub respond_to_invitation-decline :
      is_id id ≡ true
      → find_user user t.users ≡ some u
      → find_invitation id t.invitations ≡ some inv
      → u.email ≡ inv.email
      → inv.status ≡ pending
      → ltb inv.expires_at now ≡ false
      → let after =
          respond_settled id Invitations.decline
            (settled_error "failed to decline invitation")
            (respond_begin id s) in
        (respond_to_invitation (λ n. true) now user is_id id (some decline) t
          ≡ (t, refused 500 "failed to decline invitation"))
        × (after.invitations ≡ s.invitations)
        × (after.is_open ≡ s.is_open)
  respond_to_invitation-decline i k f a p l =
      let rejects =
        settle-wrap no_content payload to_lower path timestamp
          (app_error 500 "failed to decline invitation") (omega arith) in
      (
        refuses is_id now user id t u inv i k f a p l,
        ap (λ r. (respond_settled id Invitations.decline r (respond_begin id s)).invitations)
              rejects
            ∙ (dialog_kept _ id s).0,
        ap (λ r. (respond_settled id Invitations.decline r (respond_begin id s)).is_open) rejects
            ∙ (dialog_kept _ id s).1,
      )
