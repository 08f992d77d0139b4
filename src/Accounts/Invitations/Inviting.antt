-- ===== src/Accounts/Invitations/Inviting.antt =====
-- The changes of the handlers that create an invitation, and withdraw it.
use chis.Base.{
  String, Option, none, some, Option-cases, Bool-cases, List, ◌≡◌, refl, ◌⊎◌, inl, inr, arith,
  eq_iff, sym, subst,
}
use chis.Base.Array
use chis.Access.{passed}
use chis.Accounts.{Invitation, Status, pending, accepted, expired, cancelled, Tables, asked}
use chis.Accounts.Queries.{
  insert_invitation, update_status, find_by_org_and_email, invites, find_by_org_id, has_id,
  delete_invitation,
}
use chis.Accounts.Invitations.{
  CreateInvitationRequest, stored, new_invitation, with_token, removed, replaced, is_member, invite,
  create_invitation, cancel_invitation,
}
use chis.Accounts.Queries.Rows.{asked-some}
use chis.Accounts.Requests.{Library, Call, as_admin}
use chis.Accounts.Steps.{Steps, none_left, and_more, one, cleared, invited, withdrawn}

module _ (lib : Library) (c : Call) (user org : String) where
  stores :
      (t : Tables) (inv : Invitation)
      → as_admin lib c t ≡ passed (inv.invited_by, inv.org_id)
      → inv.status ≡ pending
      → Steps lib c t (stored c.up inv t).0
  unfolding stored
  stores t inv a p = elim (Option-cases (asked (c.up 4) (insert_invitation inv t.invitations))) [
    | inl n ↦ rw (stored, n) none_left
    | inr (rows, e) ↦
        rw (stored, e)
          (one lib c (
            invited inv rows a p
              (asked-some (c.up 4) (insert_invitation inv t.invitations) rows e)))
  ]

  module _ (id : String) (token : Option String) (req : CreateInvitationRequest) where
    gets_token :
        (t : Tables)
        → as_admin lib c t ≡ passed (user, org)
        → Steps lib c t (with_token c.up c.now user org id token req t).0
    unfolding with_token
    gets_token t a = elim (Option-cases token) [
      | inl n ↦ rw (with_token, n) none_left
      | inr (tok, e) ↦
          rw (with_token, e) (stores t (new_invitation c.up c.now user org id token req tok) a refl)
    ]

    removes :
        (t : Tables) (inv : Invitation)
        → as_admin lib c t ≡ passed (user, org)
        → find_by_org_and_email org inv.email t.invitations ≡ some inv
        → (inv.status ≡ expired) ⊎ (inv.status ≡ cancelled)
        → Steps lib c t (removed c.up c.now user org id token req inv t).0
    unfolding removed
    removes t inv a f s = elim (Bool-cases (c.up 3)) [
      | inr n ↦ rw n none_left
      | inl y ↦ rw y (
          and_more (cleared user org inv a f s)
            (gets_token (record t { invitations = delete_invitation inv.id t.invitations }) a))
    ]

    replaces :
        (t : Tables) (inv : Invitation) (s : Status)
        → as_admin lib c t ≡ passed (user, org)
        → find_by_org_and_email org inv.email t.invitations ≡ some inv
        → inv.status ≡ s
        → Steps lib c t (replaced c.up c.now user org id token req s inv t).0
    unfolding replaced
    replaces t inv pending a f e = none_left
    replaces t inv accepted a f e = none_left
    replaces t inv expired a f e = removes t inv a f (inl e)
    replaces t inv cancelled a f e = removes t inv a f (inr e)

    same_email :
        (rows : List Invitation) (inv : Invitation)
        → find_by_org_and_email org req.email rows ≡ some inv
        → find_by_org_and_email org inv.email rows ≡ some inv
    unfolding find_by_org_and_email
    same_email rows inv f =
        let held = Array.find-holds (invites org req.email) rows inv f in
        subst (λ x. find_by_org_and_email org x rows ≡ some inv)
          (sym ((eq_iff inv.email req.email).0 (ground (arith, held)))) f

    invites-steps :
        (t : Tables)
        → as_admin lib c t ≡ passed (user, org)
        → Steps lib c t (invite c.up c.now user org id token req t).0
    unfolding invite
    invites-steps t a = elim (Bool-cases (is_member c.up org req.email t)) [
      | inl m ↦ rw m none_left
      | inr m ↦ elim (Bool-cases (c.up 2)) [
        | inr n ↦ rw (m, n) none_left
        | inl y ↦ elim (Option-cases (find_by_org_and_email org req.email t.invitations)) [
          | inl n ↦ rw (m, y, n) (gets_token t a)
          | inr (inv, f) ↦
              rw (m, y, f) (replaces t inv inv.status a (same_email t.invitations inv f) refl)
        ]
      ]
    ]

  pub create_invitation-steps :
      (t : Tables) (id : String) (token : Option String) (body : Option CreateInvitationRequest)
      → as_admin lib c t ≡ passed (user, org)
      → Steps lib c t (create_invitation c.up c.now user org id token body t).0
  unfolding create_invitation
  create_invitation-steps t id token none a = none_left
  create_invitation-steps t id token (some req) a = invites-steps id token req t a

  pub cancel_invitation-steps :
      (t : Tables) (id : String)
      → as_admin lib c t ≡ passed (user, org)
      → Steps lib c t (cancel_invitation c.up lib.is_id org id t).0
  unfolding cancel_invitation
  cancel_invitation-steps t id a = elim (Bool-cases (lib.is_id id)) [
    | inr n ↦ rw n none_left
    | inl y ↦ elim (Bool-cases (c.up 0)) [
      | inr n ↦ rw (y, n) none_left
      | inl z ↦ elim (Bool-cases (Array.any (has_id id) (find_by_org_id org t.invitations))) [
        | inr n ↦ rw (y, z, n) none_left
        | inl h ↦
            elim (Option-cases (asked (c.up 1) (update_status "cancelled" id t.invitations))) [
              | inl n ↦ rw (y, z, h, n) none_left
              | inr (rows, e) ↦
                  rw (y, z, h, e)
                    (one lib c (
                      withdrawn user org id rows a h
                        (asked-some (c.up 1) (update_status "cancelled" id t.invitations) rows e)))
            ]
      ]
    ]
  ]
