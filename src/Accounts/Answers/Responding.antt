-- ===== src/Accounts/Answers/Responding.antt =====
-- The changes of the handler that responds to an invitation.
use chis.Base.{
  String, Bool, Option, none, some, Option-cases, Bool-cases, ◌≡◌, refl, inl, inr, ltb, eq_iff,
  ◌==◌,
}
use chis.Base.Array
use chis.Access.{passed}
use chis.Accounts.{User, Invitation, Tables, asked, Outcome, ok, refused, invalid_body, other_error}
use chis.Accounts.Queries.{find_user, is_pending, find_invitation, has_id}
use chis.Accounts.Answers.{
  join, Action, respond_to_invitation, respond_to, responded, respond_for, declined, is_decline,
  with_joined, Joined,
}
use chis.Accounts.Queries.Rows.{asked-some, update_status-declined}
use chis.Accounts.Requests.{Library, Call, signed_in}
use chis.Accounts.Steps.{late, Steps, none_left}
use chis.Accounts.Answers.Joining.{is_pending-pending, closes, joins}

module _ (lib : Library) (c : Call) (user : String) where
  with_joined-tables : (o : Outcome Joined) → (with_joined o).0 ≡ o.0
  with_joined-tables (t, ok j) = refl
  with_joined-tables (t, refused n m) = refl
  with_joined-tables (t, invalid_body) = refl
  with_joined-tables (t, other_error) = refl

  declined-lem : (t : Tables) (inv : Invitation) → (declined c.up c.now user inv t).0 ≡ t
  unfolding declined
  declined-lem t inv = elim (Bool-cases (c.up 8)) [
    | inl y ↦ rw (declined, y, update_status-declined inv.id t.invitations) refl
    | inr n ↦ rw (declined, n) refl
  ]

  responds_for :
      (t : Tables) (action : Action) (u : User) (inv : Invitation) (key : Invitation → Bool)
      → signed_in lib c t ≡ passed user
      → find_user user t.users ≡ some u
      → Array.find key t.invitations ≡ some inv
      → Steps lib c t (respond_for c.up c.now user action u.email inv t).0
  unfolding respond_for
  responds_for t action u inv key s k f = elim (Bool-cases (u.email == inv.email)) [
    | inr d ↦ rw d none_left
    | inl d ↦ elim (Bool-cases (is_pending inv.status)) [
      | inr n ↦ rw (d, n) none_left
      | inl y ↦ elim (Bool-cases (ltb inv.expires_at c.now)) [
        | inl e ↦
            rw (d, y, e)
              (closes lib c user t (c.up 2) "expired" inv key s f (is_pending-pending inv.status y)
                (late e))
        | inr l ↦ elim (Bool-cases (is_decline action)) [
          | inl z ↦ rw (d, y, l, z) (rw (declined-lem t inv) none_left)
          | inr z ↦
              rw (d, y, l, z)
                (rw (with_joined-tables (join c.up c.now user inv t)) (
                  joins lib c user t u inv key s k ((eq_iff u.email inv.email).0 d) f
                    (is_pending-pending inv.status y) l))
        ]
      ]
    ]
  ]

  finds :
      (t : Tables) (action : Action) (id : String) (u : User)
      → signed_in lib c t ≡ passed user
      → find_user user t.users ≡ some u
      → Steps lib c t (responded c.up c.now user action id t u).0
  unfolding responded find_invitation
  finds t action id u s k = elim (Bool-cases (c.up 1)) [
    | inr n ↦ rw n none_left
    | inl y ↦ elim (Option-cases (find_invitation id t.invitations)) [
      | inl n ↦ rw (y, n) none_left
      | inr (inv, g) ↦ rw (y, g) (responds_for t action u inv (has_id id) s k g)
    ]
  ]

  responds_to :
      (t : Tables) (id : String) (action : Option Action)
      → signed_in lib c t ≡ passed user
      → Steps lib c t (respond_to c.up c.now user action id t).0
  unfolding respond_to
  responds_to t id none s = none_left
  responds_to t id (some a) s = elim (Option-cases (asked (c.up 0) (find_user user t.users))) [
    | inl n ↦ rw (respond_to, n) none_left
    | inr (u, g) ↦
        rw (respond_to, g) (finds t a id u s (asked-some (c.up 0) (find_user user t.users) u g))
  ]

  pub respond_to_invitation-steps :
      (t : Tables) (id : String) (action : Option Action)
      → signed_in lib c t ≡ passed user
      → Steps lib c t (respond_to_invitation c.up c.now user lib.is_id id action t).0
  unfolding respond_to_invitation
  respond_to_invitation-steps t id action s = elim (Bool-cases (lib.is_id id)) [
    | inr n ↦ rw n none_left
    | inl y ↦ rw y (responds_to t id action s)
  ]
