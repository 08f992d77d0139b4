-- ===== src/Accounts/Answers/Retried.antt =====
-- The acceptance of an invitation whose last statement fails.
use chis.Base.{
  ℕ, String, true, false, not, some, [], ◌∷◌, ◌++◌, ◌≡◌, refl, ltb, nat_eq, arith, eq_refl,
}
use chis.Base.Array
use chis.Access.{belongs, find_by_user_and_org_id}
use chis.Accounts.{User, Invitation, pending, accepted, Tables, Calls, refused}
use chis.Accounts.Queries.{
  find_user, find_by_token, insert_membership, update_status, status_of, set_status, update_where,
  with_status,
}
use chis.Accounts.Queries.Rows.{find-new}
use chis.Accounts.Answers.{
  membership_for, set_status_of, join, with_membership, settled, accept_for, accept_invitation,
}

-- Postgres answers every statement but the last, the update of the invitation.
abbrev pub all_but_update : Calls
all_but_update n = not (nat_eq n 6)

module _ (now later : ℕ) (token : String) (inv : Invitation) (u : User) (t : Tables) where
  abbrev pub half_joined : Tables
  half_joined = record t { memberships = t.memberships ++ membership_for u.id inv ∷ [] }

  abbrev pub closed_later : Tables
  closed_later = record half_joined {
    invitations = update_where (with_status accepted) inv.id t.invitations;
  }

  -- If the update of a pending invitation in time, to the user's e-mail, fails after the membership
  -- is stored, then the user is answered an internal error, but is a member; accepting again in
  -- time, with every statement answered, is refused as a conflict, and marks the invitation as
  -- accepted.
  pub accept_invitation-retry :
      find_by_token token t.invitations ≡ some inv
      → inv.status ≡ pending
      → ltb inv.expires_at now ≡ false
      → ltb inv.expires_at later ≡ false
      → find_user u.id t.users ≡ some u
      → u.email ≡ inv.email
      → Array.any (belongs u.id inv.org_id) t.memberships ≡ false
      → (accept_invitation all_but_update now u.id (some token) t
          ≡ (half_joined, refused 500 "failed to update invitation status"))
        × (find_by_user_and_org_id u.id inv.org_id half_joined.memberships
            ≡ some (membership_for u.id inv))
        × (accept_invitation (λ n. true) later u.id (some token) half_joined
            ≡ (closed_later, refused 409 "you are already a member of this organization"))
  unfolding accept_invitation accept_for join with_membership settled find_by_user_and_org_id
      insert_membership update_status set_status status_of
  accept_invitation-retry f p l k g e m =
      let there =
        find-new (belongs u.id inv.org_id) t.memberships (membership_for u.id inv) m
          (ground (arith, eq_refl u.id, eq_refl inv.org_id)) in
      (
        rw
            (
              accept_invitation,
              f,
              accept_for,
              p,
              l,
              g,
              e,
              eq_refl inv.email,
              join,
              find_by_user_and_org_id,
              Array.find-none (belongs u.id inv.org_id) t.memberships m,
              with_membership,
              insert_membership,
              m,
              settled,
            )
            refl,
        there,
        rw
            (
              accept_invitation,
              f,
              accept_for,
              p,
              k,
              g,
              e,
              eq_refl inv.email,
              join,
              find_by_user_and_org_id,
              there,
              set_status_of,
            )
            refl,
      )
