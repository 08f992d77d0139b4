-- ===== src/Accounts/Answers/Entered.antt =====
-- The two ends of the acceptance of an invitation, with every statement answered.
use chis.Base.{
  ℕ, String, Bool, true, false, some, Option-cases, Bool-cases, List, [], ◌∷◌, ◌++◌, map, ◌≡◌, refl,
  inl, inr, ◌==◌, ◌&&◌, arith, eq_refl, if◌then◌else◌,
}
use chis.Base.Array
use chis.Access.{Membership, belongs, find_by_user_and_org_id}
use chis.Accounts.{Invitation, Organization, Tables, accepted, refused, ok, Outcome}
use chis.Accounts.Queries.{
  insert_membership, update_status, status_of, set_status, accept_row, find_organization,
  find_all_by_user_id,
}
use chis.Accounts.Invitations.{in_org}
use chis.Accounts.Answers.{
  Responded, joins, join, with_joined, with_membership, settled, joined, set_status_of,
}

-- A user who is not a member yet finds the organization of a new membership by its id.
find-joined :
    (user org : String) (role : String) (o : Organization) (orgs : List Organization)
    (rows : List Membership)
    → find_organization org orgs ≡ some o
    → Array.any (belongs user org) rows ≡ false
    → Array.find (in_org org) (
        find_all_by_user_id user orgs
          (rows ++ record { user_id = user; org_id = org; role = role } ∷ []))
      ≡ some (record { org_id = org; org_name = o.name; org_slug = o.slug; role = role })
unfolding find_all_by_user_id
find-joined user org role o orgs [] f n =
    rw (find_all_by_user_id, eq_refl user, f, eq_refl org) refl
find-joined user org role o orgs (m ∷ rows) f n =
    let rest = find-joined user org role o orgs rows f (ground (arith, n)) in
    elim (Bool-cases (m.user_id == user)) [
      | inr d ↦ rw (find_all_by_user_id, d) rest
      | inl y ↦ elim (Option-cases (find_organization m.org_id orgs)) [
        | inl g ↦ rw (find_all_by_user_id, y, g) rest
        | inr (p, g) ↦
            let other : (m.org_id == org) ≡ false = ground (arith, n, y) in
            rw (find_all_by_user_id, y, g, other) rest
      ]
    ]

module _ (now : ℕ) (user : String) (inv : Invitation) (o : Organization) (t : Tables) where
  -- Whether the user is a member of the organization.
  abbrev pub is_inside : Bool
  is_inside = Array.any (λ m. (m.user_id == user) && (m.org_id == inv.org_id)) t.memberships

  -- The user is a member already: the invitation is marked as accepted, and that is all.
  abbrev pub conflict : Outcome Responded
  conflict = (
    record t {
      invitations =
          map (λ i. if i.id == inv.id then record i { status = accepted } else i) t.invitations;
    },
    refused 409 "you are already a member of this organization",
  )

  -- The user becomes a member with the role of the invitation, which is marked with its time.
  abbrev pub welcome : Outcome Responded
  welcome = (
    record t {
      memberships =
          t.memberships ++ record { user_id = user; org_id = inv.org_id; role = inv.role } ∷ [];
      invitations =
          map
            (λ i.
              if i.id == inv.id then record i { status = accepted; accepted_at = some now } else i)
            t.invitations;
    },
    ok (
        joins
          (record { org_id = inv.org_id; org_name = o.name; org_slug = o.slug; role = inv.role })),
  )

  pub join-member : is_inside ≡ true → with_joined (join (λ n. true) now user inv t) ≡ conflict
  unfolding join find_by_user_and_org_id update_status status_of set_status
  join-member m = elim (Option-cases (Array.find (belongs user inv.org_id) t.memberships)) [
    | inl n ↦ absurd (ground (arith, m, Array.none-any (belongs user inv.org_id) t.memberships n))
    | inr (k, f) ↦ rw (join, find_by_user_and_org_id, f, set_status_of) refl
  ]

  pub join-welcome :
      find_organization inv.org_id t.organizations ≡ some o
      → is_inside ≡ false
      → with_joined (join (λ n. true) now user inv t) ≡ welcome
  unfolding join find_by_user_and_org_id with_membership insert_membership settled joined accept_row
  join-welcome f m =
      rw
        (
          join,
          find_by_user_and_org_id,
          Array.find-none (belongs user inv.org_id) t.memberships m,
          with_membership,
          insert_membership,
          m,
          settled,
          joined,
          find-joined user inv.org_id inv.role o t.organizations t.memberships f m,
        )
        refl

  pub join-answer :
      find_organization inv.org_id t.organizations ≡ some o
      → with_joined (join (λ n. true) now user inv t) ≡ (if is_inside then conflict else welcome)
  join-answer f = elim (Bool-cases is_inside) [
    | inl y ↦ rw y (join-member y)
    | inr n ↦ rw n (join-welcome f n)
  ]
