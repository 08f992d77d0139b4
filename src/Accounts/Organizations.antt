-- ===== src/Accounts/Organizations.antt =====
-- The handlers of internal/handler/organization.go, over internal/repository/organization.go, with the
-- user and the organization that the guards give them. `to_lower` is strings.ToLower.
pub mod Changing
pub mod Listed
pub mod Deleted
pub mod Slugs
use chis.Base.{String, Bool, not, Option, none, some, List, map, ◌==◌, if◌then◌else◌}
use chis.Base.Array
use chis.Base.Text.{concat}
use chis.Access.{Membership}
use chis.Accounts.{
  User, Organization, Tables, Invitation, Answer, ok, refused, invalid_body, Calls, asked, Outcome,
}
use chis.Accounts.Queries.{
  insert_organization, insert_membership, find_organization, has_org_id, MembershipWithOrg,
  find_all_by_user_id,
}
use chis.Accounts.Organizations.Slugs.{slugify}

pub record OrgResponse : Type 0 where
  pub id : String
  pub name : String
  pub slug : String
  pub role : String

-- DELETE, with what ON DELETE CASCADE deletes of these tables.
unfoldable pub delete_organization_rows : String → Tables → Tables
delete_organization_rows org t = record t {
  organizations = Array.filter (λ o. not (has_org_id org o)) t.organizations;
  memberships = Array.filter (λ m. not (m.org_id == org)) t.memberships;
  invitations = Array.filter (λ i. not (i.org_id == org)) t.invitations;
}

abbrev pub with_secret : String → Organization → Organization
with_secret secret o = record o { signing_secret = secret }

-- UPDATE of the secret, an error if there is no such row
unfoldable pub rotate_secret : String → String → List Organization → Option (List Organization)
rotate_secret org secret rows =
    if Array.any (has_org_id org) rows
    then some (map (λ o. if has_org_id org o then with_secret secret o else o) rows)
    else none

abbrev pub org_response : MembershipWithOrg → OrgResponse
org_response m = record { id = m.org_id; name = m.org_name; slug = m.org_slug; role = m.role }

abbrev pub new_organization : (String → String) → String → String → String → Organization
new_organization to_lower id name secret = record {
  id = id;
  name = name;
  slug = slugify to_lower name;
  signing_secret = secret;
}

abbrev pub admin_of : String → String → Membership
admin_of user org = record { user_id = user; org_id = org; role = "admin" }

module _ (up : Calls) where
  unfoldable pub list_orgs : String → Tables → Answer (List OrgResponse)
  list_orgs user t =
      if up 0
      then ok (map org_response (find_all_by_user_id user t.organizations t.memberships))
      else refused 500 "failed to fetch organizations"

  delete_named : String → String → Tables → Outcome String
  delete_named org name t = elim (asked (up 0) (find_organization org t.organizations)) [
    | none ↦ (t, refused 404 "organization not found")
    | some o ↦
        if not (name == o.name)
        then (t, refused 400 "organization name does not match")
        else if up 1
        then (delete_organization_rows org t, ok "organization deleted")
        else (t, refused 500 "failed to delete organization")
  ]

  -- `DeleteOrg`, with the name of the body
  unfoldable pub delete_org : String → Option String → Tables → Outcome String
  unfolding delete_named
  delete_org org none t = (t, invalid_body)
  delete_org org (some name) t = delete_named org name t

  module _ (to_lower : String → String) where
    -- The organization is stored.
    joined_by : String → Organization → Tables → Outcome OrgResponse
    joined_by user o t =
        elim (asked (up 1) (insert_membership (admin_of user o.id) t.memberships)) [
          | none ↦ (t, refused 500 "failed to create membership")
          | some rows ↦ (
            record t { memberships = rows },
            ok (record { id = o.id; name = o.name; slug = o.slug; role = "admin" }),
          )
        ]

    created_org : String → Organization → Tables → Outcome OrgResponse
    unfolding joined_by
    created_org user o t = elim (asked (up 0) (insert_organization o t.organizations)) [
      | none ↦ (t, refused 500 "failed to create organization")
      | some rows ↦ joined_by user o (record t { organizations = rows })
    ]

    named : String → String → Option String → String → Tables → Outcome OrgResponse
    unfolding created_org
    named user id none name t = (t, refused 500 "failed to generate signing secret")
    named user id (some secret) name t =
        created_org user (new_organization to_lower id name secret) t

    -- `CreateOrg`, with the id that the row gets, the generated secret and the name of the body
    unfoldable pub create_org :
        String → String → Option String → Option String → Tables → Outcome OrgResponse
    unfolding named
    create_org user id secret none t = (t, invalid_body)
    create_org user id secret (some name) t = named user id secret name t

  unfoldable pub get_signing_secret : String → Tables → Answer String
  get_signing_secret org t = elim (asked (up 0) (find_organization org t.organizations)) [
    | none ↦ refused 500 "failed to fetch signing secret"
    | some o ↦ ok o.signing_secret
  ]

  rotated : String → String → Tables → Outcome String
  rotated org secret t = elim (asked (up 0) (rotate_secret org secret t.organizations)) [
    | none ↦ (t, refused 500 "failed to rotate signing secret")
    | some rows ↦ (record t { organizations = rows }, ok secret)
  ]

  -- `RotateSigningSecret`, with the generated secret
  unfoldable pub rotate_signing_secret : String → Option String → Tables → Outcome String
  unfolding rotated
  rotate_signing_secret org none t = (t, refused 500 "failed to generate signing secret")
  rotate_signing_secret org (some secret) t = rotated org secret t
