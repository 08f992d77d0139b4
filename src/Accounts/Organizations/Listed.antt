-- ===== src/Accounts/Organizations/Listed.antt =====
-- The organizations that a user is shown, and those that the guards let the user into.
use mathlib.Core.Option
use chis.Base.{
  String, Bool, true, Option, some, Bool-cases, Option-cases, List, [], ◌∷◌, map, ◌≡◌, refl, inl,
  inr, ◌==◌, arith, All,
}
use chis.Base.Array
use chis.Access.{Membership, find_by_user_and_org_id}
use chis.Accounts.{Tables, Organization, ok}
use chis.Accounts.Queries.{find_organization, has_org_id, find_all_by_user_id}
use chis.Accounts.Organizations.{OrgResponse, org_response, list_orgs}

abbrev pub role_in : String → List OrgResponse → Option String
role_in org os = Option.map (λ (o : OrgResponse). o.role) (Array.find (λ o. o.id == org) os)

abbrev pub role_of : Option Membership → Option String
role_of = Option.map (λ (m : Membership). m.role)

-- Every membership is of an organization that is there, as its foreign key says.
abbrev pub IsReferring : List Organization → Membership → Type 0
IsReferring orgs m = Array.any (has_org_id m.org_id) orgs ≡ true

any-there :
    {A : Type 0} (p : A → Bool) (xs : List A)
    → Array.any p xs ≡ true
    → (a : A) × (Array.find p xs ≡ some a)
any-there p xs h = elim (Option-cases (Array.find p xs)) [
  | inl n ↦ absurd (ground (arith, h, Array.none-any p xs n))
  | inr (a, e) ↦ (a, e)
]

listed-role :
    (user org : String) (orgs : List Organization) (rows : List Membership)
    → All (IsReferring orgs) rows
    → role_in org (map org_response (find_all_by_user_id user orgs rows))
      ≡ role_of (find_by_user_and_org_id user org rows)
unfolding find_all_by_user_id find_by_user_and_org_id find_organization
listed-role user org orgs [] h = refl
listed-role user org orgs (m ∷ rows) h =
    let ih = listed-role user org orgs rows h.1 in
    elim (Bool-cases (m.user_id == user)) [
      | inr n ↦ rw (find_all_by_user_id, n) ih
      | inl y ↦
          let (o, f) = any-there (has_org_id m.org_id) orgs h.0 in
          elim (Bool-cases (m.org_id == org)) [
            | inl e ↦ rw (find_all_by_user_id, y, f, e) refl
            | inr e ↦ rw (find_all_by_user_id, y, f, e) ih
          ]
    ]

-- With the query answered, if every membership's organization is there, then the organizations that
-- the API lists to a user are those of which the guards find the user a member, each with the role
-- that the guards find.
pub list_orgs-find_by_user_and_org_id :
    (user org : String) (t : Tables)
    → All (IsReferring t.organizations) t.memberships
    → (list_orgs (λ n. true) user t
        ≡ ok (map org_response (find_all_by_user_id user t.organizations t.memberships)))
      × (role_in org (map org_response (find_all_by_user_id user t.organizations t.memberships))
          ≡ role_of (find_by_user_and_org_id user org t.memberships))
unfolding list_orgs
list_orgs-find_by_user_and_org_id user org t h =
    (refl, listed-role user org t.organizations t.memberships h)
