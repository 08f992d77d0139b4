-- ===== src/Accounts/Organizations/Deleted.antt =====
-- The deletion of an organization.
use chis.Base.{
  String, true, false, not, none, some, Bool-cases, List, [], ◌∷◌, ◌≡◌, refl, ap, ◌∙◌, inl, inr,
  ◌==◌, arith, eq_iff, if◌then◌else◌,
}
use chis.Base.Array
use chis.Access.{Membership, belongs, find_by_user_and_org_id}
use chis.Accounts.{Tables, Organization, ok, refused}
use chis.Accounts.Queries.{find_organization}
use chis.Accounts.Organizations.{delete_organization_rows, delete_named, delete_org}

-- No row of an organization is found where all of its rows are gone.
find-gone :
    (user org : String) (rows : List Membership)
    → Array.find (belongs user org) (Array.filter (λ m. not (m.org_id == org)) rows) ≡ none
find-gone user org [] = refl
find-gone user org (m ∷ rows) = ground (arith, find-gone user org rows)

others_stay :
    (user org other : String) (rows : List Membership)
    → (other == org) ≡ false
    → Array.find (belongs user other) (Array.filter (λ m. not (m.org_id == org)) rows)
      ≡ Array.find (belongs user other) rows
others_stay user org other rows n =
    Array.find-filter (λ m. not (m.org_id == org)) (belongs user other) rows
      (λ m b.
        let same = (eq_iff m.org_id other).0 (ground (arith, b)) in
        ap not (ap (λ x. x == org) same ∙ n))

-- An organization is deleted exactly if its name is given: then nobody is a member of it any more, and
-- the memberships of every other organization are as before. Otherwise nothing changes.
pub delete_org-named :
    (user org other name : String) (o : Organization) (t : Tables)
    → find_organization org t.organizations ≡ some o
    → delete_org (λ n. true) org (some name) t ≡ (
        if name == o.name
        then (delete_organization_rows org t, ok "organization deleted")
        else (t, refused 400 "organization name does not match"))
      × (find_by_user_and_org_id user other (delete_organization_rows org t).memberships
          ≡ (if other == org then none else find_by_user_and_org_id user other t.memberships))
unfolding delete_org delete_named delete_organization_rows find_by_user_and_org_id
delete_org-named user org other name o t f = (
  elim (Bool-cases (name == o.name)) [
    | inl y ↦ rw (delete_org, delete_named, f, y) refl
    | inr n ↦ rw (delete_org, delete_named, f, n) refl
  ],
  elim (Bool-cases (other == org)) [
    | inl y ↦
        rw (y, find_by_user_and_org_id, (eq_iff other org).0 y) (find-gone user org t.memberships)
    | inr n ↦ rw (n, find_by_user_and_org_id) (others_stay user org other t.memberships n)
  ],
)
