-- ===== src/Orgs/Removing.antt =====
-- What removing an organization leaves.
use chis.Base.{String, ◌≡◌, ◌≢◌, refl, not, none, List, [], ◌∷◌, ◌==◌, arith, eq_iff}
use chis.Base.Array
use chis.Api.Types.{Organization}
use chis.Orgs.{OrgState, has_id, settle_on, remove_org}

settle_on_lists :
    (xs : List Organization) (s : OrgState)
    → ((settle_on xs s).organizations ≡ xs) × ((settle_on xs s).current_org ≡ Array.head? xs)
unfolding settle_on
settle_on_lists [] s = (refl, refl)
settle_on_lists (o ∷ xs) s = (refl, refl)

module _ (id : String) (s : OrgState) where
  pub organizations-remove_org :
      (remove_org id s).organizations ≡ Array.filter (λ o. not (o.id == id)) s.organizations
  unfolding remove_org
  organizations-remove_org = (settle_on_lists _ s).0

  pub current_org-remove_org :
      (remove_org id s).current_org ≡ Array.head? (remove_org id s).organizations
  unfolding remove_org
  current_org-remove_org =
      let (lists, selects) =
        settle_on_lists (Array.filter (λ o. not (o.id == id)) s.organizations) s in
      rw lists selects

  pub find-removed : Array.find (has_id id) (remove_org id s).organizations ≡ none
  find-removed = rw organizations-remove_org (Array.find-filter-not (has_id id) s.organizations)

  pub find-kept :
      (j : String)
      → j ≢ id
      → Array.find (has_id j) (remove_org id s).organizations
        ≡ Array.find (has_id j) s.organizations
  find-kept j ne = rw organizations-remove_org (
      Array.find-filter (λ o. not (o.id == id)) (has_id j) s.organizations
        (λ o e. ground (arith, eq_iff o.id j, eq_iff o.id id)))
