-- ===== src/Pages/SettingsPage/Deleting.antt =====
-- Which organization the settings page deletes.
use chis.Base.{String, ◌≡◌, refl, ap, ◌∙◌, ◌≢◌, true, false, Option, none, some, arith, eq_iff}
use chis.Base.Array
use chis.Net.{ApiRequestOptions, request_of, fulfilled}
use chis.Net.LocalStorage.{get_item}
use chis.Api.Types.{AuthUser, Organization}
use chis.Api.Organizations.{DeleteBody, delete_organization}
use chis.Orgs.{has_id}
use chis.Orgs.Removing.{find-removed, find-kept, current_org-remove_org}
use chis.Orgs.Steps.{Reach}
use chis.Orgs.Selected.{org_header-current}
use chis.Pages.SettingsPage.{
  SettingsState, can_delete, org_name, name_of, request_delete, delete_begin, delete_settled,
}

request_delete-eq-some :
    (c : Option Organization) (s : SettingsState) (r : ApiRequestOptions DeleteBody)
    → (request_delete c s).1 ≡ some r
    → (can_delete s ≡ true) × (delete_organization s.confirm_name ≡ r)
unfolding request_delete
request_delete-eq-some none s r h = cc
request_delete-eq-some (some o) s r h = ground arith

-- In a reachable state a deletion that is asked for names the organization on display: the name that
-- was typed is its name and the name in the request, and the request carries its id, if that is not
-- empty.
pub delete_begin-current :
    {parse : String → Option AuthUser} {stringify : AuthUser → String} (base : String)
    (s : SettingsState) (o : Organization) (r : ApiRequestOptions DeleteBody)
    → Reach parse stringify s.orgs
    → s.orgs.current_org ≡ some o
    → o.id ≢ ""
    → (delete_begin s).1 ≡ some r
    → (s.confirm_name ≡ o.name)
      × ((request_of base s.orgs.local r).body ≡ some (record { name = o.name }))
      × (get_item (request_of base s.orgs.local r).headers "X-Org-ID" ≡ some o.id)
unfolding delete_begin request_of delete_organization
delete_begin-current base s o r reach e ne h =
    let (same, asked) = request_delete-eq-some s.orgs.current_org s r h in
    let typed = (eq_iff s.confirm_name (org_name s)).0 same ∙ ap name_of e in
    (
      typed,
      rw (← asked) (ap (λ n. some (record { name = n })) typed),
      rw (← asked) (org_header-current reach e ne),
    )

-- A deletion that succeeds closes the dialog and goes to the dashboard; no organization with the
-- deleted id is listed or selected any more, any other id is listed as before, and the first of those
-- that are left is selected.
pub delete_settled-gone :
    {A : Type 0} (a : A) (o : Organization) (s : SettingsState) (id : String)
    → id ≢ o.id
    → let t = (delete_settled o (fulfilled a) s).0 in
      (t.is_open ≡ false)
      × ((delete_settled o (fulfilled a) s).1 ≡ some "/dashboard")
      × (Array.find (has_id o.id) t.orgs.organizations ≡ none)
      × (t.orgs.current_org ≡ Array.head? t.orgs.organizations)
      × (Array.find (has_id id) t.orgs.organizations ≡ Array.find (has_id id) s.orgs.organizations)
unfolding delete_settled
delete_settled-gone a o s id ne = (
  refl,
  refl,
  find-removed o.id s.orgs,
  current_org-remove_org o.id s.orgs,
  find-kept o.id s.orgs id ne,
)
