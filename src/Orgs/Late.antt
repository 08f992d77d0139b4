-- ===== src/Orgs/Late.antt =====
-- What a load does that settles after the state that it was started for is gone: it is never
-- cancelled (web/src/shared/context/org-context.tsx).
use chis.Base.{
  String, ◌≡◌, refl, ap, ◌∙◌, true, false, Option, none, some, List, [], ◌∷◌, ◌-◌, arith,
}
use chis.Base.Array
use chis.Net.{fulfilled, remove_stored_token, selected_org_key}
use chis.Net.LocalStorage.{get_item, remove_item, get_item-remove_item, storage_laws}
use chis.Api.Types.{Organization}
use chis.Session.{auth_user_key, is_authenticated, logout}
use chis.Orgs.{OrgState, store_org, has_id, matches, select, load_settled, sign_out, add_org}

find-matches-none : (orgs : List Organization) → Array.find (matches none) orgs ≡ none
unfolding matches
find-matches-none [] = refl
find-matches-none (x ∷ orgs) = find-matches-none orgs

-- The state that a load leaves which finds no stored selection.
abbrev pub selected_first : Organization → List Organization → OrgState → OrgState
selected_first o rest s = record {
  session = store_org o.id s.session;
  organizations = o ∷ rest;
  current_org = some o;
  loading = s.loading - 1;
}

module _ (o : Organization) (rest : List Organization) where
  load_settled_fresh :
      (s : OrgState)
      → Array.find (matches (get_item s.local selected_org_key)) (o ∷ rest) ≡ none
      → load_settled (fulfilled (o ∷ rest)) s ≡ selected_first o rest s
  unfolding load_settled select
  load_settled_fresh s h = rw h

  get_item-sign_out :
      (s : OrgState)
      → is_authenticated s.session ≡ true
      → (get_item (sign_out s).local selected_org_key ≡ none)
        × (is_authenticated (sign_out s).session ≡ false)
        × ((sign_out s).organizations ≡ [])
        × ((sign_out s).current_org ≡ none)
  unfolding sign_out logout
  get_item-sign_out s h = ground (
    arith,
    get_item-remove_item (remove_item (remove_stored_token s.local) auth_user_key) selected_org_key
        selected_org_key,
  )

  stored :
      {m k : Option String}
      → m ≡ k
      → Array.find (matches m) (o ∷ rest) ≡ Array.find (matches k) (o ∷ rest)
  stored e = ap (λ m. Array.find (matches m) (o ∷ rest)) e

  get_item-add_org :
      (added : Organization) (s : OrgState)
      → get_item (add_org added s).local selected_org_key ≡ some added.id
  unfolding add_org
  get_item-add_org added s = simp storage_laws

  find-other :
      (added : Organization)
      → Array.any (has_id added.id) (o ∷ rest) ≡ false
      → Array.find (matches (some added.id)) (o ∷ rest) ≡ none
  unfolding matches
  find-other added h = Array.find-none (has_id added.id) (o ∷ rest) h

  -- From a signed-in state, a logout empties the list of organizations and the selection, but a load
  -- in flight that settles after it with any organization brings them back: nobody is signed in, and
  -- the first organization of the answer is selected, in the state and in the storage.
  pub load_settled-sign_out :
      (s : OrgState)
      → is_authenticated s.session ≡ true
      → ((sign_out s).organizations ≡ [])
        × ((sign_out s).current_org ≡ none)
        × (is_authenticated (load_settled (fulfilled (o ∷ rest)) (sign_out s)).session ≡ false)
        × (load_settled (fulfilled (o ∷ rest)) (sign_out s) ≡ selected_first o rest (sign_out s))
  load_settled-sign_out s h =
      let (nothing, out, no_orgs, no_current) = get_item-sign_out s h in
      let e = load_settled_fresh (sign_out s) (stored nothing ∙ find-matches-none (o ∷ rest)) in
      (no_orgs, no_current, rw e out, e)

  -- An organization that is added while a load is in flight is gone from the list, and is selected no
  -- more, once the load settles with others that do not have its id.
  pub load_settled-add_org :
      (added : Organization) (s : OrgState)
      → Array.any (has_id added.id) (o ∷ rest) ≡ false
      → load_settled (fulfilled (o ∷ rest)) (add_org added s)
        ≡ selected_first o rest (add_org added s)
  load_settled-add_org added s h =
      load_settled_fresh (add_org added s) (stored (get_item-add_org added s) ∙ find-other added h)
