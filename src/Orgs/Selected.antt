-- ===== src/Orgs/Selected.antt =====
-- The selected organization in the state and in the storage.
use chis.Base.{String, ◌≡◌, ◌≢◌, ap, sym, true, Option, none, some, List, [], ◌∷◌, arith, eq_iff}
use chis.Base.Array
use chis.Net.{Settled, auth_token_key, selected_org_key, headers_of, fulfilled, rejected}
use chis.Net.LocalStorage.{get_item, set_item, get_item-set_item, storage_laws}
use chis.Api.Types.{AuthUser, Organization}
use chis.Session.{auth_user_key, set_auth, logout, is_authenticated}
use chis.Orgs.{
  OrgState, on_authenticated, load_settled, switch_org, add_org, remove_org, sign_in, sign_out,
  settle_on, select, matches,
}
use chis.Orgs.Steps.{Step, Reach, login, leave, loaded, switched, added, removed, start, later}

-- The organization that requests name is the one that is shown.
abbrev pub IsSelected : OrgState → Type 0
IsSelected s =
    (o : Organization) → s.current_org ≡ some o → get_item s.local selected_org_key ≡ some o.id

switch_org-IsSelected : (o : Organization) (s : OrgState) → IsSelected (switch_org o s)
unfolding switch_org
switch_org-IsSelected o s x e = simp storage_laws (ground arith)

add_org-IsSelected : (o : Organization) (s : OrgState) → IsSelected (add_org o s)
unfolding add_org
add_org-IsSelected o s x e = simp storage_laws (ground arith)

settle_on-IsSelected : (xs : List Organization) (s : OrgState) → IsSelected (settle_on xs s)
unfolding settle_on
settle_on-IsSelected [] s x e = cc
settle_on-IsSelected (o ∷ xs) s x e = simp storage_laws (ground arith)

remove_org-IsSelected : (id : String) (s : OrgState) → IsSelected (remove_org id s)
unfolding remove_org
remove_org-IsSelected id s = settle_on-IsSelected _ s

matches-holds :
    (stored : Option String) (o : Organization) → matches stored o ≡ true → stored ≡ some o.id
unfolding matches
matches-holds none o h = cc
matches-holds (some id) o h = ap some (sym ((eq_iff o.id id).0 h))

select-IsSelected :
    (found : Option Organization) (orgs : List Organization) (s : OrgState)
    → ((o : Organization) → found ≡ some o → get_item s.local selected_org_key ≡ some o.id)
    → IsSelected s
    → IsSelected (select found orgs s)
unfolding select
select-IsSelected (some o) orgs s h k x e = h x e
select-IsSelected none [] s h k x e = k x e
select-IsSelected none (o ∷ orgs) s h k x e = simp storage_laws (ground arith)

module _ (s : OrgState) where
  load_settled-IsSelected :
      (r : Settled (List Organization)) → IsSelected s → IsSelected (load_settled r s)
  unfolding load_settled
  load_settled-IsSelected (rejected _) k = k
  load_settled-IsSelected (fulfilled orgs) k =
      let stored = get_item s.local selected_org_key in
      select-IsSelected (Array.find (matches stored) orgs) orgs _
        (λ o e. matches-holds stored o (Array.find-holds (matches stored) orgs o e)) k

  sign_in-IsSelected :
      (stringify : AuthUser → String) (token : String) (u : AuthUser)
      → IsSelected s
      → IsSelected (sign_in stringify token u s)
  unfolding sign_in set_auth
  sign_in-IsSelected stringify token u k x e =
      let first = set_item s.local auth_token_key token in
      ground (
        arith,
        get_item-set_item s.local auth_token_key selected_org_key token,
        get_item-set_item first auth_user_key selected_org_key (stringify u),
        k x,
      )

  sign_out-IsSelected : is_authenticated s.session ≡ true → IsSelected (sign_out s)
  unfolding sign_out logout
  sign_out-IsSelected h x e = ground arith

module _ {parse : String → Option AuthUser} {stringify : AuthUser → String} where
  Step-IsSelected : {s t : OrgState} → Step parse stringify s t → IsSelected s → IsSelected t
  Step-IsSelected (login s token u) k = sign_in-IsSelected s stringify token u k
  Step-IsSelected (leave s h) k = sign_out-IsSelected s h
  Step-IsSelected (loaded s r h) k = load_settled-IsSelected s r k
  Step-IsSelected (switched s o h) k = switch_org-IsSelected o s
  Step-IsSelected (added s o) k = add_org-IsSelected o s
  Step-IsSelected (removed s id) k = remove_org-IsSelected id s

  Reach-IsSelected : {s : OrgState} → Reach parse stringify s → IsSelected s
  unfolding on_authenticated
  Reach-IsSelected (start local) = λ x e. ground arith
  Reach-IsSelected (later r st) = Step-IsSelected st (Reach-IsSelected r)

  -- In every reachable state a request with credentials names the organization that is shown, if its
  -- id is not empty: its header `X-Org-ID` is the id of `currentOrg`.
  pub org_header-current :
      {s : OrgState} {o : Organization}
      → Reach parse stringify s
      → s.current_org ≡ some o
      → o.id ≢ ""
      → get_item (headers_of s.local true) "X-Org-ID" ≡ some o.id
  unfolding headers_of get_item
  org_header-current {o} r e h = ground (arith, Reach-IsSelected r o e, eq_iff o.id "")
