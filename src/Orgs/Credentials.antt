-- ===== src/Orgs/Credentials.antt =====
-- The session under the steps of the two contexts, and the credentials that requests carry.
use chis.Base.{
  String, ◌≡◌, ◌≢◌, true, Option, none, some, List, [], ◌∷◌, arith, truthy?, if◌then◌else◌,
}
use chis.Base.Text.{concat}
use chis.Net.{Settled, fulfilled, rejected, selected_org_key, headers_of}
use chis.Net.LocalStorage.{get_item, set_item, storage_laws}
use chis.Api.Types.{AuthUser, Organization}
use chis.Session.{Session, get_initial_token, initial, set_auth, logout}
use chis.Session.Reload.{
  IsSynced, initial-IsSynced, logout-IsSynced, store-IsSynced, set_auth-IsSynced,
  initial_of_IsSynced,
}
use chis.Orgs.{
  OrgState, store_org, select, on_authenticated, load_settled, switch_org, add_org, settle_on,
  remove_org, sign_in, sign_out,
}
use chis.Orgs.Steps.{Step, Reach, login, leave, loaded, switched, added, removed, start, later}

session-sign_in :
    (stringify : AuthUser → String) (token : String) (u : AuthUser) (s : OrgState)
    → (sign_in stringify token u s).session ≡ set_auth stringify token u s.session
unfolding sign_in
session-sign_in stringify token u s = ground arith

session-sign_out : (s : OrgState) → (sign_out s).session ≡ logout s.session
unfolding sign_out
session-sign_out s = ground arith

module _ (parse : String → Option AuthUser) where
  store_org-IsSynced :
      (id : String) (s : Session) → IsSynced parse s → IsSynced parse (store_org id s)
  store_org-IsSynced id s h =
      store-IsSynced parse s (set_item s.local selected_org_key id) (simp storage_laws)
        (simp storage_laws) h

  select-IsSynced :
      (found : Option Organization) (orgs : List Organization) (s : OrgState)
      → IsSynced parse s.session
      → IsSynced parse (select found orgs s).session
  unfolding select
  select-IsSynced (some o) orgs s h = h
  select-IsSynced none [] s h = h
  select-IsSynced none (o ∷ orgs) s h = store_org-IsSynced o.id s.session h

  load_settled-IsSynced :
      (r : Settled (List Organization)) (s : OrgState)
      → IsSynced parse s.session
      → IsSynced parse (load_settled r s).session
  unfolding load_settled
  load_settled-IsSynced (rejected _) s h = h
  load_settled-IsSynced (fulfilled orgs) s h = select-IsSynced _ orgs _ h

  settle_on-IsSynced :
      (xs : List Organization) (s : OrgState)
      → IsSynced parse s.session
      → IsSynced parse (settle_on xs s).session
  unfolding settle_on
  settle_on-IsSynced [] s h =
      store-IsSynced parse s.session _ (simp storage_laws) (simp storage_laws) h
  settle_on-IsSynced (o ∷ xs) s h = store_org-IsSynced o.id s.session h

-- The value of the header for a token.
abbrev pub bearer_of : Option String → Option String
bearer_of none = none
bearer_of (some token) = if truthy? (some token) then some (concat "Bearer " token) else none

module _ (parse : String → Option AuthUser) (stringify : AuthUser → String)
    (back : (u : AuthUser) → parse (stringify u) ≡ some u)
    (shown : (u : AuthUser) → stringify u ≢ "") where
  Step-IsSynced :
      {s t : OrgState}
      → Step parse stringify s t
      → IsSynced parse s.session
      → IsSynced parse t.session
  unfolding switch_org add_org remove_org
  Step-IsSynced (login s token u) h =
      rw (session-sign_in stringify token u s)
        (set_auth-IsSynced parse stringify u (back u) (shown u) token s.session)
  Step-IsSynced (leave s _) h = rw (session-sign_out s) (logout-IsSynced parse s.session)
  Step-IsSynced (loaded s r _) h = load_settled-IsSynced parse r s h
  Step-IsSynced (switched s o _) h = store_org-IsSynced parse o.id s.session h
  Step-IsSynced (added s o) h = store_org-IsSynced parse o.id s.session h
  Step-IsSynced (removed s id) h = settle_on-IsSynced parse _ s h

  Reach-IsSynced : {s : OrgState} → Reach parse stringify s → IsSynced parse s.session
  unfolding on_authenticated initial
  Reach-IsSynced (start local) = ground (arith, initial-IsSynced parse local)
  Reach-IsSynced (later r st) = Step-IsSynced st (Reach-IsSynced r)

  -- In every reachable state a reload of the page builds the same session again, if `JSON.parse`
  -- reads back what `JSON.stringify` writes of a user, and that is never empty.
  pub reload-session : {s : OrgState} → Reach parse stringify s → initial parse s.local ≡ s.session
  reload-session {s} r = initial_of_IsSynced parse s.session (Reach-IsSynced r)

  -- In every reachable state a request with credentials carries the token of the session as a bearer
  -- token if there is one that is not empty, and no `Authorization` otherwise, if `JSON.parse` reads
  -- back what `JSON.stringify` writes of a user, and that is never empty.
  pub authorization-session :
      {s : OrgState}
      → Reach parse stringify s
      → get_item (headers_of s.local true) "Authorization" ≡ bearer_of s.token
  unfolding headers_of get_item get_initial_token
  authorization-session {s} r = ground (arith, Reach-IsSynced r)
