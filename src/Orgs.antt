-- ===== src/Orgs.antt =====
-- The organizations of the signed-in user: web/src/shared/context/org-context.tsx, together with the
-- session below it. A setter writes its field; an updater that calls other setters makes all of its
-- writes at once; the effect on `isAuthenticated` runs after the action that changed it. `load` is
-- never cancelled: `loading` counts the loads whose request has not settled.
pub mod Steps
pub mod Selected
pub mod Listed
pub mod Credentials
pub mod Removing
pub mod Late
use chis.Base.{
  ℕ, suc, ◌-◌, String, Bool, true, false, not, Option, none, some, List, [], ◌∷◌, ◌++◌, ◌==◌,
  if◌then◌else◌,
}
use chis.Base.Array
use chis.Net.{Settled, fulfilled, rejected, selected_org_key}
use chis.Net.LocalStorage.{get_item, set_item, remove_item}
use chis.Api.Types.{AuthUser, Organization}
use chis.Session
use chis.Session.{Session, is_authenticated}

pub record OrgState : Type 0 where
  pub session : Session
  pub open session use *
  pub organizations : List Organization
  pub current_org : Option Organization
  pub loading : ℕ

-- The provider when it mounts, before its effect.
abbrev pub mounted : Session → OrgState
mounted s = record { session = s; organizations = []; current_org = none; loading = 0 }

-- localStorage.setItem(SELECTED_ORG_KEY, id)
abbrev pub store_org : String → Session → Session
store_org id s = record s { local = set_item s.local selected_org_key id }

abbrev pub has_id : String → Organization → Bool
has_id id o = o.id == id

-- `o.id === storedId`, false if nothing is stored
matches : Option String → Organization → Bool
matches none o = false
matches (some id) o = o.id == id

-- The first organization, if no stored one was found.
choose_first : List Organization → OrgState → OrgState
choose_first [] s = s
choose_first (o ∷ _) s = record s { session = store_org o.id s.session; current_org = some o }

select : Option Organization → List Organization → OrgState → OrgState
unfolding choose_first
select (some o) orgs s = record s { current_org = some o }
select none orgs s = choose_first orgs s

-- The continuation of `load` when its request has settled.
unfoldable pub load_settled : Settled (List Organization) → OrgState → OrgState
unfolding select matches
load_settled (fulfilled orgs) s =
    let t = record s { organizations = orgs; loading = s.loading - 1 } in
    select (Array.find (matches (get_item s.local selected_org_key)) orgs) orgs t
load_settled (rejected _) s = record s { loading = s.loading - 1 }

-- The effect on `isAuthenticated`.
unfoldable pub on_authenticated : OrgState → OrgState
on_authenticated s =
    if not (is_authenticated s.session)
    then record s { organizations = []; current_org = none }
    else record s { loading = suc s.loading }

unfoldable pub switch_org : Organization → OrgState → OrgState
switch_org org s = record s { session = store_org org.id s.session; current_org = some org }

unfoldable pub add_org : Organization → OrgState → OrgState
add_org org s = record s {
  session = store_org org.id s.session;
  organizations = s.organizations ++ org ∷ [];
  current_org = some org;
}

settle_on : List Organization → OrgState → OrgState
settle_on [] s = record s {
  session = record s.session { local = remove_item s.session.local selected_org_key };
  organizations = [];
  current_org = none;
}
settle_on (o ∷ rest) s = record s {
  session = store_org o.id s.session;
  organizations = o ∷ rest;
  current_org = some o;
}

unfoldable pub remove_org : String → OrgState → OrgState
unfolding settle_on
remove_org org_id s = settle_on (Array.filter (λ o. not (o.id == org_id)) s.organizations) s

-- An action on the session, and the effect if it changed `isAuthenticated`.
abbrev same : Bool → Bool → Bool
same true b = b
same false b = not b

after_session : Session → OrgState → OrgState
unfolding on_authenticated
after_session t s =
    let u = record s { session = t } in
    if same (is_authenticated s.session) (is_authenticated t) then u else on_authenticated u

unfoldable pub sign_in : (AuthUser → String) → String → AuthUser → OrgState → OrgState
unfolding after_session
sign_in stringify token user s = after_session (Session.set_auth stringify token user s.session) s

unfoldable pub sign_out : OrgState → OrgState
unfolding after_session
sign_out s = after_session (Session.logout s.session) s
