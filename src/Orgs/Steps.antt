-- ===== src/Orgs/Steps.antt =====
-- What the application lets happen to the two contexts, in any order: the steps and the reachable
-- states.
use chis.Base.{String, ◌≡◌, ◌<◌, true, Option, some, List}
use chis.Base.Array
use chis.Net.{Settled}
use chis.Net.LocalStorage.{Storage}
use chis.Api.Types.{AuthUser, Organization}
use chis.Session.{initial, is_authenticated}
use chis.Orgs.{
  OrgState, mounted, has_id, on_authenticated, load_settled, switch_org, add_org, remove_org,
  sign_in, sign_out,
}

module _ (parse : String → Option AuthUser) (stringify : AuthUser → String) where
  pub data Step : OrgState → OrgState → Type 0 where
    -- `login` settles a request of its own, whoever is signed in by then.
    login : (s : OrgState) (token : String) (u : AuthUser) → Step s (sign_in stringify token u s)
    -- The button is shown to a signed-in user only.
    leave : (s : OrgState) → is_authenticated s.session ≡ true → Step s (sign_out s)
    loaded :
        (s : OrgState) (r : Settled (List Organization)) → 0 < s.loading → Step s (load_settled r s)
    -- The menu lists the organizations of the state.
    switched :
        (s : OrgState) (o : Organization)
        → Array.find (has_id o.id) s.organizations ≡ some o
        → Step s (switch_org o s)
    added : (s : OrgState) (o : Organization) → Step s (add_org o s)
    removed : (s : OrgState) (id : String) → Step s (remove_org id s)

  -- From a page load on any storage.
  pub data Reach : OrgState → Type 0 where
    start : (local : Storage) → Reach (on_authenticated (mounted (initial parse local)))
    later : {s t : OrgState} → Reach s → Step s t → Reach t
