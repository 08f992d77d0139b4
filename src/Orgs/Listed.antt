-- ===== src/Orgs/Listed.antt =====
-- The selected organization is one of those that the menu lists.
use chis.Base.{
  String, ◌≡◌, refl, ◌≢◌, true, Bool, Option, none, some, List, [], ◌∷◌, ◌++◌, arith, eq_refl,
}
use chis.Base.Array
use chis.Net.{Settled, fulfilled, rejected, selected_org_key}
use chis.Net.LocalStorage.{get_item}
use chis.Api.Types.{AuthUser, Organization}
use chis.Session.{set_auth, logout}
use chis.Orgs.{
  OrgState, has_id, matches, select, on_authenticated, load_settled, switch_org, add_org, settle_on,
  remove_org, sign_in, sign_out,
}
use chis.Orgs.Steps.{Step, Reach, login, leave, loaded, switched, added, removed, start, later}

-- A load that answers no organization leaves the selection alone.
abbrev pub IsListed : OrgState → Type 0
IsListed s =
    (o : Organization)
    → s.current_org ≡ some o
    → s.organizations ≢ []
    → Array.any (has_id o.id) s.organizations ≡ true

any-last :
    (p : Organization → Bool) (xs : List Organization) (o : Organization)
    → p o ≡ true
    → Array.any p (xs ++ o ∷ []) ≡ true
any-last p [] o h = ground arith
any-last p (x ∷ xs) o h = ground (arith, any-last p xs o h)

switch_org-IsListed :
    (o : Organization) (s : OrgState)
    → Array.find (has_id o.id) s.organizations ≡ some o
    → IsListed (switch_org o s)
unfolding switch_org
switch_org-IsListed o s h x e _ = ground (arith, Array.any-find (has_id o.id) s.organizations o h)

add_org-IsListed : (o : Organization) (s : OrgState) → IsListed (add_org o s)
unfolding add_org
add_org-IsListed o s x e _ = ground (arith, any-last (has_id o.id) s.organizations o (eq_refl o.id))

settle_on-IsListed : (xs : List Organization) (s : OrgState) → IsListed (settle_on xs s)
unfolding settle_on
settle_on-IsListed [] s x e _ = cc
settle_on-IsListed (o ∷ xs) s x e _ = ground (arith, eq_refl o.id)

remove_org-IsListed : (id : String) (s : OrgState) → IsListed (remove_org id s)
unfolding remove_org
remove_org-IsListed id s = settle_on-IsListed _ s

select-IsListed :
    (found : Option Organization) (orgs : List Organization) (s : OrgState)
    → s.organizations ≡ orgs
    → ((o : Organization) → found ≡ some o → Array.any (has_id o.id) orgs ≡ true)
    → IsListed (select found orgs s)
unfolding select
select-IsListed (some o) orgs s same h x e _ = ground (arith, h o refl)
select-IsListed none [] s same h x e ne = absurd (ne same)
select-IsListed none (o ∷ orgs) s same h x e _ = ground (arith, eq_refl o.id)

matches-has_id :
    (stored : Option String) (orgs : List Organization) (o : Organization)
    → Array.find (matches stored) orgs ≡ some o
    → Array.any (has_id o.id) orgs ≡ true
matches-has_id stored (p ∷ orgs) o h = ground (arith, matches-has_id stored orgs o, eq_refl o.id)
matches-has_id stored [] o h = cc

load_settled-IsListed :
    (r : Settled (List Organization)) (s : OrgState) → IsListed s → IsListed (load_settled r s)
unfolding load_settled
load_settled-IsListed (rejected _) s k = k
load_settled-IsListed (fulfilled orgs) s k =
    select-IsListed (Array.find (matches (get_item s.local selected_org_key)) orgs) orgs _ refl
      (λ o e. matches-has_id (get_item s.local selected_org_key) orgs o e)

module _ {parse : String → Option AuthUser} {stringify : AuthUser → String} where
  Step-IsListed : {s t : OrgState} → Step parse stringify s t → IsListed s → IsListed t
  unfolding sign_in sign_out set_auth logout
  Step-IsListed (login s token u) k = λ x e n. ground (arith, k x)
  Step-IsListed (leave s h) k = λ x e n. ground arith
  Step-IsListed (loaded s r h) k = load_settled-IsListed r s k
  Step-IsListed (switched s o h) k = switch_org-IsListed o s h
  Step-IsListed (added s o) k = add_org-IsListed o s
  Step-IsListed (removed s id) k = remove_org-IsListed id s

  Reach-IsListed : {s : OrgState} → Reach parse stringify s → IsListed s
  unfolding on_authenticated
  Reach-IsListed (start local) = λ x e n. ground arith
  Reach-IsListed (later r st) = Step-IsListed st (Reach-IsListed r)

  -- In every reachable state whose list of organizations is not empty, the selected organization has
  -- the id of one of them.
  pub current_org-listed :
      {s : OrgState} {o : Organization}
      → Reach parse stringify s
      → s.current_org ≡ some o
      → s.organizations ≢ []
      → Array.any (has_id o.id) s.organizations ≡ true
  current_org-listed {o} r e n = Reach-IsListed r o e n
