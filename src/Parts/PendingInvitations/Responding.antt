-- ===== src/Parts/PendingInvitations/Responding.antt =====
-- How the dialog of pending invitations is answered.
use chis.Base.{
  String, is_some, ◌≡◌, refl, ap, Bool, true, false, not, some, List, [], ◌∷◌, ◌++◌, ◌==◌, arith,
  if◌then◌else◌, inl, inr, eq_refl,
}
use chis.Base.Array
use chis.Net.{fulfilled}
use chis.Net.LocalStorage.{set_item}
use chis.Orgs.{OrgState, add_org}
use chis.Api.Types.{PendingInvitation, AcceptInvitationResponse, Organization}
use chis.Api.Invitations.{Action, accept, decline}
use chis.View.{clicks, each}
use chis.Parts.PendingInvitations.{
  PendingState, PendingAction, respond, respond_begin, respond_settled, keep, join, card, view,
  set_loading,
}

-- The answers that are still to be given.
abbrev pub answers : (String → Bool) → List PendingInvitation → List PendingAction
answers loading [] = []
answers loading (i ∷ is) =
    let rest = answers loading is in
    if loading i.id then rest else respond i.id decline ∷ respond i.id accept ∷ rest

clicks-cards :
    (loading : String → Bool) (is : List PendingInvitation)
    → clicks (each (card loading) is) ≡ answers loading is
unfolding card
clicks-cards loading [] = refl
clicks-cards loading (i ∷ is) = ground (arith, clicks-cards loading is)

-- An open dialog offers to decline and to accept each invitation of the list that is not being
-- answered, in the order of the list, and a closed one offers nothing.
pub clicks-pending :
    (s : PendingState)
    → clicks (view s) ≡ (if s.is_open then answers s.loading s.invitations else [])
unfolding view
clicks-pending s = elim (Array.nil-cases s.invitations) [
  | inl e ↦ rw e (ground arith)
  | inr (i, is, e) ↦ rw e (ground (arith, clicks-cards s.loading (i ∷ is)))
]

pub keep_lem :
    (xs : List PendingInvitation) (s : PendingState)
    → ((keep xs s).invitations ≡ xs)
      × ((keep xs s).is_open
          ≡ (if is_some (Array.head? (keep xs s).invitations) then s.is_open else false))
      × ((keep xs s).orgs ≡ s.orgs)
      × ((keep xs s).loading ≡ s.loading)
unfolding keep
keep_lem [] s = (refl, refl, refl, refl)
keep_lem (x ∷ xs) s = (refl, refl, refl, refl)

-- What an answer that the server took leaves of a state: every other invitation, in order, and an open
-- dialog only if there is one.
pub record Answered (id : String) (s t : PendingState) : Type 0 where
  pub left : t.invitations ≡ Array.filter (λ inv. not (inv.id == id)) s.invitations
  pub shown : t.is_open ≡ (if is_some (Array.head? t.invitations) then s.is_open else false)
  pub idle : t.loading id ≡ false

-- What an answer does to the organizations: the one that was accepted is listed last and selected, in
-- the state and in the storage; to decline changes nothing.
abbrev pub Enters : Action → AcceptInvitationResponse → OrgState → OrgState → Type 0
Enters accept d s t =
    let org : Organization = record {
      id = d.org_id;
      name = d.org_name;
      slug = d.org_slug;
      role = d.role;
    } in
    (t.organizations ≡ s.organizations ++ org ∷ [])
    × (t.current_org ≡ some org)
    × (t.session ≡ record s.session { local = set_item s.session.local "selected_org" d.org_id })
Enters decline d s t = t ≡ s

joined :
    (action : Action) (d : AcceptInvitationResponse) (s t : OrgState)
    → t ≡ join action d s
    → Enters action d s t
unfolding join add_org
joined accept d s t e =
    (ap (λ u. u.organizations) e, ap (λ u. u.current_org) e, ap (λ u. u.session) e)
joined decline d s t e = e

-- An answer that the server took leaves the other invitations, closes the dialog if there are none and
-- ends the loading of its own, and joins the organization if it was accepted: the organization of the
-- server's answer is listed after the others and selected, in the state and in the storage. If it was
-- declined, the organizations are as before.
pub respond_settled-Answered :
    (id : String) (action : Action) (d : AcceptInvitationResponse) (s : PendingState)
    → Answered id s (respond_settled id action (fulfilled d) (respond_begin id s))
      × Enters action d s.orgs (respond_settled id action (fulfilled d) (respond_begin id s)).orgs
unfolding respond_settled respond_begin
respond_settled-Answered id action d s =
    let (left, shown, orgs, _) =
      keep_lem (Array.filter (λ inv. not (inv.id == id)) s.invitations)
        (record s { orgs = join action d s.orgs; loading = set_loading id true s.loading }) in
    (
      record { left = left; shown = shown; idle = ground (arith, eq_refl id) },
      joined action d s.orgs _ orgs,
    )
