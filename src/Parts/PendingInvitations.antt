-- ===== src/Parts/PendingInvitations.antt =====
-- web/src/features/dashboard/components/pending-invitations-dialog.tsx. The state `loading` is a map
-- from ids, in which a missing key reads as `undefined`. An answer is given together with the
-- organization that `addOrg` is called with.
pub mod Responding
pub mod Together
use chis.Base.{
  String, Bool, true, false, not, Option, none, some, List, [], ◌∷◌, ◌++◌, ◌==◌, if◌then◌else◌, ◌≡◌,
  refl,
}
use chis.Base.Array
use chis.Base.Text.{concat}
use chis.Net.{Settled, fulfilled, rejected}
use chis.Api.Types.{PendingInvitation, AcceptInvitationResponse, Organization}
use chis.Api.Invitations.{Action, accept, decline}
use chis.Effect.{Loader}
use chis.Orgs.{OrgState, add_org}
use chis.View.{View, Widget, heading, text, button, each}

pub record PendingState : Type 0 where
  pub orgs : OrgState
  pub invitations : List PendingInvitation
  pub is_open : Bool
  pub loading : String → Bool

pub data PendingAction : Type 0 where
  respond : String → Action → PendingAction
  dialog_changed : Bool → PendingAction

abbrev pub initial : OrgState → PendingState
initial orgs = record { orgs = orgs; invitations = []; is_open = false; loading = λ _. false }

-- `{ ...prev, [id]: b }`
abbrev pub set_loading : String → Bool → (String → Bool) → String → Bool
set_loading id b loading j = if j == id then b else loading j

-- The continuation of `load`.
unfoldable pub load_settled : Bool → Settled (List PendingInvitation) → PendingState → PendingState
load_settled cancelled (rejected _) s = s
load_settled cancelled (fulfilled []) s = s
load_settled cancelled (fulfilled (i ∷ is)) s =
    if not cancelled then record s { invitations = i ∷ is; is_open = true } else s

pub load_stale :
    (r : Settled (List PendingInvitation)) (s : PendingState) → load_settled true r s ≡ s
unfolding load_settled
load_stale (fulfilled []) s = refl
load_stale (fulfilled (i ∷ is)) s = refl
load_stale (rejected _) s = refl

-- The effect of the dialog, which has no dependencies and sets nothing before it loads.
abbrev pub loader : Loader PendingState (List PendingInvitation)
loader = record { absent = λ s. s; begin = λ s. s; finish = load_settled; stale = load_stale }

-- The organization that an accepted invitation is for.
abbrev pub org_of : AcceptInvitationResponse → Organization
org_of d = record { id = d.org_id; name = d.org_name; slug = d.org_slug; role = d.role }

unfoldable pub join : Action → AcceptInvitationResponse → OrgState → OrgState
join accept d orgs = add_org (org_of d) orgs
join decline d orgs = orgs

-- The updater of `setInvitations`, with what it sets.
unfoldable pub keep : List PendingInvitation → PendingState → PendingState
keep [] s = record s { invitations = []; is_open = false }
keep (i ∷ is) s = record s { invitations = i ∷ is }

drop : String → PendingState → PendingState
unfolding keep
drop id s = keep (Array.filter (λ inv. not (inv.id == id)) s.invitations) s

respond_outcome : String → Action → Settled AcceptInvitationResponse → PendingState → PendingState
unfolding join drop
respond_outcome id action (fulfilled d) s = drop id (record s { orgs = join action d s.orgs })
respond_outcome id action (rejected _) s = s

-- `handleRespond`, cut at its `await`.
unfoldable pub respond_begin : String → PendingState → PendingState
respond_begin id s = record s { loading = set_loading id true s.loading }

unfoldable pub respond_settled :
    String → Action → Settled AcceptInvitationResponse → PendingState → PendingState
unfolding respond_outcome
respond_settled id action r s0 =
    let s = respond_outcome id action r s0 in record s { loading = set_loading id false s.loading }

card : (String → Bool) → PendingInvitation → View PendingAction
card loading inv =
    text inv.org_name
    ∷ text (concat "Role: " inv.role)
    ∷ button "Decline" (loading inv.id) (respond inv.id decline)
    ∷ button "Accept" (loading inv.id) (respond inv.id accept)
    ∷ []

-- What the dialog shows if it is open.
unfoldable pub view : PendingState → View PendingAction
unfolding card
view s = elim s.invitations [
  | [] ↦ []
  | (i ∷ is) ↦
      if s.is_open
      then heading "Pending invitations"
        ∷ text "You have been invited to join the following organizations."
        ∷ each (card s.loading) (i ∷ is)
      else []
]
