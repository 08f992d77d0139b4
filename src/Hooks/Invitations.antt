-- ===== src/Hooks/Invitations.antt =====
-- web/src/features/dashboard/hooks/use-invitations.ts
pub mod Laws
use chis.Base.{
  ℕ, suc, String, ◌≡◌, refl, Bool, true, false, not, Option, none, some, List, [], ◌∷◌, ◌++◌, ◌==◌,
  if◌then◌else◌,
}
use chis.Base.Array
use chis.Net.{Settled, fulfilled, rejected}
use chis.Effect.{Loader}
use chis.Hooks.Message.{message_of}
use chis.Api.Types.{Invitation}

pub record InvitationsState : Type 0 where
  pub invitations : List Invitation
  pub is_loading : Bool
  pub is_sending : Bool
  pub error : Option String

abbrev pub initial : InvitationsState
initial = record { invitations = []; is_loading = true; is_sending = false; error = none }

unfoldable pub load_begin : InvitationsState → InvitationsState
load_begin s = record s { is_loading = true; error = none }

load_outcome : Bool → Settled (List Invitation) → InvitationsState → InvitationsState
load_outcome cancelled (fulfilled answer) s =
    if not cancelled then record s { invitations = answer } else s
load_outcome cancelled (rejected e) s =
    if not cancelled then record s { error = some (message_of e) } else s

-- `finally`
load_finally : Bool → InvitationsState → InvitationsState
load_finally cancelled s = if not cancelled then record s { is_loading = false } else s

unfoldable pub load_settled : Bool → Settled (List Invitation) → InvitationsState → InvitationsState
unfolding load_outcome load_finally
load_settled cancelled r s = load_finally cancelled (load_outcome cancelled r s)

pub load_stale : (r : Settled (List Invitation)) (s : InvitationsState) → load_settled true r s ≡ s
unfolding load_settled
load_stale (fulfilled _) s = refl
load_stale (rejected _) s = refl

-- The effect of the hook; with no organization it does nothing.
abbrev pub loader : Loader InvitationsState (List Invitation)
loader = record { absent = λ s. s; begin = load_begin; finish = load_settled; stale = load_stale }

unfoldable pub send_invitation_begin : InvitationsState → InvitationsState
send_invitation_begin s = record s { is_sending = true; error = none }

send_invitation_outcome : Settled Invitation → InvitationsState → InvitationsState
send_invitation_outcome (fulfilled invitation) s = record s {
  invitations = invitation ∷ s.invitations;
}
send_invitation_outcome (rejected e) s = record s { error = some (message_of e) }

unfoldable pub send_invitation_settled : Settled Invitation → InvitationsState → InvitationsState
unfolding send_invitation_outcome
send_invitation_settled r s = record (send_invitation_outcome r s) { is_sending = false }

unfoldable pub cancel_inv_begin : InvitationsState → InvitationsState
cancel_inv_begin s = record s { error = none }

unfoldable pub cancel_inv_settled :
    {A : Type 0} → String → Settled A → InvitationsState → InvitationsState
cancel_inv_settled id (fulfilled _) s = record s {
  invitations = Array.filter (λ inv. not (inv.id == id)) s.invitations;
}
cancel_inv_settled id (rejected e) s = record s { error = some (message_of e) }
