-- ===== src/Hooks/Invitations/Laws.antt =====
-- What sending and cancelling an invitation do to the list.
use chis.Base.{String, ◌≡◌, ◌≢◌, true, not, Option, none, some, ◌==◌, arith, eq_iff, eq_refl}
use chis.Base.Array
use chis.Net.{Settled, fulfilled}
use chis.Api.Types.{Invitation}
use chis.Hooks.Invitations.{
  InvitationsState, send_invitation_begin, send_invitation_settled, cancel_inv_begin,
  cancel_inv_settled,
}

abbrev pub send : Settled Invitation → InvitationsState → InvitationsState
send r s = send_invitation_settled r (send_invitation_begin s)

abbrev pub cancel : {A : Type 0} → String → Settled A → InvitationsState → InvitationsState
cancel id r s = cancel_inv_settled id r (cancel_inv_begin s)

abbrev pub shown : String → InvitationsState → Option Invitation
shown id s = Array.find (λ i. i.id == id) s.invitations

not_same :
    (id j : String) → j ≢ id → (i : Invitation) → (i.id == j) ≡ true → not (i.id == id) ≡ true
not_same id j h i e = ground (arith, eq_iff i.id j, eq_iff i.id id)

-- Whatever an id shows after an invitation is sent and another one is cancelled: the one that was
-- sent under its id, nothing under the id that was cancelled, and what it showed before under any
-- other; the order of the two does not matter, if the ids differ.
pub shown-cancel-send :
    {A : Type 0} (a : A) (inv : Invitation) (id j : String) (s : InvitationsState)
    → inv.id ≢ id
    → j ≢ id
    → j ≢ inv.id
    → (shown inv.id (cancel id (fulfilled a) (send (fulfilled inv) s)) ≡ some inv)
      × (shown id (cancel id (fulfilled a) (send (fulfilled inv) s)) ≡ none)
      × (shown j (cancel id (fulfilled a) (send (fulfilled inv) s)) ≡ shown j s)
      × (cancel id (fulfilled a) (send (fulfilled inv) s)
          ≡ send (fulfilled inv) (cancel id (fulfilled a) s))
unfolding send_invitation_settled send_invitation_begin cancel_inv_settled cancel_inv_begin
shown-cancel-send a inv id j s h n k = (
  ground (arith, eq_iff inv.id id, eq_refl inv.id),
  ground (arith, eq_iff inv.id id, Array.find-filter-not (λ i. i.id == id) s.invitations),
  ground (
    arith,
    eq_iff inv.id id,
    eq_iff inv.id j,
    Array.find-filter (λ i. not (i.id == id)) (λ i. i.id == j) s.invitations (not_same id j n),
  ),
  ground (arith, eq_iff inv.id id),
)
