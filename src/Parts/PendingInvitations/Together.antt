-- ===== src/Parts/PendingInvitations/Together.antt =====
-- Two pending invitations that are answered at the same time.
use chis.Base.{
  String, ◌≡◌, refl, ap, ◌∙◌, Bool, false, not, ◌&&◌, is_some, List, [], ◌∷◌, ◌==◌, arith, eq_refl,
  if◌then◌else◌,
}
use chis.Base.Array
use chis.Net.{fulfilled}
use chis.Api.Types.{PendingInvitation, AcceptInvitationResponse}
use chis.Api.Invitations.{Action}
use chis.Parts.PendingInvitations.{PendingState, respond_begin, respond_settled, set_loading, join}
use chis.Parts.PendingInvitations.Responding.{keep_lem}

abbrev others : String → List PendingInvitation → List PendingInvitation
others id = Array.filter (λ inv. not (inv.id == id))

-- Those that neither answer is for.
abbrev pub neither : String → String → List PendingInvitation → List PendingInvitation
neither i j = Array.filter (λ inv. not (inv.id == i) && not (inv.id == j))

others-others :
    (i j : String) (is : List PendingInvitation) → others j (others i is) ≡ neither i j is
others-others i j [] = refl
others-others i j (inv ∷ is) = ground (arith, others-others i j is)

-- The dialog does not open again: a list that is left is left of one that was there.
still_open :
    (id : String) (is : List PendingInvitation) (was : Bool)
    → (if is_some (Array.head? (others id is))
        then (if is_some (Array.head? is) then was else false)
        else false)
      ≡ (if is_some (Array.head? (others id is)) then was else false)
still_open id [] was = refl
still_open id (inv ∷ is) was = refl

settled_lists :
    (id : String) (a : Action) (d : AcceptInvitationResponse) (s : PendingState)
    → let t = respond_settled id a (fulfilled d) s in
      (t.invitations ≡ others id s.invitations)
      × (t.is_open ≡ (if is_some (Array.head? t.invitations) then s.is_open else false))
      × ((j : String) → t.loading j ≡ set_loading id false s.loading j)
unfolding respond_settled
settled_lists id a d s =
    let (left, shown, _, same) =
      keep_lem (others id s.invitations) (record s { orgs = join a d s.orgs }) in
    (left, shown, λ j. ap (λ l. set_loading id false l j) same)

-- Two invitations that are answered at the same time, and whose answers the server takes, one after
-- the other: those that neither answer was for are left, the dialog closes if there are none, and both
-- are idle again.
pub respond_settled-respond_settled :
    (i j : String) (a b : Action) (d e : AcceptInvitationResponse) (s : PendingState)
    → let t =
        respond_settled j b
          (fulfilled e)
          (respond_settled i a (fulfilled d) (respond_begin j (respond_begin i s))) in
      (t.invitations ≡ neither i j s.invitations)
      × (t.is_open ≡ (if is_some (Array.head? t.invitations) then s.is_open else false))
      × (t.loading i ≡ false)
      × (t.loading j ≡ false)
unfolding respond_begin
respond_settled-respond_settled i j a b d e s =
    let s' = respond_begin j (respond_begin i s) in
    let m = respond_settled i a (fulfilled d) s' in
    let (left, shown, load) = settled_lists i a d s' in
    let (left', shown', load') = settled_lists j b e m in
    let all = left' ∙ ap (others j) left ∙ others-others i j s.invitations in
    (
      all,
      shown' ∙ rw (left', shown) (still_open j m.invitations s.is_open),
      ground (arith, load' i, load i, eq_refl i),
      ground (arith, load' j, eq_refl j),
    )
