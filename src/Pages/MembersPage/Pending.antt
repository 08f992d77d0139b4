-- ===== src/Pages/MembersPage/Pending.antt =====
-- Which invitations the page lets its user cancel.
use chis.Base.{
  String, ◌≡◌, refl, Bool, ◌∙◌, Bool-cases, inl, inr, Option, none, some, List, [], ◌∷◌, ◌++◌, ◌==◌,
  map, arith, not, ◌&&◌, is_some, if◌then◌else◌,
}
use chis.Base.Array
use chis.Api.Types.{Invitation}
use chis.View.{View, confirms, confirms-append, clicks, clicks-append, each}
use chis.Pages.MembersPage.{
  MembersPageState, MembersAction, submit, cancel_inv, handle_send, invitation_row, invitation_list,
  error_banner, view,
}

abbrev pub is_pending : Invitation → Bool
is_pending i = i.status == "pending"

row-append :
    (date : String → String) (i : Invitation) (v : View MembersAction)
    → confirms (invitation_row date i ++ v)
      ≡ (if is_pending i then cancel_inv i.id ∷ confirms v else confirms v)
unfolding invitation_row
row-append date i v = elim (Bool-cases (is_pending i)) [ inl e ↦ rw e | inr e ↦ rw e ]

confirms-rows :
    (date : String → String) (is : List Invitation)
    → confirms (each (invitation_row date) is)
      ≡ map (λ i. cancel_inv i.id) (Array.filter is_pending is)
confirms-rows date [] = refl
confirms-rows date (i ∷ is) =
    row-append date i (each (invitation_row date) is) ∙ ground (arith, confirms-rows date is)

clicks-rows :
    (date : String → String) (is : List Invitation) → clicks (each (invitation_row date) is) ≡ []
unfolding invitation_row
clicks-rows date [] = refl
clicks-rows date (i ∷ is) = elim (Bool-cases (is_pending i)) [
  | inl e ↦ rw e (clicks-rows date is)
  | inr e ↦ rw e (clicks-rows date is)
]

confirms-list :
    (date : String → String) (is : List Invitation)
    → confirms (invitation_list date is) ≡ confirms (each (invitation_row date) is)
unfolding invitation_list
confirms-list date [] = refl
confirms-list date (i ∷ is) = refl

clicks-list :
    (date : String → String) (is : List Invitation)
    → clicks (invitation_list date is) ≡ clicks (each (invitation_row date) is)
unfolding invitation_list
clicks-list date [] = refl
clicks-list date (i ∷ is) = refl

confirms-error_banner : (e : Option String) → confirms (error_banner e) ≡ []
unfolding error_banner
confirms-error_banner none = refl
confirms-error_banner (some e) = ground arith

clicks-error_banner : (e : Option String) → clicks (error_banner e) ≡ []
unfolding error_banner
clicks-error_banner none = refl
clicks-error_banner (some e) = ground arith

-- The page offers to cancel each pending invitation of the list once, in the order of the list, and
-- no other; while the list loads it offers none. Its button works exactly when nothing is being sent
-- and `handleSend` would call the server.
pub offers-view :
    (date : String → String) (s : MembersPageState)
    → (confirms (view date s) ≡ (
        if s.is_loading
        then []
        else map (λ i. cancel_inv i.id) (Array.filter is_pending s.invitations)))
      × (clicks (view date s)
          ≡ (if not s.is_sending && is_some (handle_send s) then submit ∷ [] else []))
unfolding view handle_send
offers-view date s = elim (Bool-cases s.is_loading) [
  | inl e ↦ (
    simp (confirms-append, confirms-error_banner, e),
    simp (clicks-append, clicks-error_banner, e) (ground arith),
  )
  | inr e ↦ (
    simp (confirms-append, confirms-error_banner, e, confirms-list, confirms-rows),
    simp (clicks-append, clicks-error_banner, e, clicks-list, clicks-rows) (ground arith),
  )
]
