-- ===== src/Parts/LogDetailView/Codes.antt =====
-- What the panel of a log shows of its attempts and while it loads.
use mathlib.Core.List.{append-nil}
use chis.Base.{
  ℕ, ◌≤◌, String, ◌≡◌, refl, ap, Bool-cases, inl, inr, Option, none, some, List, [], ◌∷◌, ◌++◌,
  arith, ◌&&◌, leb, ltb,
}
use chis.Api.Types.{DeliveryAttemptDetail}
use chis.View.{View, badge}
use chis.Parts.LogDetailView.{status_code_badge, attempt_card, duration, text_if, response_body}

-- The badges of a view, in order.
abbrev pub badges : {E : Type 0} → View E → List String
badges [] = []
badges (badge variant _ ∷ v) = variant ∷ badges v
badges (_ ∷ v) = badges v

badges-append : {E : Type 0} (v w : View E) → badges (v ++ w) ≡ badges v ++ badges w
badges-append [] w = refl
badges-append (badge b _ ∷ v) w = ap (λ bs. b ∷ bs) (badges-append v w)
badges-append (_ ∷ v) w = badges-append v w

-- The codes of success.
abbrev pub IsSuccess : ℕ → Type 0
IsSuccess code = (200 ≤ code) × (code ≤ 299)

-- What the badges of an attempt say of its status.
pub data Verdict : Option ℕ → List String → Type 0 where
  unanswered : Verdict none []
  success : (code : ℕ) → IsSuccess code → Verdict (some code) ("default" ∷ [])
  failure : (code : ℕ) → (IsSuccess code → ⊥) → Verdict (some code) ("destructive" ∷ [])

module _ {J : Type 0} (parse : String → Option J) (pretty : J → String) (print : ℕ → String)
    (date : String → String) where
  badges-duration : (d : Option ℕ) → badges (duration parse pretty print date d) ≡ []
  unfolding duration
  badges-duration none = refl
  badges-duration (some d) = refl

  badges-text_if : (t : Option String) → badges (text_if parse pretty print date t) ≡ []
  unfolding text_if
  badges-text_if none = refl
  badges-text_if (some t) = ground arith

  badges-response_body : (t : Option String) → badges (response_body parse pretty print date t) ≡ []
  unfolding response_body
  badges-response_body none = refl
  badges-response_body (some t) = ground arith

  status-Verdict : (code : Option ℕ) → Verdict code (badges (status_code_badge print code))
  unfolding status_code_badge
  status-Verdict none = unanswered
  status-Verdict (some code) = elim (Bool-cases (leb 200 code && ltb code 300)) [
    | inl e ↦ rw e (success code (ground arith))
    | inr e ↦ rw e (failure code (ground arith))
  ]

  -- The card of an attempt has one badge, which says whether the status is from 200 to 299, and none
  -- if no status came back, whatever else the attempt holds.
  pub attempt_card-Verdict :
      (a : DeliveryAttemptDetail)
      → Verdict a.status_code (badges (attempt_card parse pretty print date a))
  unfolding attempt_card
  attempt_card-Verdict a =
      simp (badges-append, badges-duration, badges-text_if, badges-response_body, append-nil)
        (status-Verdict a.status_code)
