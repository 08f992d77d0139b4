-- ===== src/Pages/ApiKeysPage/Offers.antt =====
-- What the page of keys lets its user do.
use chis.Base.{
  String, ◌≡◌, refl, ap, Bool-cases, inl, inr, Option, none, some, List, [], ◌∷◌, ◌++◌, map, arith,
  not, ◌&&◌, is_some, if◌then◌else◌,
}
use chis.Api.Types.{ApiKey, CreateApiKeyResponse}
use chis.View.{confirms, confirms-append, clicks, clicks-append}
use chis.Pages.ApiKeysPage.{
  ApiKeysPageState, ApiKeysAction, revoke, copy, clear, submit, handle_create, key_card, key_list,
  error_banner, view,
}

confirms-key_list :
    (date : String → String) (ks : List ApiKey)
    → confirms (key_list date ks) ≡ map (λ k. revoke k.id) ks
unfolding key_list
confirms-key_list date [] = refl
confirms-key_list date (k ∷ []) = refl
confirms-key_list date (k ∷ j ∷ ks) = ap (λ es. revoke k.id ∷ es) (confirms-key_list date (j ∷ ks))

confirms-error_banner : (e : Option String) → confirms (error_banner e) ≡ []
unfolding error_banner
confirms-error_banner none = refl
confirms-error_banner (some e) = ground arith

confirms-key_card : (r : Option CreateApiKeyResponse) → confirms (key_card r) ≡ []
unfolding key_card
confirms-key_card none = refl
confirms-key_card (some r) = refl

-- The page offers to revoke each key of the list once, in the order of the list, and nothing else
-- that is to be confirmed; while the list loads it offers none.
pub confirms-view :
    (date : String → String) (s : ApiKeysPageState)
    → confirms (view date s) ≡ (if s.is_loading then [] else map (λ k. revoke k.id) s.api_keys)
unfolding view
confirms-view date s = elim (Bool-cases s.is_loading) [
  | inl e ↦ simp (confirms-append, confirms-error_banner, confirms-key_card, e)
  | inr e ↦ simp (confirms-append, confirms-error_banner, confirms-key_card, e, confirms-key_list)
]

clicks-key_list : (date : String → String) (ks : List ApiKey) → clicks (key_list date ks) ≡ []
unfolding key_list
clicks-key_list date [] = refl
clicks-key_list date (k ∷ []) = refl
clicks-key_list date (k ∷ j ∷ ks) = clicks-key_list date (j ∷ ks)

clicks-error_banner : (e : Option String) → clicks (error_banner e) ≡ []
unfolding error_banner
clicks-error_banner none = refl
clicks-error_banner (some e) = ground arith

-- The card of a new key has two buttons.
abbrev pub card_clicks : Option CreateApiKeyResponse → List ApiKeysAction
card_clicks none = []
card_clicks (some _) = copy ∷ clear ∷ []

clicks-key_card : (r : Option CreateApiKeyResponse) → clicks (key_card r) ≡ card_clicks r
unfolding key_card
clicks-key_card none = refl
clicks-key_card (some r) = refl

-- The buttons that work: those of the card while a new key is on display, and the one that creates a
-- key exactly when no creation is under way and `handleCreate` would call the server.
pub clicks-view :
    (date : String → String) (s : ApiKeysPageState)
    → clicks (view date s)
      ≡ card_clicks s.newly_created_key
        ++ (if not s.is_creating && is_some (handle_create s) then submit ∷ [] else [])
unfolding view handle_create
clicks-view date s = elim (Bool-cases s.is_loading) [
  | inl e ↦
      simp (clicks-append, clicks-error_banner, clicks-key_card, e)
        (ap (λ es. card_clicks s.newly_created_key ++ es) (ground arith))
  | inr e ↦
      simp (clicks-append, clicks-error_banner, clicks-key_card, e, clicks-key_list)
        (ap (λ es. card_clicks s.newly_created_key ++ es) (ground arith))
]
