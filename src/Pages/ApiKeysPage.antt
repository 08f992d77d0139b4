-- ===== src/Pages/ApiKeysPage.antt =====
-- web/src/features/dashboard/pages/api-keys-page.tsx. `date` is `new Date(t).toLocaleDateString()`.
pub mod Offers
use chis.Base.{
  String, Bool, true, false, not, ◌||◌, Option, none, some, List, [], ◌∷◌, ◌++◌, truthy, truthy?,
  if◌then◌else◌,
}
use chis.Base.Text.{concat, trim}
use chis.Api.Types.{ApiKey, CreateApiKeyResponse, CreateApiKeyRequest}
use chis.Hooks.ApiKeys.{ApiKeysState}
use chis.View.{View, Widget, heading, text, banner, skeleton, input, button, confirm, when, each}

pub record ApiKeysPageState : Type 0 where
  pub hook : ApiKeysState
  pub open hook use *
  pub new_key_name : String

pub data ApiKeysAction : Type 0 where
  set_new_key_name : String → ApiKeysAction
  submit copy clear : ApiKeysAction
  revoke : String → ApiKeysAction

-- What the input sets.
unfoldable pub typed : ApiKeysAction → ApiKeysPageState → ApiKeysPageState
typed (set_new_key_name v) s = record s { new_key_name = v }
typed _ s = s

-- `handleCreate`: the name that `createKey` is called with, if it is.
unfoldable pub handle_create : ApiKeysPageState → Option CreateApiKeyRequest
handle_create s =
    if not (truthy (trim s.new_key_name))
    then none
    else some (record { name = trim s.new_key_name })

-- `handleCreate` after `createKey`, which never throws.
unfoldable pub created : ApiKeysPageState → ApiKeysPageState
created s = record s { new_key_name = "" }

-- `handleCopy`: what is written to the clipboard.
unfoldable pub handle_copy : ApiKeysPageState → Option String
handle_copy s = elim s.newly_created_key [ none ↦ none | some response ↦ some response.key ]

key_card : Option CreateApiKeyResponse → View ApiKeysAction
key_card none = []
key_card (some response) =
    text "Your new API key has been created. Copy it now — you won't be able to see it again."
    ∷ text response.key
    ∷ button "Copy" false copy
    ∷ button "X" false clear
    ∷ []

last_used : (String → String) → Option String → String
last_used date none = "Never used"
last_used date (some at) = if truthy? (some at) then concat "Last used " (date at) else "Never used"

key_row : (String → String) → ApiKey → View ApiKeysAction
unfolding last_used
key_row date key =
    text key.name
    ∷ text (concat key.prefix "...")
    ∷ text (last_used date key.last_used_at)
    ∷ confirm "Revoke API key" "Revoke" (revoke key.id)
    ∷ []

key_list : (String → String) → List ApiKey → View ApiKeysAction
unfolding key_row
key_list date [] = text "No API keys yet" ∷ text "Create a key to start sending webhooks." ∷ []
key_list date (k ∷ ks) = each (key_row date) (k ∷ ks)

error_banner : Option String → View ApiKeysAction
error_banner none = []
error_banner (some e) = when (truthy e) (banner e ∷ [])

unfoldable pub view : (String → String) → ApiKeysPageState → View ApiKeysAction
unfolding key_card key_list error_banner
view date s =
    heading "API Keys"
      ∷ text "Create and manage API keys for programmatic access to the webhook API."
      ∷ error_banner s.error
    ++ (key_card s.newly_created_key
        ++ input "Key name" s.new_key_name set_new_key_name
          ∷ button "Create key" (s.is_creating || not (truthy (trim s.new_key_name))) submit
          ∷ (if s.is_loading
              then skeleton ∷ skeleton ∷ skeleton ∷ []
              else key_list date s.api_keys))
