-- ===== src/Pages/SettingsPage.antt =====
-- web/src/features/dashboard/pages/settings-page.tsx
pub mod Deleting
pub mod Masked
use chis.Base.{
  ℕ, zero, suc, String, Bool, true, false, not, ◌&&◌, ◌||◌, Option, none, some, List, [], ◌∷◌, ◌++◌,
  ◌==◌, length, leb, truthy, truthy?, if◌then◌else◌,
}
use chis.Base.Text.{concat, units}
use chis.Net.{ApiRequestOptions, Settled, fulfilled, rejected}
use chis.Api.Types.{Organization}
use chis.Api.Organizations.{DeleteBody, delete_organization}
use chis.Orgs.{OrgState, remove_org}
use chis.Hooks.SigningSecret.{SecretState, rotate_settled}
use chis.View.{View, Widget, heading, text, code_units, banner, skeleton, input, button, when, each}

pub record SettingsState : Type 0 where
  pub secret : SecretState
  pub orgs : OrgState
  pub confirm_name : String
  pub is_deleting : Bool
  pub error : String
  pub is_open : Bool  -- `open`
  pub secret_visible : Bool
  pub copied : Bool
  pub rotate_open : Bool

pub data SettingsAction : Type 0 where
  set_secret_visible set_open set_rotate_open : Bool → SettingsAction
  copy rotate delete : SettingsAction
  set_confirm_name : String → SettingsAction

abbrev pub name_of : Option Organization → String
name_of none = ""
name_of (some o) = o.name

abbrev pub org_name : SettingsState → String
org_name s = name_of s.orgs.current_org

abbrev pub can_delete : SettingsState → Bool
can_delete s = s.confirm_name == org_name s

-- `handleDelete` up to its `await`: the request, if it goes so far.
request_delete :
    Option Organization → SettingsState → SettingsState × Option (ApiRequestOptions DeleteBody)
request_delete none s = (s, none)
request_delete (some _) s =
    if can_delete s
    then (record s { is_deleting = true; error = "" }, some (delete_organization s.confirm_name))
    else (s, none)

unfoldable pub delete_begin : SettingsState → SettingsState × Option (ApiRequestOptions DeleteBody)
unfolding request_delete delete_organization
delete_begin s = request_delete s.orgs.current_org s

-- `handleDelete` from there on, for the organization that was current; the text is where it goes next.
unfoldable pub delete_settled :
    {A : Type 0} → Organization → Settled A → SettingsState → SettingsState × Option String
delete_settled org (fulfilled _) s = (
  record s { orgs = remove_org org.id s.orgs; is_open = false; is_deleting = false },
  some "/dashboard",
)
delete_settled org (rejected _) s = (
  record s { error = "Failed to delete organization. Please try again."; is_deleting = false },
  none,
)

-- `onOpenChange` of the deletion's dialog.
unfoldable pub open_change : Bool → SettingsState → SettingsState
open_change is_open s =
    let t = record s { is_open = is_open } in
    if not is_open then record t { confirm_name = ""; error = "" } else t

-- What the controls set by themselves: the eye, the dialogs and the input.
unfoldable pub typed : SettingsAction → SettingsState → SettingsState
unfolding open_change
typed (set_secret_visible b) s = record s { secret_visible = b }
typed (set_open b) s = open_change b s
typed (set_rotate_open b) s = record s { rotate_open = b }
typed (set_confirm_name v) s = record s { confirm_name = v }
typed _ s = s

-- `handleCopy`: what is written to the clipboard.
unfoldable pub handle_copy : SettingsState → SettingsState × Option String
handle_copy s =
    if truthy? s.secret.signing_secret
    then (record s { copied = true }, s.secret.signing_secret)
    else (s, none)

-- Two seconds after a copy.
unfoldable pub copied_over : SettingsState → SettingsState
copied_over s = record s { copied = false }

-- `handleRotate` after `rotate`, which never throws.
unfoldable pub handle_rotate : Settled String → SettingsState → SettingsState
handle_rotate r s = record s { secret = rotate_settled r s.secret; rotate_open = false }

unfoldable pub take : ℕ → List ℕ → List ℕ
take zero us = []
take (suc n) [] = []
take (suc n) (u ∷ us) = u ∷ take n us

replicate : ℕ → ℕ → List ℕ
replicate zero u = []
replicate (suc n) u = u ∷ replicate n u

-- Text is its UTF-16 code units; 0x2022 is the bullet.
unfoldable pub masked_secret : List ℕ → List ℕ
unfolding take replicate
masked_secret secret =
    if leb (length secret) 6 then secret else take 6 secret ++ replicate 12 0x2022

secret_text : SettingsState → String → List ℕ
unfolding masked_secret
secret_text s secret = if s.secret_visible then units secret else masked_secret (units secret)

rotate_dialog : SettingsState → View SettingsAction
rotate_dialog s = when s.rotate_open (
    heading "Rotate signing secret?"
    ∷ text
        "The current secret will be immediately invalidated. All webhook receivers using the old secret will fail verification until updated."
    ∷ button "Cancel" false (set_rotate_open false)
    ∷ button (if s.secret.is_rotating then "Rotating..." else "Rotate secret") s.secret.is_rotating
        rotate
    ∷ [])

secret_row : SettingsState → Option String → View SettingsAction
unfolding secret_text rotate_dialog
secret_row s none = []
secret_row s (some secret) = when (truthy secret) (
    code_units (secret_text s secret)
    ∷ button (if s.secret_visible then "Hide" else "Reveal") false
        (set_secret_visible (not s.secret_visible))
    ∷ button (if s.copied then "Copied!" else "Copy") false copy
    ∷ button "Rotate" false (set_rotate_open true)
    ∷ rotate_dialog s)

secret_section : SettingsState → View SettingsAction
unfolding secret_row
secret_section s =
    if s.secret.is_loading
    then skeleton ∷ []
    else if truthy? s.secret.error
    then elim s.secret.error [ none ↦ [] | some e ↦ text e ∷ [] ]
    else secret_row s s.secret.signing_secret

delete_dialog : SettingsState → View SettingsAction
delete_dialog s = when s.is_open (
    heading (concat "Delete " (concat (org_name s) "?"))
      ∷ text
          "This action cannot be undone. All API keys, webhooks, and members will be permanently removed."
      ∷ text (concat "Type " (concat (org_name s) " to confirm"))
      ∷ input (org_name s) s.confirm_name set_confirm_name
      ∷ when (truthy s.error) (text s.error ∷ [])
    ++ button "Cancel" false (set_open false)
      ∷ button (if s.is_deleting then "Deleting..." else "Delete")
          (not (can_delete s) || s.is_deleting) delete
      ∷ [])

danger_zone : SettingsState → View SettingsAction
unfolding delete_dialog
danger_zone s =
    heading "Danger zone"
    ∷ text "Delete organization"
    ∷ text "Permanently delete this organization and all its data."
    ∷ button "Delete organization" false (set_open true)
    ∷ delete_dialog s

abbrev top : View SettingsAction
top =
    heading "Settings"
    ∷ text "Organization settings, signing secret, and danger zone."
    ∷ heading "Webhook Signing Secret"
    ∷ text
        "Used to sign webhook payloads so receivers can verify authenticity. Every delivery includes X-Webhook-Signature headers."
    ∷ []

unfoldable pub view : SettingsState → View SettingsAction
unfolding secret_section danger_zone
view s = top ++ (secret_section s ++ danger_zone s)
