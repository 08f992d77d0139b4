-- ===== src/Parts/OrgSwitcher.antt =====
-- web/src/features/dashboard/components/org-switcher.tsx. The switcher works on the state of the
-- context of organizations.
pub mod Creating
use chis.Base.{
  String, Bool, true, false, not, Option, none, some, List, [], ◌∷◌, ◌++◌, ◌==◌, ◌||◌, truthy,
  if◌then◌else◌,
}
use chis.Base.Text.{trim}
use chis.Net.{Settled, fulfilled, rejected}
use chis.Api.Types.{Organization, CreateOrganizationRequest}
use chis.Orgs.{OrgState, add_org, switch_org}
use chis.View.{View, Widget, heading, text, input, button, row, when, each}

pub record SwitcherState : Type 0 where
  pub orgs : OrgState
  pub open orgs use *
  pub dialog_open : Bool
  pub new_org_name : String
  pub is_creating : Bool
  pub error : Option String

pub data SwitcherAction : Type 0 where
  switch : Organization → SwitcherAction
  open_dialog submit : SwitcherAction
  set_new_org_name : String → SwitcherAction

-- `onClick={() => switchOrg(org)}`, `setDialogOpen` and `setNewOrgName`
unfoldable pub org_clicked : Organization → SwitcherState → SwitcherState
org_clicked org s = record s { orgs = switch_org org s.orgs }

unfoldable pub dialog_changed : Bool → SwitcherState → SwitcherState
dialog_changed is_open s = record s { dialog_open = is_open }

unfoldable pub name_changed : String → SwitcherState → SwitcherState
name_changed name s = record s { new_org_name = name }

-- `handleCreate` up to its `await`, with the request that it makes
unfoldable pub handle_create : SwitcherState → SwitcherState × Option CreateOrganizationRequest
handle_create s =
    let name = trim s.new_org_name in
    if not (truthy name)
    then (s, none)
    else (record s { is_creating = true; error = none }, some (record { name = name }))

create_outcome : Settled Organization → SwitcherState → SwitcherState
create_outcome (fulfilled org) s = record s {
  orgs = add_org org s.orgs;
  new_org_name = "";
  dialog_open = false;
}
create_outcome (rejected _) s = record s { error = some "Failed to create organization" }

-- `handleCreate` from there on
unfoldable pub create_settled : Settled Organization → SwitcherState → SwitcherState
unfolding create_outcome
create_settled r s = record (create_outcome r s) { is_creating = false }

-- currentOrg?.name ?? "Select org"
unfoldable pub trigger_label : Option Organization → String
trigger_label none = "Select org"
trigger_label (some o) = o.name

-- org.id === currentOrg?.id
abbrev pub is_current : Option Organization → Organization → Bool
is_current none org = false
is_current (some o) org = org.id == o.id

menu_item : Option Organization → Organization → View SwitcherAction
menu_item current org =
    row (switch org) ∷ text org.name ∷ when (is_current current org) (text "Check" ∷ [])

error_line : Option String → View SwitcherAction
error_line none = []
error_line (some e) = when (truthy e) (text e ∷ [])

unfoldable pub menu : SwitcherState → View SwitcherAction
unfolding menu_item trigger_label
menu s =
    text (trigger_label s.current_org)
      ∷ text "Organizations"
      ∷ each (menu_item s.current_org) s.organizations
    ++ (row open_dialog ∷ text "Create organization" ∷ [])

unfoldable pub dialog : SwitcherState → View SwitcherAction
unfolding error_line
dialog s = when s.dialog_open (
    heading "Create organization"
      ∷ text "Add a new organization to manage a separate set of API keys and webhooks."
      ∷ text "Name"
      ∷ input "Acme Inc." s.new_org_name set_new_org_name
      ∷ error_line s.error
    ++ (button (if s.is_creating then "Creating..." else "Create")
          (s.is_creating || not (truthy (trim s.new_org_name))) submit
        ∷ []))
