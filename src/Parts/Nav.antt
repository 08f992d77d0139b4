-- ===== src/Parts/Nav.antt =====
-- The links of web/src/features/dashboard/components/dashboard-nav.tsx and dashboard-sidebar.tsx, and
-- what dashboard-header.tsx and the sidebar show of the user.
pub mod Leading
use chis.Base.{
  String, Bool, true, false, Option, none, some, List, [], ◌∷◌, ◌++◌, truthy, map, if◌then◌else◌,
}
use chis.Api.Types.{AuthUser, Organization}
use chis.Routes.{is_admin}
use chis.Orgs.{OrgState, sign_out}
use chis.View.{View, Widget, text, link, button, when, each}

pub record NavItem : Type 0 where
  pub to : String
  pub label : String
  -- active on exactly its path, not below it: `end`
  pub exact : Bool

unfoldable pub nav_items : List NavItem
nav_items =
    record { to = "/dashboard"; label = "Overview"; exact = true }
    ∷ record { to = "/dashboard/api-keys"; label = "API Keys"; exact = false }
    ∷ record { to = "/dashboard/logs"; label = "Logs"; exact = false }
    ∷ record { to = "/dashboard/playground"; label = "Playground"; exact = false }
    ∷ []

unfoldable pub admin_nav_items : List NavItem
admin_nav_items =
    record { to = "/dashboard/members"; label = "Members"; exact = false }
    ∷ record { to = "/dashboard/settings"; label = "Settings"; exact = false }
    ∷ []

-- `DashboardNav`
unfoldable pub items : Option Organization → List NavItem
unfolding nav_items admin_nav_items
items current_org = if is_admin current_org then nav_items ++ admin_nav_items else nav_items

-- `{user?.firstName || user?.email}` and `{user?.email}` of the header.
unfoldable pub header_user : Option AuthUser → View Unit
header_user none = text "" ∷ text "" ∷ []
header_user (some u) =
    text (if truthy u.first_name then u.first_name else u.email) ∷ text u.email ∷ []

-- `DashboardHeader`, but for its switcher.
unfoldable pub header : Option AuthUser → View Unit
unfolding header_user
header user = header_user user ++ (button "Sign out" false tt ∷ [])

-- `{user?.firstName || 'Account'}` and `{user?.email}` of the sidebar.
unfoldable pub sidebar_user : Option AuthUser → View Unit
sidebar_user none = text "Account" ∷ text "" ∷ []
sidebar_user (some u) =
    text (if truthy u.first_name then u.first_name else "Account") ∷ text u.email ∷ []

link_of : NavItem → View Unit
link_of i = link i.label i.to ∷ []

-- `DashboardSidebar`, but for its switcher.
unfoldable pub sidebar : Option AuthUser → Option Organization → View Unit
unfolding link_of sidebar_user nav_items admin_nav_items
sidebar user current_org =
    link "Chis" "/dashboard" ∷ each link_of nav_items
    ++ (when (is_admin current_org) (text "Organization" ∷ each link_of admin_nav_items)
        ++ (sidebar_user user ++ (button "Sign out" false tt ∷ [])))

-- `handleLogout`: the session and where it navigates to.
unfoldable pub handle_logout : OrgState → OrgState × String
handle_logout s = (sign_out s, "/login")
