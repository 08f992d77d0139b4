-- ===== src/Pages/DashboardPage.antt =====
-- web/src/features/dashboard/pages/dashboard-page.tsx. `A` is what an interaction with the page inside
-- means, and `outlet` its view. The switcher of the sidebar is in Parts/OrgSwitcher.
use chis.Base.{Bool, true, false, Option, ◌∷◌, ◌++◌}
use chis.Api.Types.{AuthUser, Organization}
use chis.Parts.Nav.{sidebar}
use chis.Parts.PendingInvitations
use chis.Parts.PendingInvitations.{PendingAction, PendingState}
use chis.View.{View, button, when, on}

pub record DashboardState : Type 0 where
  pub mobile_open : Bool

abbrev pub initial : DashboardState
initial = record { mobile_open = false }

pub data DashboardAction (A : Type 0) : Type 0 where
  open_changed : Bool → DashboardAction A
  -- a link of the sidebar in the sheet, besides what the link does
  navigated : DashboardAction A
  -- the sign-out of a sidebar, the page inside, and the dialog of the invitations
  sidebar_used : DashboardAction A
  page_used : A → DashboardAction A
  dialog_used : PendingAction → DashboardAction A

module _ {A : Type 0} where
  unfoldable pub handle : DashboardAction A → DashboardState → DashboardState
  handle (open_changed b) s = record s { mobile_open = b }
  handle navigated s = record s { mobile_open = false }
  handle sidebar_used s = s
  handle (page_used _) s = s
  handle (dialog_used _) s = s

  unfoldable pub dashboard :
      Option AuthUser
      → Option Organization
      → PendingState
      → View A
      → DashboardState
      → View (DashboardAction A)
  dashboard user current_org pending outlet s =
      button "Open menu" false (open_changed true)
        ∷ when s.mobile_open (on (λ _. sidebar_used) (sidebar user current_org))
      ++ (on (λ _. sidebar_used) (sidebar user current_org)
          ++ (on page_used outlet ++ on dialog_used (PendingInvitations.view pending)))
