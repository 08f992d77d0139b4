-- ===== src/Tests/Routing.antt =====
-- The routes, the links to them, and the way through the login page.
use text.Mathlib.TextLemmas.{cons≢nil}
use chis.Base.{String, ◌≡◌, ◌≢◌, refl, true, false, some, none, List, [], ◌∷◌, All}
use chis.Api.Types.{RegisterResponse}
use chis.Routes.{Viewer, Page, pages, dashboard_page, members_page, render}
use chis.Routes.Paths.{visit, all_branches, branch_at}
use chis.Routes.Guards.{Allowed, shown-Allowed}
use chis.Routes.Redirects.{visit_ends}
use chis.Tests.Data.{acme}
use chis.Tests.PathData.{path_lib, path_lib-IsPathLib}

abbrev admin : Viewer
admin = record { is_authenticated = true; current_org = some acme }

abbrev visitor : Viewer
visitor = record { is_authenticated = false; current_org = none }

members_shown :
    render path_lib.encode admin "/dashboard/members" (path_lib.match "/dashboard/members")
    ≡ pages (dashboard_page ∷ members_page ∷ [])
unfolding render path_lib all_branches branch_at
members_shown = refl

shown-Allowed_example : All (Allowed admin) (dashboard_page ∷ members_page ∷ [])
shown-Allowed_example =
    shown-Allowed path_lib admin "/dashboard/members" "/dashboard/members"
      (dashboard_page ∷ members_page ∷ []) path_lib-IsPathLib members_shown

visit_ends_example : (ps : List Page) × (visit path_lib visitor 3 "/dashboard/logs" ≡ some ps)
visit_ends_example = visit_ends path_lib path_lib-IsPathLib visitor "/dashboard/logs"

abbrev logs_url : String
logs_url = "/dashboard/logs"

logs_path : logs_url ≢ ""
logs_path = cons≢nil

abbrev registered : RegisterResponse
registered = record { id = "u1"; email = "ada@example.com"; first_name = "Ada" }
