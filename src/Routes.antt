-- ===== src/Routes.antt =====
-- The pages and their guards: web/src/router.tsx and web/src/shared/components. What react-router and
-- the browser do with paths is the parameter `Paths`.
pub mod Paths
pub mod Guards
pub mod Redirects
use chis.Base.{
  String, Bool, true, false, Option, none, some, List, [], ◌∷◌, ◌++◌, ◌==◌, if◌then◌else◌,
}
use chis.Base.Text.{concat}
use chis.Api.Types.{Organization}

pub data Page : Type 0 where
  login_page register_page : Page
  dashboard_page overview_page api_keys_page logs_page playground_page : Page
  members_page settings_page accept_invite_page : Page

pub data Element : Type 0 where
  public_route protected_route admin_route : Element
  page : Page → Element
  navigate : String → Element

-- `{ path, element, children }`, `{ element, children }` and `{ index: true, element }`.
mutual
  pub data Route : Type 0 where
    at_path : String → Element → Routes → Route
    layout : Element → Routes → Route
    index : Element → Route

  pub data Routes : Type 0 where
    nil : Routes
    cons : Route → Routes → Routes

abbrev leaf : String → Page → Route
leaf path p = at_path path (page p) nil

-- The argument of `createBrowserRouter`.
unfoldable pub router : Routes
router =
    cons
      (layout public_route
        (cons (leaf "/login" login_page) (cons (leaf "/register" register_page) nil)))
      (cons
        (layout protected_route (
          cons
            (at_path "/dashboard" (page dashboard_page) (
              cons (index (page overview_page)) (
                cons (leaf "api-keys" api_keys_page) (
                  cons (leaf "logs" logs_page) (
                    cons (leaf "playground" playground_page) (
                      cons
                        (layout admin_route (
                          cons (leaf "members" members_page)
                            (cons (leaf "settings" settings_page) nil)))
                        nil))))))
            (cons (leaf "/invite/accept" accept_invite_page) nil)))
        (cons (at_path "*" (navigate "/dashboard") nil) nil))

-- What the guards look at.
pub record Viewer : Type 0 where
  pub is_authenticated : Bool
  pub current_org : Option Organization

pub data Shown : Type 0 where
  redirect : String → Shown
  pages : List Page → Shown

-- `currentOrg?.role !== "admin"`, negated
abbrev pub is_admin : Option Organization → Bool
is_admin none = false
is_admin (some o) = o.role == "admin"

abbrev pub above : Page → Shown → Shown
above p (redirect to) = redirect to
above p (pages ps) = pages (p ∷ ps)

-- `here` is `location.pathname + location.search`, and `encode` is `encodeURIComponent`.
module _ (encode : String → String) (v : Viewer) (here : String) where
  unfoldable pub public_guard : Shown → Shown
  public_guard outlet = if v.is_authenticated then redirect "/dashboard" else outlet

  unfoldable pub protected_guard : Shown → Shown
  protected_guard outlet =
      if v.is_authenticated then outlet else redirect (concat "/login?redirect=" (encode here))

  unfoldable pub admin_guard : Shown → Shown
  admin_guard outlet = if is_admin v.current_org then outlet else redirect "/dashboard"

  -- A branch of the tree is rendered from its top, each element with the rest as its outlet.
  unfoldable pub render : List Element → Shown
  unfolding public_guard protected_guard admin_guard
  render [] = pages []
  render (public_route ∷ es) = public_guard (render es)
  render (protected_route ∷ es) = protected_guard (render es)
  render (admin_route ∷ es) = admin_guard (render es)
  render (page p ∷ es) = above p (render es)
  render (navigate to ∷ es) = redirect to
