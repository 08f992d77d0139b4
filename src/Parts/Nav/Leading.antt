-- ===== src/Parts/Nav/Leading.antt =====
-- Where the links lead.
use chis.Base.{
  String, ◌≡◌, refl, true, Bool-cases, inl, inr, Option, none, some, List, [], ◌∷◌, arith, All, map,
}
use chis.Api.Types.{AuthUser, Organization}
use chis.Routes.{
  Element, Page, dashboard_page, overview_page, api_keys_page, logs_page, playground_page,
  members_page, settings_page, pages, Viewer, is_admin, render,
}
use chis.Routes.Paths.{PathLib, IsPathLib, all_branches, branch_at}
use chis.View.{View, link}
use chis.Parts.Nav.{NavItem, link_of, sidebar, sidebar_user, items, nav_items, admin_nav_items}

module _ (L : PathLib) (v : Viewer) (here : String) (h : IsPathLib L) where
  leads :
      (p : String) (es : List Element) (x : Page)
      → branch_at p all_branches ≡ some es
      → render L.encode v here es ≡ pages (dashboard_page ∷ x ∷ [])
      → (y : Page) × (render L.encode v here (L.match p) ≡ pages (dashboard_page ∷ y ∷ []))
  leads p es x e shown = (x, rw (h.declared p es e) shown)

  -- A signed-in user who follows any link of the bar is shown the dashboard with a page in it, and is
  -- redirected nowhere, if the router matches paths as it documents.
  pub items_lead :
      v.is_authenticated ≡ true
      → All
          (λ (i : NavItem).
            (p : Page) × (render L.encode v here (L.match i.to) ≡ pages (dashboard_page ∷ p ∷ [])))
          (items v.current_org)
  unfolding items nav_items admin_nav_items render all_branches branch_at
  items_lead on = elim (Bool-cases (is_admin v.current_org)) [
    | inl a ↦ rw a (
      leads _ _ overview_page refl (rw on refl),
      (
        leads _ _ api_keys_page refl (rw on refl),
        (
          leads _ _ logs_page refl (rw on refl),
          (
            leads _ _ playground_page refl (rw on refl),
            (
              leads _ _ members_page refl (rw (on, a) refl),
              (leads _ _ settings_page refl (rw (on, a) refl), tt),
            ),
          ),
        ),
      ),
    )
    | inr a ↦ rw a (
      leads _ _ overview_page refl (rw on refl),
      (
        leads _ _ api_keys_page refl (rw on refl),
        (leads _ _ logs_page refl (rw on refl), (leads _ _ playground_page refl (rw on refl), tt)),
      ),
    )
  ]

-- The links of a view, in order.
abbrev pub links : {E : Type 0} → View E → List (String × String)
links [] = []
links (link label to ∷ v) = (label, to) ∷ links v
links (_ ∷ v) = links v

-- The sidebar has the links of the bar in the same order, after the one of the brand, whoever is
-- signed in and whatever the role.
pub links-sidebar :
    (user : Option AuthUser) (current_org : Option Organization)
    → links (sidebar user current_org)
      ≡ ("Chis", "/dashboard") ∷ map (λ (i : NavItem). (i.label, i.to)) (items current_org)
unfolding sidebar items nav_items admin_nav_items link_of sidebar_user
links-sidebar none o = ground arith
links-sidebar (some u) o = ground arith
