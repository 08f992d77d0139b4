-- ===== src/Routes/Redirects.antt =====
-- Redirects end, and the way through the login page leads back.
use chis.Base.{
  ℕ, suc, ◌⊎◌, String, ◌≡◌, refl, true, false, Bool-cases, inl, inr, some, List, [], ◌∷◌, arith,
  All, map,
}
use chis.Base.Text.{concat}
use chis.Routes.{
  Page, login_page, dashboard_page, overview_page, Viewer, Shown, pages, redirect, is_admin, render,
  public_route, protected_route, page,
}
use chis.Routes.Paths.{PathLib, IsPathLib, Location, all_branches, branch_at, login_url, visit}
use chis.Routes.Guards.{All-mem}

module _ (L : PathLib) (h : IsPathLib L) (v : Viewer) where
  -- `/login` when signed out, `/dashboard` when signed in.
  match-login : L.match "/login" ≡ public_route ∷ page login_page ∷ []
  unfolding all_branches branch_at
  match-login = h.declared "/login" _ refl

  match-dashboard :
      L.match "/dashboard" ≡ protected_route ∷ page dashboard_page ∷ page overview_page ∷ []
  unfolding all_branches branch_at
  match-dashboard = h.declared "/dashboard" _ refl

  visit-login :
      (fuel : ℕ) (here : String)
      → v.is_authenticated ≡ false
      → visit L v (suc fuel) (login_url L.encode here) ≡ some (login_page ∷ [])
  unfolding visit render
  visit-login fuel here out = rw (h.login_parsed here, match-login, out, visit)

  visit-dashboard :
      (fuel : ℕ)
      → v.is_authenticated ≡ true
      → visit L v (suc fuel) "/dashboard" ≡ some (dashboard_page ∷ overview_page ∷ [])
  unfolding visit render
  visit-dashboard fuel on = rw (h.dashboard_parsed, match-dashboard, on, visit)

  signed_out_dashboard :
      (fuel : ℕ)
      → v.is_authenticated ≡ false
      → visit L v (suc (suc fuel)) "/dashboard" ≡ some (login_page ∷ [])
  unfolding visit render
  signed_out_dashboard fuel out =
      rw (h.dashboard_parsed, match-dashboard, out, visit)
        (visit-login fuel (concat (L.parse "/dashboard").pathname (L.parse "/dashboard").search)
          out)

  -- Where a redirect leads.
  abbrev Target : String → Shown → Type 0
  Target here (pages ps) = Unit
  Target here (redirect to) =
      (to ≡ "/dashboard") ⊎ ((v.is_authenticated ≡ false) × (to ≡ login_url L.encode here))

  targets :
      (here : String)
      → All (λ es. Target here (render L.encode v here es)) (map (λ b. b.1) all_branches)
  unfolding render all_branches
  targets here = elim (Bool-cases v.is_authenticated) [
    | inl a ↦ elim (Bool-cases (is_admin v.current_org)) [
      | inl b ↦ rw (a, b) (ground arith)
      | inr b ↦ rw (a, b) (ground arith)
    ]
    | inr a ↦ rw a (ground arith)
  ]

  dashboard_ends :
      (fuel : ℕ) → (ps : List Page) × (visit L v (suc (suc fuel)) "/dashboard" ≡ some ps)
  dashboard_ends fuel = elim (Bool-cases v.is_authenticated) [
    | inl on ↦ (_, visit-dashboard (suc fuel) on)
    | inr out ↦ (_, signed_out_dashboard fuel out)
  ]

  follow :
      (here to : String) → Target here (redirect to) → (ps : List Page) × (visit L v 2 to ≡ some ps)
  follow here to (inl e) = rw e (dashboard_ends 0)
  follow here to (inr (out, e)) = rw e (_, visit-login 1 here out)

  -- From any URL, whoever looks, the pages are on display after at most two redirects, if the
  -- router and the browser treat URLs as they document.
  pub visit_ends : (url : String) → (ps : List Page) × (visit L v 3 url ≡ some ps)
  unfolding visit
  visit_ends url = go (render L.encode v here (L.match loc.pathname)) refl
    where
      loc : Location
      loc = L.parse url

      here : String
      here = concat loc.pathname loc.search

      go :
          (r : Shown)
          → render L.encode v here (L.match loc.pathname) ≡ r
          → (ps : List Page) × (visit L v 3 url ≡ some ps)
      go (pages ps) e = (ps, rw (e, visit))
      go (redirect to) e =
          rw (e, visit)
            (follow here to (
              rw e at (
                All-mem (λ es. Target here (render L.encode v here es))
                  (map (λ b. b.1) all_branches) (targets here) (h.matched loc.pathname))))
