-- ===== src/Routes/Paths.antt =====
-- What the routes rely on in react-router and in the browser: how a path picks a branch of the route
-- tree, and how a query carries a text.
use mathlib.Core.List.{Memᴰ}
use chis.Base.{
  ℕ, zero, suc, String, ◌≡◌, Option, none, some, List, [], ◌∷◌, ◌++◌, ◌==◌, map, if◌then◌else◌,
}
use text.Mathlib.Text.{starts_with}
use chis.Base.Text.{concat}
use chis.Routes.{
  Element, Route, Routes, at_path, layout, index, nil, cons, router, Page, Viewer, redirect, pages,
  render,
}

pub record Location : Type 0 where
  pub pathname : String
  pub search : String

-- A child's path is absolute, or goes below its parent's.
abbrev below : String → String → String
below parent path =
    if starts_with path "/"
    then path
    else if parent == ""
    then path
    else concat parent (concat "/" path)

abbrev pub Branch : Type 0
Branch = String × List Element

-- The branches of a tree: the full path, and the elements from the top.
unfoldable mutual
  pub branches_of : String → List Element → Route → List Branch
  branches_of parent above (at_path path e nil) = (below parent path, above ++ e ∷ []) ∷ []
  branches_of parent above (at_path path e (cons r rs)) =
      branches_of (below parent path) (above ++ e ∷ []) r
      ++ branches (below parent path) (above ++ e ∷ []) rs
  branches_of parent above (layout e rs) = branches parent (above ++ e ∷ []) rs
  branches_of parent above (index e) = (parent, above ++ e ∷ []) ∷ []

  pub branches : String → List Element → Routes → List Branch
  branches parent above nil = []
  branches parent above (cons r rs) = branches_of parent above r ++ branches parent above rs

-- Every branch of the router.
unfoldable pub all_branches : List Branch
unfolding branches branches_of router
all_branches = branches "" [] router

unfoldable pub branch_at : String → List Branch → Option (List Element)
branch_at path [] = none
branch_at path ((p, es) ∷ bs) = if p == path then some es else branch_at path bs

abbrev pub register_url : (String → String) → String → String
register_url encode here = concat "/register?redirect=" (encode here)

abbrev pub login_url : (String → String) → String → String
login_url encode here = concat "/login?redirect=" (encode here)

-- `encodeURIComponent`, the parts of a URL, the parameters of a query, and the branch of a path.
pub record PathLib : Type 0 where
  pub encode : String → String
  pub parse : String → Location
  pub param : String → String → Option String
  pub match : String → List Element

-- What the two libraries document of these.
pub record IsPathLib (L : PathLib) : Type 0 where
  pub login_parsed :
      (s : String)
      → PathLib.parse L (login_url (PathLib.encode L) s)
        ≡ record { pathname = "/login"; search = concat "?redirect=" (PathLib.encode L s) }
  pub register_parsed :
      (s : String)
      → PathLib.parse L (register_url (PathLib.encode L) s)
        ≡ record { pathname = "/register"; search = concat "?redirect=" (PathLib.encode L s) }
  pub dashboard_parsed :
      PathLib.parse L "/dashboard" ≡ record { pathname = "/dashboard"; search = "" }
  pub redirect_param :
      (s : String) → PathLib.param L (concat "?redirect=" (PathLib.encode L s)) "redirect" ≡ some s
  -- a path picks one of the branches, and picks the one that is declared for it
  pub matched : (p : String) → Memᴰ (PathLib.match L p) (map (λ b. b.1) all_branches)
  pub declared :
      (p : String) (es : List Element) → branch_at p all_branches ≡ some es → PathLib.match L p ≡ es

-- The pages on display at a URL, after at most that many redirects.
unfoldable pub visit : PathLib → Viewer → ℕ → String → Option (List Page)
visit L v zero url = none
visit L v (suc fuel) url =
    let here = PathLib.parse L url in
    elim (render (PathLib.encode L) v (concat here.pathname here.search)
      (PathLib.match L here.pathname)) [ redirect to ↦ visit L v fuel to | pages ps ↦ some ps ]
