-- ===== src/Routes/Guards.antt =====
-- Which pages a viewer gets to see.
use mathlib.Core.List.{Memᴰ}
use chis.Base.{String, ◌≡◌, true, false, Bool-cases, inl, inr, List, [], ◌∷◌, arith, All, map}
use chis.Routes.{
  Page, login_page, register_page, members_page, settings_page, Viewer, Shown, pages, redirect,
  is_admin, render,
}
use chis.Routes.Paths.{PathLib, IsPathLib, all_branches}

-- Who may see a page.
abbrev pub Allowed : Viewer → Page → Type 0
Allowed v login_page = v.is_authenticated ≡ false
Allowed v register_page = v.is_authenticated ≡ false
Allowed v members_page = (v.is_authenticated ≡ true) × (is_admin v.current_org ≡ true)
Allowed v settings_page = (v.is_authenticated ≡ true) × (is_admin v.current_org ≡ true)
Allowed v _ = v.is_authenticated ≡ true

-- What is rendered holds allowed pages only.
abbrev OnlyAllowed : Viewer → Shown → Type 0
OnlyAllowed v (redirect to) = Unit
OnlyAllowed v (pages ps) = All (Allowed v) ps

pub All-mem {ℓ κ} : {A : Type ℓ} (P : A → Type κ) {a : A} (xs : List A) → All P xs → Memᴰ a xs → P a
All-mem P [] h m = elim m [ ]
All-mem P (x ∷ xs) h (Memᴰ.head e) = rw e h.0
All-mem P (x ∷ xs) h (Memᴰ.tail m) = All-mem P xs h.1 m

module _ (encode : String → String) (v : Viewer) (here : String) where
  branches-OnlyAllowed :
      All (λ es. OnlyAllowed v (render encode v here es)) (map (λ b. b.1) all_branches)
  unfolding render all_branches
  branches-OnlyAllowed = elim (Bool-cases v.is_authenticated) [
    | inl a ↦ elim (Bool-cases (is_admin v.current_org)) [
      | inl b ↦ rw (a, b) (ground arith)
      | inr b ↦ rw (a, b) (ground arith)
    ]
    | inr a ↦ rw a (ground arith)
  ]

-- What a viewer gets to see at any path: the pages of the dashboard and of invitations only when
-- signed in, those of members and settings only as an admin of the current organization, and those of
-- login and registration only when signed out, if the router matches paths as it documents.
pub shown-Allowed :
    (L : PathLib) (v : Viewer) (path here : String) (ps : List Page)
    → IsPathLib L
    → render L.encode v here (L.match path) ≡ pages ps
    → All (Allowed v) ps
shown-Allowed L v path here ps h e = rw e at (
    All-mem (λ es. OnlyAllowed v (render L.encode v here es)) (map (λ b. b.1) all_branches)
      (branches-OnlyAllowed L.encode v here) (h.matched path))
