-- ===== src/Access/Sent.antt =====
-- The dashboard's requests at the guards.
use Prim.Native.Char.{Char, code}
use Prim.Native.String.{String, []}
use mathlib.Core.List.{List}
use chis.Base.{
  Bool, true, false, Bool-cases, inl, inr, ◌≡◌, refl, sym, ap, ◌∙◌, Option, some, none, ◌||◌, arith,
  nat_eq, truthy, eq_iff, ◌==◌, if◌then◌else◌,
}
use chis.Base.Text.{concat}
use text.Mathlib.TextLemmas.{append_assoc, nil-append, cons-append, cons≢nil}
use chis.Net.LocalStorage.{Storage, get_item}
use chis.Net.{headers_of, get_stored_token, selected_org_key}
use chis.Access.{
  cut_space, token_of, bearer_part, header, Membership, find_by_user_and_org_id, passed, answered,
  validate_token, validate_org_access, require_admin, org_route, admin_route, checked, and_then,
}

abbrev letter_b : Char
letter_b = "B"

abbrev space : Char
space = " "

abbrev has_space : String → Bool
has_space [] = false
has_space (String.◌∷◌ c s) = nat_eq (code c) 32 || has_space s

cut_space-append :
    (p t : String) → has_space p ≡ false → cut_space (concat p (concat " " t)) ≡ some (p, t)
unfolding cut_space
cut_space-append [] t h =
    ap cut_space
      (nil-append (concat " " t) ∙ cons-append space [] t ∙ ap (String.◌∷◌ space) (nil-append t))
cut_space-append (String.◌∷◌ c p) t h =
    let ih = cut_space-append p t (ground arith) in
    ap cut_space (cons-append c p (concat " " t)) ∙ ground (arith, ih)

bearer-truthy : (t : String) → truthy (concat "Bearer " t) ≡ true
bearer-truthy t = elim (Bool-cases (truthy (concat "Bearer " t))) [
  | inl e ↦ e
  | inr e ↦ absurd (
      cons≢nil
        (sym (cons-append letter_b "earer " t) ∙ (eq_iff (concat "Bearer " t) "").0 (ground arith)))
]

-- The token that a bearer header carries.
token_of-bearer : (t : String) → token_of (concat "Bearer " t) ≡ some t
unfolding token_of bearer_part
token_of-bearer t =
    let cut = ap cut_space (append_assoc "Bearer" " " t) ∙ cut_space-append "Bearer" t refl in
    rw (bearer-truthy t, cut) refl

module _ (user_of : String → Option String) (is_id : String → Bool) (members : List Membership)
    (local : Storage) (token org user : String) (m : Membership) where
  headers_sent :
      get_stored_token local ≡ some token
      → truthy token ≡ true
      → get_item local selected_org_key ≡ some org
      → truthy org ≡ true
      → headers_of local true
        ≡ List.◌∷◌
            ("Content-Type", "application/json")
            (List.◌∷◌
              ("Authorization", concat "Bearer " token)
              (List.◌∷◌ ("X-Org-ID", org) List.[]))
  unfolding headers_of get_stored_token
  headers_sent t u o v = rw (t, u, o, v) refl

  org_passed :
      (hs : List (String × String))
      → header "Authorization" hs ≡ concat "Bearer " token
      → header "X-Org-ID" hs ≡ org
      → truthy org ≡ true
      → user_of token ≡ some user
      → is_id org ≡ true
      → find_by_user_and_org_id user org members ≡ some m
      → org_route user_of is_id members hs ≡ passed (user, org)
  unfolding org_route validate_token validate_org_access checked
  org_passed hs a b v x i f =
      rw (a, token_of-bearer token, checked, x, validate_org_access, b, v, i, f)
        (ap (λ o. passed (user, o)) b)

  pub admin_route-unknown :
      get_stored_token local ≡ some token
      → truthy token ≡ true
      → get_item local selected_org_key ≡ some org
      → truthy org ≡ true
      → user_of token ≡ none
      → admin_route user_of is_id members (headers_of local true) ≡ answered 401 "invalid token"
  unfolding org_route admin_route validate_token checked
  admin_route-unknown t u o v x =
      let bearer = ap (header "Authorization") (headers_sent t u o v) in
      rw (bearer, token_of-bearer token, checked, x) refl

  -- A request of the dashboard, with a stored token that is valid for a user and a selected organization
  -- that the user is a member of, passes the guards as that user in that organization; and the guards of
  -- the admins exactly if the role is that of an admin.
  pub org_route-headers_of :
      get_stored_token local ≡ some token
      → truthy token ≡ true
      → get_item local selected_org_key ≡ some org
      → truthy org ≡ true
      → user_of token ≡ some user
      → is_id org ≡ true
      → find_by_user_and_org_id user org members ≡ some m
      → (org_route user_of is_id members (headers_of local true) ≡ passed (user, org))
        × (admin_route user_of is_id members (headers_of local true) ≡ (
            if m.role == "admin" then passed (user, org) else answered 403 "admin access required"))
  unfolding org_route admin_route require_admin
  org_route-headers_of t u o v x i f =
      let sent = headers_sent t u o v in
      let passes =
        org_passed (headers_of local true) (ap (header "Authorization") sent)
          (ap (header "X-Org-ID") sent) v x i f in
      (
        passes,
        ap (λ g. and_then g (require_admin user_of is_id members)) passes
            ∙ rw (require_admin, f) refl,
      )
