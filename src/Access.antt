-- ===== src/Access.antt =====
-- The guards of the API's routes: internal/middleware/auth.go, org.go and admin.go, as
-- internal/router/ routes.go composes them, over FindByUserAndOrgID of
-- internal/repository/membership.go. `user_of` is the validation of a token, which is `user_of_token`
-- of internal/auth/jwt.go, and `is_id` says whether `uuid.Parse` accepts a text.
pub mod Passing
pub mod Sent
use Prim.Native.Char.{code}
use Prim.Native.String
use Prim.Native.String.{String, []}
use chis.Base.{
  ℕ, Bool, true, false, not, Option, none, some, ◌==◌, ◌&&◌, truthy, nat_eq, if◌then◌else◌,
}
use chis.Base.Array
use mathlib.Core.List
use mathlib.Core.List.{List}

-- r.Header.Get(name): empty for a header that is missing
abbrev pub header : String → List (String × String) → String
header name List.[] = ""
header name (List.◌∷◌ (n, v) hs) = if n == name then v else header name hs

-- What stands before a text's first space and after it: SplitN(text, " ", 2), if that gives two parts.
unfoldable pub cut_space : String → Option (String × String)
cut_space [] = none
cut_space (String.◌∷◌ c s) =
    let rest = cut_space s in
    if nat_eq (code c) 32
    then some ([], s)
    else elim rest [ none ↦ none | some (p, t) ↦ some (String.◌∷◌ c p, t) ]

bearer_part : Option (String × String) → Option String
bearer_part none = none
bearer_part (some (p, t)) = if p == "Bearer" then some t else none

-- The token of the Authorization header.
unfoldable pub token_of : String → Option String
unfolding bearer_part
token_of h = if truthy h then bearer_part (cut_space h) else none

-- What jwt.Parse gives for a token that is valid at the secret and the time of the request: its claim
-- `sub`, if that is a text.
pub record Claims : Type 0 where
  pub sub : Option String

-- auth.ValidateToken
unfoldable pub user_of_token : (String → Option Claims) → (String → Bool) → String → Option String
user_of_token parse is_id token = elim (parse token) [
  | none ↦ none
  | some claims ↦ elim claims.sub [ none ↦ none | some id ↦ if is_id id then some id else none ]
]

pub record Membership : Type 0 where
  pub user_id : String
  pub org_id : String
  pub role : String

abbrev pub belongs : String → String → Membership → Bool
belongs user org m = (m.user_id == user) && (m.org_id == org)

unfoldable pub find_by_user_and_org_id : String → String → List Membership → Option Membership
find_by_user_and_org_id user org = Array.find (belongs user org)

-- A guard passes the request on, with what it puts into the context, or answers it.
pub data Guarded (A : Type 0) : Type 0 where
  passed : A → Guarded A
  answered : ℕ → String → Guarded A

abbrev pub and_then : {A B : Type 0} → Guarded A → (A → Guarded B) → Guarded B
and_then (passed a) f = f a
and_then (answered status m) f = answered status m

module _ (user_of : String → Option String) (is_id : String → Bool)
    (members : List Membership) where
  checked : Option String → Guarded String
  checked none = answered 401 "invalid token"
  checked (some token) = elim (user_of token) [
    | none ↦ answered 401 "invalid token"
    | some user ↦ passed user
  ]

  -- ValidateToken
  unfoldable pub validate_token : List (String × String) → Guarded String
  unfolding checked
  validate_token hs = checked (token_of (header "Authorization" hs))

  -- ValidateOrgAccess, after ValidateToken
  unfoldable pub validate_org_access : List (String × String) → String → Guarded (String × String)
  validate_org_access hs user =
      let org = header "X-Org-ID" hs in
      if not (truthy org)
      then answered 400 "missing X-Org-ID header"
      else if not (is_id org)
      then answered 400 "invalid X-Org-ID header"
      else elim (find_by_user_and_org_id user org members) [
        | none ↦ answered 403 "you are not a member of this organization"
        | some _ ↦ passed (user, org)
      ]

  -- RequireAdmin, after both
  unfoldable pub require_admin : String × String → Guarded (String × String)
  require_admin (user, org) = elim (find_by_user_and_org_id user org members) [
    | none ↦ answered 403 "access denied"
    | some m ↦
        if m.role == "admin" then passed (user, org) else answered 403 "admin access required"
  ]

  -- The routes of an organization, and those of its admins.
  unfoldable pub org_route : List (String × String) → Guarded (String × String)
  org_route hs = and_then (validate_token hs) (validate_org_access hs)

  unfoldable pub admin_route : List (String × String) → Guarded (String × String)
  admin_route hs = and_then (org_route hs) require_admin
