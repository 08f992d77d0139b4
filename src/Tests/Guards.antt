-- ===== src/Tests/Guards.antt =====
-- Requests at the guards of the API.
use mathlib.Core.List.{List}
use chis.Base.{String, true, ◌≡◌, refl, Option, some, truthy}
use chis.Net.{headers_of, get_stored_token}
use chis.Net.LocalStorage.{Storage, get_item}
use chis.Access.{
  user_of_token, Membership, passed, org_route, admin_route, validate_token, validate_org_access,
  require_admin, token_of, cut_space, find_by_user_and_org_id,
}
use chis.Access.Passing.{IsAdmitted, admin_route-IsAdmitted}
use chis.Access.Sent.{org_route-headers_of}

abbrev one_user : String → Option String
one_user = user_of_token (λ t. some (record { sub = some "u1" })) truthy

abbrev ada_admin : Membership
ada_admin = record { user_id = "u1"; org_id = "o1"; role = "admin" }

abbrev members : List Membership
members = List.◌∷◌ ada_admin List.[]

abbrev signed_in : Storage
signed_in = List.◌∷◌ ("auth_token", "t1") (List.◌∷◌ ("selected_org", "o1") List.[])

org_route-headers_of_example :
    (org_route one_user truthy members (headers_of signed_in true) ≡ passed ("u1", "o1"))
    × (admin_route one_user truthy members (headers_of signed_in true) ≡ passed ("u1", "o1"))
unfolding get_stored_token get_item find_by_user_and_org_id user_of_token
org_route-headers_of_example =
    org_route-headers_of one_user truthy members signed_in "t1" "o1" "u1" ada_admin refl refl refl
      refl refl refl refl

abbrev sent : List (String × String)
sent = List.◌∷◌ ("Authorization", "Bearer t1") (List.◌∷◌ ("X-Org-ID", "o1") List.[])

ada_passes : admin_route one_user truthy members sent ≡ passed ("u1", "o1")
unfolding admin_route org_route validate_token validate_org_access require_admin token_of cut_space
    user_of_token find_by_user_and_org_id
ada_passes = refl

admin_route-IsAdmitted_example : IsAdmitted one_user truthy members sent "u1" "o1"
admin_route-IsAdmitted_example =
    admin_route-IsAdmitted one_user truthy members sent "u1" "o1" ada_passes
