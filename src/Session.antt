-- ===== src/Session.antt =====
-- Who is signed in: web/src/shared/context/auth-context.tsx. `parse` and `stringify` are `JSON.parse`
-- and `JSON.stringify` at `AuthUser`; a text that is no JSON, or is `null`, parses to `none`.
pub mod Reload
use chis.Base.{String, Bool, ◌&&◌, Option, none, some, is_some, truthy, if◌then◌else◌}
use chis.Net.{auth_token_key, selected_org_key, set_stored_token, remove_stored_token}
use chis.Net.LocalStorage.{Storage, get_item, set_item, remove_item}
use chis.Api.Types.{AuthUser}

abbrev pub auth_user_key : String
auth_user_key = "auth_user"

-- The provider's state, with the storage of the browser that it runs in.
pub record Session : Type 0 where
  pub local : Storage
  pub token : Option String
  pub user : Option AuthUser

unfoldable pub get_initial_token : Storage → Option String
get_initial_token local = get_item local auth_token_key

parsed : (String → Option AuthUser) → Option String → Option AuthUser
parsed parse none = none
parsed parse (some raw) = if truthy raw then parse raw else none

unfoldable pub get_initial_user : (String → Option AuthUser) → Storage → Option AuthUser
unfolding parsed
get_initial_user parse local = parsed parse (get_item local auth_user_key)

-- The provider when the page is loaded.
unfoldable pub initial : (String → Option AuthUser) → Storage → Session
unfolding get_initial_token get_initial_user
initial parse local = record {
  local = local;
  token = get_initial_token local;
  user = get_initial_user parse local;
}

abbrev pub is_authenticated : Session → Bool
is_authenticated s = is_some s.token && is_some s.user

unfoldable pub set_auth : (AuthUser → String) → String → AuthUser → Session → Session
unfolding set_stored_token
set_auth stringify new_token new_user s = record {
  local = set_item (set_stored_token new_token s.local) auth_user_key (stringify new_user);
  token = some new_token;
  user = some new_user;
}

unfoldable pub logout : Session → Session
unfolding remove_stored_token
logout s = record {
  local = remove_item (remove_item (remove_stored_token s.local) auth_user_key) selected_org_key;
  token = none;
  user = none;
}
