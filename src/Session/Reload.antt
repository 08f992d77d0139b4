-- ===== src/Session/Reload.antt =====
-- The session and the storage agree, so a reload of the page changes nothing.
use chis.Base.{String, ◌≡◌, refl, ◌≢◌, Option, some, arith, eq_iff, ap, ◌∙◌}
use chis.Net.{auth_token_key}
use chis.Net.LocalStorage.{Storage, get_item, storage_laws}
use chis.Api.Types.{AuthUser}
use chis.Session.{
  Session, auth_user_key, get_initial_token, get_initial_user, parsed, initial, set_auth, logout,
}

-- The state is what a reload would read from the storage.
pub record IsSynced (parse : String → Option AuthUser) (s : Session) : Type 0 where
  pub token : get_initial_token s.local ≡ s.token
  pub user : get_initial_user parse s.local ≡ s.user

module _ (parse : String → Option AuthUser) where
  pub initial-IsSynced : (local : Storage) → IsSynced parse (initial parse local)
  unfolding initial
  initial-IsSynced local = record { token = refl; user = refl }

  pub logout-IsSynced : (s : Session) → IsSynced parse (logout s)
  unfolding logout initial
  logout-IsSynced s = record { token = simp storage_laws; user = simp storage_laws }

  -- What is stored under another key does not matter.
  pub store-IsSynced :
      (s : Session) (local : Storage)
      → get_item local auth_token_key ≡ get_item s.local auth_token_key
      → get_item local auth_user_key ≡ get_item s.local auth_user_key
      → IsSynced parse s
      → IsSynced parse (record s { local = local })
  unfolding initial
  store-IsSynced s local e f h = record { token = e ∙ h.token; user = ap (parsed parse) f ∙ h.user }

  pub set_auth-IsSynced :
      (stringify : AuthUser → String) (u : AuthUser)
      → parse (stringify u) ≡ some u
      → stringify u ≢ ""
      → (token : String) (s : Session) → IsSynced parse (set_auth stringify token u s)
  unfolding set_auth initial
  set_auth-IsSynced stringify u back shown token s = record {
    token = simp storage_laws;
    user = simp storage_laws (ground (arith, eq_iff (stringify u) ""));
  }

  -- A session that agrees with its storage is what a reload of the page builds again.
  pub initial_of_IsSynced : (s : Session) → IsSynced parse s → initial parse s.local ≡ s
  unfolding initial
  initial_of_IsSynced s h = λ i. record { local = s.local; token = h.token i; user = h.user i }
