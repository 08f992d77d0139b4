-- ===== src/Accounts/Auth/Entering.antt =====
-- A new user from the registration to the dashboard's first request.
use chis.Base.{
  ℕ, ◌+◌, String, Bool, true, false, Option, some, none, [], ◌∷◌, ◌++◌, ◌≡◌, ◌∙◌, refl, arith,
  eq_refl, truthy, ltb, if◌then◌else◌, Bool-cases, inl, inr,
}
use chis.Base.Array
use chis.Net.LocalStorage.{Storage, get_item}
use chis.Net.{headers_of, get_stored_token, selected_org_key}
use chis.Access.{
  Claims, user_of_token, belongs, find_by_user_and_org_id, passed, answered, admin_route,
}
use chis.Access.Sent.{org_route-headers_of, admin_route-unknown}
use chis.Accounts.{Tables, ok}
use chis.Accounts.Queries.{
  has_email, has_slug, same_account, account_of, insert_user, insert_account, insert_organization,
  insert_membership, find_by_email, find_account,
}
use chis.Accounts.Queries.Rows.{find-new}
use chis.Accounts.Organizations.{admin_of}
use chis.Accounts.Organizations.Slugs.{slugify}
use chis.Accounts.Auth.{
  Fresh, RegisterRequest, new_user, new_account, workspace, workspace_of, join_workspace,
  open_workspace, sign_up, register_body, register, TokenClaims, generate_token, with_user, login,
}

module _ (hash_of : String → Option String) (to_lower : String → String) (fresh : Fresh)
    (req : RegisterRequest) (hashed secret : String) (t : Tables) where
  -- The tables with the new rows.
  abbrev pub entered : Tables
  entered = record t {
    users = t.users ++ new_user fresh req ∷ [];
    accounts = t.accounts ++ new_account fresh req hashed ∷ [];
    organizations = t.organizations ++ workspace (λ n. true) hash_of to_lower fresh req secret ∷ [];
    memberships = t.memberships ++ admin_of fresh.user fresh.org ∷ [];
  }

  -- Nothing of the new user is in the tables.
  pub record IsNew : Type 0 where
    pub email : Array.any (has_email req.email) t.users ≡ false
    pub account : Array.any (same_account (new_account fresh req hashed)) t.accounts ≡ false
    pub slug :
        Array.any (has_slug (slugify to_lower (workspace_of req.first_name))) t.organizations
        ≡ false
    pub user : Array.any (account_of fresh.user) t.accounts ≡ false
    pub member : Array.any (belongs fresh.user fresh.org) t.memberships ≡ false

  registers :
      hash_of req.password ≡ some hashed
      → fresh.secret ≡ some secret
      → IsNew
      → register (λ n. true) hash_of to_lower fresh (some req) t
        ≡ (entered, ok (record { id = fresh.user; email = req.email; first_name = req.first_name }))
  unfolding register register_body sign_up open_workspace join_workspace insert_user insert_account
      insert_organization insert_membership
  registers h g n =
      rw
        (
          register, register_body, h, sign_up, insert_user, n.email, insert_account, n.account,
          open_workspace, g, insert_organization, n.slug, join_workspace, insert_membership,
          n.member,
        )
        refl

  module _ (compare : String → String → Bool) (sign : TokenClaims → Option String) (now : ℕ)
      (token : String) where
    logs_in :
        IsNew
        → compare hashed req.password ≡ true
        → generate_token sign now fresh.user ≡ some token
        → login
            (λ n. true)
            compare
            sign
            now
            (some (record { email = req.email; password = req.password }))
            entered
          ≡ ok token
    unfolding login with_user find_by_email find_account
    logs_in n c s =
        let u =
          find-new (has_email req.email) t.users (new_user fresh req) n.email (eq_refl req.email) in
        let a =
          find-new (account_of fresh.user) t.accounts (new_account fresh req hashed) n.user
            (eq_refl fresh.user) in
        rw (login, find_by_email, u, with_user, find_account, a, c, s) refl

    -- The claims of the token, and whose it is at a time.
    token_user :
        (parse : ℕ → String → Option Claims) (is_id : String → Bool) (at : ℕ)
        → generate_token sign now fresh.user ≡ some token
        → ((later : ℕ) (claims : TokenClaims) (text : String)
            → sign claims ≡ some text
            → parse later text
              ≡ (if ltb later claims.exp then some (record { sub = some claims.sub }) else none))
        → is_id fresh.user ≡ true
        → user_of_token (parse at) is_id token
          ≡ (if ltb at (now + 172800) then some fresh.user else none)
    unfolding generate_token user_of_token
    token_user parse is_id at s reads d =
        let claims : TokenClaims = record { sub = fresh.user; exp = now + 172800 } in
        elim (Bool-cases (ltb at (now + 172800))) [
          | inl y ↦ rw (user_of_token, reads at claims token s, y, d) refl
          | inr n ↦ rw (user_of_token, reads at claims token s, n) refl
        ]

    -- With every statement answered, a new user whose workspace's slug is free is registered, logs
    -- in with the same password, and is then, with the token and the workspace in the browser, let
    -- through the guards of the admins by the headers that the dashboard sends, for 48 hours (172800
    -- seconds) from the login; from then on they answer 401. This is so if the hash of the password
    -- compares with it, and if what the library signs is what it reads back at any time before the
    -- claimed expiry, and an error from the expiry on.
    pub register-login :
        (parse : ℕ → String → Option Claims) (is_id : String → Bool) (local : Storage) (at : ℕ)
        → hash_of req.password ≡ some hashed
        → fresh.secret ≡ some secret
        → IsNew
        → compare hashed req.password ≡ true
        → generate_token sign now fresh.user ≡ some token
        → ((later : ℕ) (claims : TokenClaims) (text : String)
            → sign claims ≡ some text
            → parse later text
              ≡ (if ltb later claims.exp then some (record { sub = some claims.sub }) else none))
        → is_id fresh.user ≡ true
        → is_id fresh.org ≡ true
        → truthy token ≡ true
        → truthy fresh.org ≡ true
        → get_stored_token local ≡ some token
        → get_item local selected_org_key ≡ some fresh.org
        → (register (λ n. true) hash_of to_lower fresh (some req) t ≡ (
          entered,
          ok (record { id = fresh.user; email = req.email; first_name = req.first_name }),
        ))
          × (login
                (λ n. true)
                compare
                sign
                now
                (some (record { email = req.email; password = req.password }))
                entered
              ≡ ok token)
          × (admin_route
                (user_of_token (parse at) is_id)
                is_id
                entered.memberships
                (headers_of local true)
              ≡ (if ltb at (now + 172800)
                  then passed (fresh.user, fresh.org)
                  else answered 401 "invalid token"))
    unfolding find_by_user_and_org_id
    register-login parse is_id local at h x n c s reads d i tt1 to g o =
        let v = token_user parse is_id at s reads d in
        let m =
          find-new (belongs fresh.user fresh.org) t.memberships (admin_of fresh.user fresh.org)
            n.member (ground (arith, eq_refl fresh.user, eq_refl fresh.org)) in
        (
          registers h x n,
          logs_in n c s,
          elim (Bool-cases (ltb at (now + 172800))) [
            | inl y ↦
                rw y
                  (org_route-headers_of (user_of_token (parse at) is_id) is_id entered.memberships
                    local token fresh.org fresh.user (admin_of fresh.user fresh.org) g tt1 o to
                    (v ∙ rw y refl) i m).1
            | inr z ↦ rw z (
                admin_route-unknown (user_of_token (parse at) is_id) is_id entered.memberships local
                  token fresh.org fresh.user (admin_of fresh.user fresh.org) g tt1 o to
                  (v ∙ rw z refl))
          ],
        )
