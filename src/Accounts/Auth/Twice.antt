-- ===== src/Accounts/Auth/Twice.antt =====
-- The registration of a user whose workspace has another's name.
use chis.Base.{String, true, false, Option, some, [], ◌∷◌, ◌++◌, ◌≡◌, refl, arith, eq_refl}
use chis.Base.Array
use chis.Accounts.{Tables, refused}
use chis.Accounts.Queries.{
  has_email, has_slug, same_account, insert_user, insert_account, insert_organization,
}
use chis.Accounts.Queries.Rows.{any-end}
use chis.Accounts.Organizations.Slugs.{slugify}
use chis.Accounts.Auth.{
  Fresh, RegisterRequest, new_user, new_account, workspace_of, open_workspace, sign_up,
  register_body, register,
}

email_taken :
    (hash_of : String → Option String) (to_lower : String → String) (fresh : Fresh)
    (req : RegisterRequest) (hashed : String) (t : Tables)
    → hash_of req.password ≡ some hashed
    → Array.any (has_email req.email) t.users ≡ true
    → register (λ n. true) hash_of to_lower fresh (some req) t
      ≡ (t, refused 409 "Resource already exists.")
unfolding register register_body sign_up insert_user
email_taken hash_of to_lower fresh req hashed t h u =
    rw (register, register_body, h, sign_up, insert_user, u) refl

module _ (hash_of : String → Option String) (to_lower : String → String) (fresh : Fresh)
    (req : RegisterRequest) (hashed : String) (t : Tables) where
  abbrev pub left_behind : Tables
  left_behind = record t {
    users = t.users ++ new_user fresh req ∷ [];
    accounts = t.accounts ++ new_account fresh req hashed ∷ [];
  }

  stays_behind :
      (secret : String)
      → fresh.secret ≡ some secret
      → hash_of req.password ≡ some hashed
      → Array.any (has_email req.email) t.users ≡ false
      → Array.any (same_account (new_account fresh req hashed)) t.accounts ≡ false
      → Array.any (has_slug (slugify to_lower (workspace_of req.first_name))) t.organizations ≡ true
      → register (λ n. true) hash_of to_lower fresh (some req) t
        ≡ (left_behind, refused 409 "Resource already exists.")
  unfolding register register_body sign_up open_workspace insert_user insert_account
      insert_organization
  stays_behind secret s h u a o =
      rw
        (
          register, register_body, h, sign_up, insert_user, u, insert_account, a, open_workspace, s,
          insert_organization, o,
        )
        refl

  -- With every statement answered, if the slug of the workspace is another organization's, then a
  -- registration with a new e-mail is refused as a conflict, but leaves the user and the account,
  -- without an organization or a membership; and a later registration with that e-mail is refused
  -- and changes nothing.
  pub register-same_name :
      (secret : String) (fresh2 : Fresh) (again : RegisterRequest) (hashed2 : String)
      → fresh.secret ≡ some secret
      → hash_of req.password ≡ some hashed
      → Array.any (has_email req.email) t.users ≡ false
      → Array.any (same_account (new_account fresh req hashed)) t.accounts ≡ false
      → Array.any (has_slug (slugify to_lower (workspace_of req.first_name))) t.organizations ≡ true
      → again.email ≡ req.email
      → hash_of again.password ≡ some hashed2
      → (register (λ n. true) hash_of to_lower fresh (some req) t
          ≡ (left_behind, refused 409 "Resource already exists."))
        × (register (λ n. true) hash_of to_lower fresh2 (some again) left_behind
            ≡ (left_behind, refused 409 "Resource already exists."))
  register-same_name secret fresh2 again hashed2 s h u a o e h2 = (
    stays_behind secret s h u a o,
    email_taken hash_of to_lower fresh2 again hashed2 left_behind h2 (
        any-end (has_email again.email) t.users (new_user fresh req)
          (ground (arith, e, eq_refl req.email))),
  )
