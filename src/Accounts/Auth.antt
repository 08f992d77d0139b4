-- ===== src/Accounts/Auth.antt =====
-- The handlers of internal/handler/auth.go, over internal/repository/user.go and account.go. `hash_of`
-- is bcrypt.GenerateFromPassword, `compare` CompareHashAndPassword, `sign` the library's SignedString
-- of claims with the secret of the API, and `to_lower` strings.ToLower. A body that DecodeAndValidate
-- refuses is `none`.
pub mod Founding
pub mod Twice
pub mod Entering
use chis.Base.{ℕ, ◌+◌, String, Bool, not, Option, none, some, List, ◌==◌, if◌then◌else◌}
use chis.Base.Text.{concat}
use chis.Access.{Membership}
use chis.Accounts.{
  User, Account, Organization, Tables, Answer, ok, refused, invalid_body, other_error, insert_error,
  Calls, asked, Outcome,
}
use chis.Accounts.Queries.{
  insert_user, insert_account, insert_organization, insert_membership, find_by_email, find_account,
}
use chis.Accounts.Organizations.{new_organization, admin_of}

pub record RegisterRequest : Type 0 where
  pub email : String
  pub password : String
  pub first_name : String
  pub last_name : String

pub record RegisterResponse : Type 0 where
  pub id : String
  pub email : String
  pub first_name : String

pub record LoginRequest : Type 0 where
  pub email : String
  pub password : String

-- jwt.MapClaims of a token
pub record TokenClaims : Type 0 where
  pub sub : String
  pub exp : ℕ

-- 48 * time.Hour
abbrev pub two_days : ℕ
two_days = 172800

-- auth.GenerateToken
unfoldable pub generate_token : (TokenClaims → Option String) → ℕ → String → Option String
generate_token sign now user = sign (record { sub = user; exp = now + two_days })

-- The ids that the new rows get, and the generated secret.
pub record Fresh : Type 0 where
  pub user : String
  pub org : String
  pub secret : Option String

abbrev pub workspace_of : String → String
workspace_of first_name = concat first_name "'s Workspace"

abbrev pub new_user : Fresh → RegisterRequest → User
new_user fresh req = record {
  id = fresh.user;
  email = req.email;
  first_name = req.first_name;
  last_name = req.last_name;
}

abbrev pub new_account : Fresh → RegisterRequest → String → Account
new_account fresh req hashed = record {
  user_id = fresh.user;
  provider = "email";
  provider_account_id = req.email;
  password_hash = hashed;
}

-- An insertion that is stored, or its error.
abbrev pub inserted {ℓ κ} :
    {A : Type ℓ} {B : Type κ} → Bool → Option (List A) → Tables → (List A → Outcome B) → Outcome B
inserted up none t next = (t, insert_error up)
inserted up (some rows) t next = if up then next rows else (t, other_error)

module _ (up : Calls) where
  module _ (hash_of : String → Option String) (to_lower : String → String) (fresh : Fresh)
      (req : RegisterRequest) where
    abbrev pub workspace : String → Organization
    workspace secret = new_organization to_lower fresh.org (workspace_of req.first_name) secret

    -- The organization is stored.
    join_workspace : Tables → Outcome RegisterResponse
    join_workspace t =
        inserted (up 3) (insert_membership (admin_of fresh.user fresh.org) t.memberships) t (λ rows.
          (
            record t { memberships = rows },
            ok (record { id = fresh.user; email = req.email; first_name = req.first_name }),
          ))

    -- The user and the account are stored.
    unfoldable pub open_workspace : Tables → Outcome RegisterResponse
    unfolding join_workspace
    open_workspace t = elim fresh.secret [
      | none ↦ (t, refused 500 "failed to generate signing secret")
      | some secret ↦
          inserted (up 2) (insert_organization (workspace secret) t.organizations) t
            (λ rows. join_workspace (record t { organizations = rows }))
    ]

    unfoldable pub sign_up : String → Tables → Outcome RegisterResponse
    sign_up hashed t = inserted (up 0) (insert_user (new_user fresh req) t.users) t (λ users.
        let t1 = record t { users = users } in
        inserted (up 1) (insert_account (new_account fresh req hashed) t1.accounts) t1
          (λ accounts. open_workspace (record t1 { accounts = accounts })))

    unfoldable pub register_body : Tables → Outcome RegisterResponse
    register_body t = elim (hash_of req.password) [
      | none ↦ (t, refused 500 "failed to hash password")
      | some hashed ↦ sign_up hashed t
    ]

  unfoldable pub register :
      (String → Option String)
      → (String → String)
      → Fresh
      → Option RegisterRequest
      → Tables
      → Outcome RegisterResponse
  register hash_of to_lower fresh none t = (t, invalid_body)
  register hash_of to_lower fresh (some req) t = register_body hash_of to_lower fresh req t

  module _ (compare : String → String → Bool) (sign : TokenClaims → Option String) (now : ℕ) where
    with_user : String → Tables → User → Answer String
    with_user password t u = elim (asked (up 1) (find_account u.id t.accounts)) [
      | none ↦ refused 401 "Email or password invalid."
      | some a ↦
          if not (compare a.password_hash password)
          then refused 401 "Email or password invalid."
          else elim (generate_token sign now u.id) [
            | none ↦ refused 400 "something error occurred please try again."
            | some token ↦ ok token
          ]
    ]

    -- `Login`, which answers the token
    unfoldable pub login : Option LoginRequest → Tables → Answer String
    unfolding with_user
    login none t = invalid_body
    login (some req) t = elim (asked (up 0) (find_by_email req.email t.users)) [
      | none ↦ refused 401 "Email or password invalid."
      | some u ↦ with_user req.password t u
    ]
