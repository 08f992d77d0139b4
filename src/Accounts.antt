-- ===== src/Accounts.antt =====
-- The accounts of the API: users, organizations, memberships and invitations (internal/model, internal/
-- repository and internal/handler). Ids are their texts, times are in seconds, and `created_at` and
-- `updated_at` are left out: the rows of a table stand in the order of their creation.
pub mod Queries
pub mod Invitations
pub mod Answers
pub mod Organizations
pub mod Auth
pub mod Requests
pub mod Steps
pub mod Keys
pub mod Validation
pub mod Errors
use chis.Base.{ℕ, String, Bool, Option, none, some, List, [], if◌then◌else◌}
use chis.Access.{Membership}

pub record User : Type 0 where
  pub id : String
  pub email : String
  pub first_name : String
  pub last_name : String

pub record Account : Type 0 where
  pub user_id : String
  pub provider : String
  pub provider_account_id : String
  pub password_hash : String

pub record Organization : Type 0 where
  pub id : String
  pub name : String
  pub slug : String
  pub signing_secret : String

-- `invitation_status` of the migrations.
pub data Status : Type 0 where
  pending accepted expired cancelled : Status

pub record Invitation : Type 0 where
  pub id : String
  pub org_id : String
  pub email : String
  pub role : String
  pub token : String
  pub status : Status
  pub invited_by : String
  pub expires_at : ℕ
  pub accepted_at : Option ℕ

-- The tables of Postgres. Rows that a row refers to are there.
pub record Tables : Type 0 where
  pub users : List User
  pub accounts : List Account
  pub organizations : List Organization
  pub memberships : List Membership
  pub invitations : List Invitation

abbrev pub no_rows : Tables
no_rows = record {
  users = [];
  accounts = [];
  organizations = [];
  memberships = [];
  invitations = [];
}

-- What a handler answers: with a result, with the status and the message of an `AppError`, with what
-- DecodeAndValidate returns, or with another error.
pub data Answer {ℓ} (A : Type ℓ) : Type ℓ where
  ok : A → Answer A
  refused : ℕ → String → Answer A
  invalid_body other_error : Answer A

-- Whether Postgres answers a statement of a request, by the number that its handler gives it; a
-- statement that it does not answer has changed nothing.
abbrev pub Calls : Type 0
Calls = ℕ → Bool

-- A statement that is not answered gives an error.
abbrev pub asked {ℓ} : {A : Type ℓ} → Bool → Option A → Option A
asked up o = if up then o else none

-- What an insertion's error becomes in `Wrap`: a broken UNIQUE is a conflict.
abbrev pub insert_error {ℓ} : {A : Type ℓ} → Bool → Answer A
insert_error up = if up then refused 409 "Resource already exists." else other_error

-- A request's outcome: the tables after it, and its answer.
abbrev pub Outcome {ℓ} : Type ℓ → Type ℓ
Outcome A = Tables × Answer A
