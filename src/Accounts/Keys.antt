-- ===== src/Accounts/Keys.antt =====
-- The handlers of internal/handler/apikey.go, over internal/repository/apiKey.go, with the
-- organization that the guards give them. `hash` is HashSHA256 of pkg/helper, and `is_id` stands for
-- uuid.Parse. The random part of a key is `none` if it is not generated.
pub mod Revoked
use Prim.Native.String
use Prim.Native.Nat.{ℕ, zero, suc}
use chis.Base.{String, Bool, true, false, not, Option, none, some, List, map, ◌==◌, if◌then◌else◌}
use chis.Base.Array
use chis.Base.Text.{concat}
use chis.Access.{Guarded, passed, answered}
use chis.Delivery.Intake.{ApiKey}
use chis.Accounts.{Answer, ok, refused, invalid_body, other_error, insert_error, Calls}
use chis.Accounts.Queries.{insert_unless, newest_first}

-- A row of api_keys.
pub record KeyRow : Type 0 where
  pub id : String
  pub org_id : String
  pub name : String
  pub prefix : String
  pub hashed_key : String
  pub expires_at : Option ℕ
  pub last_used_at : Option ℕ

-- What FindByHashedKey reads of a row.
abbrev pub api_key_of : KeyRow → ApiKey
api_key_of k = record {
  id = k.id;
  org_id = k.org_id;
  hashed_key = k.hashed_key;
  expires_at = k.expires_at;
}

pub record CreateApiKeyRequest : Type 0 where
  pub name : String
  -- `none` for the zero time
  pub expires_at : Option ℕ

pub record CreateApiKeyResponse : Type 0 where
  pub id : String
  pub name : String
  pub prefix : String
  pub key : String

pub record ListApiKeyItem : Type 0 where
  pub id : String
  pub name : String
  pub prefix : String
  pub last_used_at : Option ℕ

-- s[:n] of a text of one byte characters
abbrev pub take_text : ℕ → String → String
take_text zero s = String.[]
take_text (suc n) String.[] = String.[]
take_text (suc n) (String.◌∷◌ c s) = String.◌∷◌ c (take_text n s)

-- GenerateRandomApiKey("chis_sk_")
abbrev pub full_key : String → String
full_key random = concat "chis_sk_" random

abbrev pub same_hash : String → KeyRow → Bool
same_hash h k = k.hashed_key == h

abbrev pub has_key_id : String → KeyRow → Bool
has_key_id id k = k.id == id

-- An answer without a body.
pub data NoContent : Type 0 where
  no_content : NoContent

abbrev pub item_of : KeyRow → ListApiKeyItem
item_of k = record { id = k.id; name = k.name; prefix = k.prefix; last_used_at = k.last_used_at }

-- UNIQUE of the hash
unfoldable pub insert_key : KeyRow → List KeyRow → Option (List KeyRow)
insert_key k = insert_unless (same_hash k.hashed_key) k

-- DELETE of the row with an id; ErrNotFound without one
unfoldable pub delete_row : String → List KeyRow → Option (List KeyRow)
delete_row id rows =
    if Array.any (has_key_id id) rows
    then some (Array.filter (λ k. not (has_key_id id k)) rows)
    else none

module _ (up : Calls) where
  module _ (hash : String → String) where
    abbrev pub new_key : String → String → String → CreateApiKeyRequest → KeyRow
    new_key org id random req = record {
      id = id;
      org_id = org;
      name = req.name;
      prefix = take_text 12 (full_key random);
      hashed_key = hash (full_key random);
      expires_at = req.expires_at;
      last_used_at = none;
    }

    abbrev pub created_key : KeyRow → String → CreateApiKeyResponse
    created_key k key = record { id = k.id; name = k.name; prefix = k.prefix; key = key }

    store_key : KeyRow → String → List KeyRow → List KeyRow × Answer CreateApiKeyResponse
    store_key k key rows = elim (insert_key k rows) [
      | none ↦ (rows, insert_error (up 0))
      | some after ↦ if up 0 then (after, ok (created_key k key)) else (rows, other_error)
    ]

    key_for :
        String
        → String
        → Option String
        → CreateApiKeyRequest
        → List KeyRow
        → List KeyRow × Answer CreateApiKeyResponse
    unfolding store_key
    key_for org id none req rows = (rows, refused 500 "couldn't generate api key")
    key_for org id (some random) req rows =
        store_key (new_key org id random req) (full_key random) rows

    -- `Create`
    unfoldable pub create_key :
        String
        → String
        → Option String
        → Option CreateApiKeyRequest
        → List KeyRow
        → List KeyRow × Answer CreateApiKeyResponse
    unfolding key_for
    create_key org id random none rows = (rows, invalid_body)
    create_key org id random (some req) rows = key_for org id random req rows

  -- `List`
  unfoldable pub list_keys : String → List KeyRow → Answer (List ListApiKeyItem)
  list_keys org rows =
      if up 0
      then ok (map item_of (newest_first (Array.filter (λ k. k.org_id == org) rows)))
      else refused 500 "failed to fetch api keys"

  -- `Delete`, which answers without a body
  unfoldable pub delete_key :
      (String → Bool) → String → List KeyRow → List KeyRow × Answer NoContent
  delete_key is_id id rows =
      if not (is_id id)
      then (rows, refused 400 "invalid api key id")
      else if not (up 0)
      then (rows, refused 500 "failed to delete api key")
      else elim (delete_row id rows) [
        | none ↦ (rows, refused 404 "api key not found")
        | some after ↦ (after, ok no_content)
      ]

  -- The route of `Delete`, behind the guards of an organization.
  unfoldable pub delete_route :
      Guarded (String × String) → (String → Bool) → String → List KeyRow → List KeyRow
  delete_route (passed p) is_id id rows = (delete_key is_id id rows).0
  delete_route (answered status m) is_id id rows = rows
