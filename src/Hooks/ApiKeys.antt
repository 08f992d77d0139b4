-- ===== src/Hooks/ApiKeys.antt =====
-- web/src/features/dashboard/hooks/use-api-keys.ts
pub mod Laws
use chis.Base.{
  ℕ, suc, String, ◌≡◌, refl, Bool, true, false, not, Option, none, some, List, [], ◌∷◌, ◌++◌, ◌==◌,
  if◌then◌else◌,
}
use chis.Base.Array
use chis.Net.{Settled, fulfilled, rejected}
use chis.Effect.{Loader}
use chis.Hooks.Message.{message_of}
use chis.Api.Types.{ApiKey, CreateApiKeyResponse}

pub record ApiKeysState : Type 0 where
  pub api_keys : List ApiKey
  pub is_loading : Bool
  pub is_creating : Bool
  pub error : Option String
  pub newly_created_key : Option CreateApiKeyResponse

abbrev pub initial : ApiKeysState
initial = record {
  api_keys = [];
  is_loading = true;
  is_creating = false;
  error = none;
  newly_created_key = none;
}

unfoldable pub load_begin : ApiKeysState → ApiKeysState
load_begin s = record s { is_loading = true; error = none }

load_outcome : Bool → Settled (List ApiKey) → ApiKeysState → ApiKeysState
load_outcome cancelled (fulfilled answer) s =
    if not cancelled then record s { api_keys = answer } else s
load_outcome cancelled (rejected e) s =
    if not cancelled then record s { error = some (message_of e) } else s

-- `finally`
load_finally : Bool → ApiKeysState → ApiKeysState
load_finally cancelled s = if not cancelled then record s { is_loading = false } else s

unfoldable pub load_settled : Bool → Settled (List ApiKey) → ApiKeysState → ApiKeysState
unfolding load_outcome load_finally
load_settled cancelled r s = load_finally cancelled (load_outcome cancelled r s)

pub load_stale : (r : Settled (List ApiKey)) (s : ApiKeysState) → load_settled true r s ≡ s
unfolding load_settled
load_stale (fulfilled _) s = refl
load_stale (rejected _) s = refl

-- The effect of the hook; with no organization it does nothing.
abbrev pub loader : Loader ApiKeysState (List ApiKey)
loader = record { absent = λ s. s; begin = load_begin; finish = load_settled; stale = load_stale }

unfoldable pub create_key_begin : ApiKeysState → ApiKeysState
create_key_begin s = record s { is_creating = true; error = none }

-- The entry of the list for a key that was created.
unfoldable pub listed : CreateApiKeyResponse → ApiKey
listed response = record {
  id = response.id;
  name = response.name;
  prefix = response.prefix;
  created_at = response.created_at;
  last_used_at = none;
}

create_key_outcome : Settled CreateApiKeyResponse → ApiKeysState → ApiKeysState
unfolding listed
create_key_outcome (fulfilled response) s = record s {
  newly_created_key = some response;
  api_keys = listed response ∷ s.api_keys;
}
create_key_outcome (rejected e) s = record s { error = some (message_of e) }

unfoldable pub create_key_settled : Settled CreateApiKeyResponse → ApiKeysState → ApiKeysState
unfolding create_key_outcome
create_key_settled r s = record (create_key_outcome r s) { is_creating = false }

unfoldable pub remove_key_begin : ApiKeysState → ApiKeysState
remove_key_begin s = record s { error = none }

unfoldable pub remove_key_settled : {A : Type 0} → String → Settled A → ApiKeysState → ApiKeysState
remove_key_settled id (fulfilled _) s = record s {
  api_keys = Array.filter (λ k. not (k.id == id)) s.api_keys;
}
remove_key_settled id (rejected e) s = record s { error = some (message_of e) }

unfoldable pub clear_new_key : ApiKeysState → ApiKeysState
clear_new_key s = record s { newly_created_key = none }
