-- ===== src/Net.antt =====
-- The HTTP client: web/src/shared/api/api-error.ts and web/src/shared/api/api-client.ts.
-- `fetch` is the browser's: what the network answers to a request is an argument. A JSON body is
-- read at the type that the caller casts it to, and `no_content` is the caller's `undefined as T`.
pub mod LocalStorage
pub mod Laws
use chis.Base.{
  ℕ, String, Bool, true, false, ◌&&◌, Option, none, some, List, [], ◌∷◌, ◌++◌, leb, nat_eq, truthy?,
  if◌then◌else◌,
}
use chis.Base.Text.{concat}
use chis.Net.LocalStorage.{Storage, get_item, set_item, remove_item}

pub record FieldError : Type 0 where
  pub field : String
  pub message : String

pub record ApiErrorBody : Type 0 where
  pub message : String
  pub path : String
  pub timestamp : String
  pub details : Option (List FieldError)

-- An `Error` whose `name` is the constant "ApiRequestError".
pub record ApiRequestError : Type 0 where
  pub name : String
  pub message : String
  pub status : ℕ
  pub path : String
  pub timestamp : String
  pub details : Option (List FieldError)

-- `new ApiRequestError(status, body)`
unfoldable pub api_request_error : ℕ → ApiErrorBody → ApiRequestError
api_request_error status body = record {
  name = "ApiRequestError";
  message = body.message;
  status = status;
  path = body.path;
  timestamp = body.timestamp;
  details = body.details;
}

-- What a rejected promise carries: the client's own error, another `Error`, or no `Error` at all.
pub data Failure : Type 0 where
  api_error : ApiRequestError → Failure
  other_error : String → Failure
  not_error : Failure

pub data Settled {ℓ} (A : Type ℓ) : Type ℓ where
  fulfilled : A → Settled A
  rejected : Failure → Settled A

abbrev pub auth_token_key : String
auth_token_key = "auth_token"

abbrev pub selected_org_key : String
selected_org_key = "selected_org"

unfoldable pub get_stored_token : Storage → Option String
get_stored_token local = get_item local auth_token_key

unfoldable pub set_stored_token : String → Storage → Storage
set_stored_token token local = set_item local auth_token_key token

unfoldable pub remove_stored_token : Storage → Storage
remove_stored_token local = remove_item local auth_token_key

pub data Method : Type 0 where
  get post put delete patch : Method

-- `B` is the type of the request bodies; `none` is a body left out.
pub record ApiRequestOptions {ℓ} (B : Type ℓ) : Type ℓ where
  pub method : Method
  pub path : String
  pub body : Option B
  pub auth : Bool

-- What `fetch` is called with.
pub record Request {ℓ} (B : Type ℓ) : Type ℓ where
  pub url : String
  pub method : Method
  pub headers : List (String × String)
  pub body : Option B

-- What `response.json()` gives: a value of the type cast to, or a thrown error if the body is no JSON.
pub data Body {ℓ} (A : Type ℓ) : Type ℓ where
  json : A → Body A
  not_json : String → Body A

pub record Response {ℓ} (A : Type ℓ) : Type ℓ where
  pub status : ℕ
  pub payload : Body A
  pub error_body : Body ApiErrorBody

-- `response.ok`
abbrev pub ok {ℓ} : {A : Type ℓ} → Response A → Bool
ok r = leb 200 r.status && leb r.status 299

pub data Fetched {ℓ} (A : Type ℓ) : Type ℓ where
  answered : Response A → Fetched A
  network_error : String → Fetched A

-- `if (token) headers['Authorization'] = …`
bearer : Option String → List (String × String)
bearer none = []
bearer (some token) =
    if truthy? (some token) then ("Authorization", concat "Bearer " token) ∷ [] else []

org_header : Option String → List (String × String)
org_header none = []
org_header (some org_id) = if truthy? (some org_id) then ("X-Org-ID", org_id) ∷ [] else []

unfoldable pub headers_of : Storage → Bool → List (String × String)
unfolding bearer org_header get_stored_token
headers_of local auth =
    ("Content-Type", "application/json")
    ∷ (if auth
        then bearer (get_stored_token local) ++ org_header (get_item local selected_org_key)
        else [])

-- The settlement of `response.json()`.
read_json {ℓ} : {A : Type ℓ} → Body A → Settled A
read_json (json a) = fulfilled a
read_json (not_json e) = rejected (other_error e)

reject_with {ℓ} : {A : Type ℓ} → ℕ → Body ApiErrorBody → Settled A
reject_with status (json body) = rejected (api_error (api_request_error status body))
reject_with status (not_json e) = rejected (other_error e)

unfoldable pub settle {ℓ} : {A : Type ℓ} → A → Fetched A → Settled A
unfolding read_json reject_with api_request_error
settle no_content (network_error e) = rejected (other_error e)
settle no_content (answered r) =
    if ok r
    then (if nat_eq r.status 204 then fulfilled no_content else read_json r.payload)
    else reject_with r.status r.error_body

module _ {ℓ} {B : Type ℓ} where
  -- The request that `apiRequest` sends.
  unfoldable pub request_of : String → Storage → ApiRequestOptions B → Request B
  unfolding headers_of
  request_of base_url local o = record {
    url = concat base_url o.path;
    method = o.method;
    headers = headers_of local o.auth;
    body = o.body;
  }

  -- `fetch`, what the network answers, and `no_content` come first.
  unfoldable pub api_request {κ} :
      {A : Type κ}
      → (Request B → Fetched A)
      → A
      → String
      → Storage
      → ApiRequestOptions B
      → Settled A
  unfolding request_of settle
  api_request fetch no_content base_url local o =
      settle no_content (fetch (request_of base_url local o))
