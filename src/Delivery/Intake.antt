-- ===== src/Delivery/Intake.antt =====
-- The way of a webhook into the table: ValidateApiKey of internal/middleware/apikey.go,
-- FindByHashedKey of internal/repository/apiKey.go, and Send of internal/handler/webhook.go, which
-- calls the delivery service. `hash` is the digest of pkg/helper, `known` says whether the generated
-- table `HttpMethod_value` has a method, and `is_id` whether `uuid.Parse` accepts a text.
pub mod Owned
use chis.Base.{
  ℕ, String, Bool, true, false, not, Option, none, some, List, ◌==◌, ltb, truthy, if◌then◌else◌,
}
use chis.Base.Array
use chis.Delivery.{World, Status}
use chis.Delivery.Service.{
  Calls, QueueMessageRequest, Reply, queued, invalid_argument, internal, queue_message,
}

pub record ApiKey : Type 0 where
  pub id : String
  pub org_id : String
  pub hashed_key : String
  pub expires_at : Option ℕ

abbrev pub has_hash : String → ApiKey → Bool
has_hash h k = k.hashed_key == h

unfoldable pub find_by_hashed_key : String → List ApiKey → Option ApiKey
find_by_hashed_key h = Array.find (has_hash h)

-- apiKey.ExpiresAt != nil && apiKey.ExpiresAt.Before(time.Now())
unfoldable pub expired : ℕ → ApiKey → Bool
expired now k = elim k.expires_at [ none ↦ false | some t ↦ ltb t now ]

-- A decoded and validated body, with its payload as it is marshalled.
pub record SendWebhookRequest : Type 0 where
  pub url : String
  pub method : String
  pub payload : String

pub data Response : Type 0 where
  created : String → Status → Response
  unauthorized : String → Response
  -- what DecodeAndValidate returns, and any other error
  invalid_body failed : Response

-- What a request brings, and what the calls for it do.
pub record Incoming : Type 0 where
  pub api_key : String
  pub body : Option SendWebhookRequest
  pub now : ℕ
  -- the query of the key is answered
  pub answered : Bool
  pub calls : Calls

abbrev pub method_or : String → String
method_or m = if m == "" then "POST" else m

module _ (hash : String → String) (known : String → Bool) (is_id : String → Bool) where
  -- From the reply of the service on.
  respond : World × Reply → World × Response
  respond (w, queued id status) = (w, if is_id id then created id status else failed)
  respond (w, invalid_argument m) = (w, failed)
  respond (w, internal m) = (w, failed)

  abbrev pub grpc_request : String → SendWebhookRequest → QueueMessageRequest
  grpc_request org_id req = record {
    org_id = org_id;
    method = method_or req.method;
    url = req.url;
    payload = req.payload;
  }

  -- `Send`, with the organization of the context
  unfoldable pub send : Calls → String → Option SendWebhookRequest → World → World × Response
  unfolding respond
  send calls org_id none w = (w, invalid_body)
  send calls org_id (some req) w =
      if known (method_or req.method)
      then respond (queue_message is_id (grpc_request org_id req) calls w)
      else (w, failed)

  unfoldable pub with_key : Incoming → Option ApiKey → World → World × Response
  with_key i none w = (w, unauthorized "invalid ApiKey")
  with_key i (some k) w =
      if expired i.now k then (w, unauthorized "expired ApiKey") else send i.calls k.org_id i.body w

  -- `ValidateApiKey` before `Send`
  unfoldable pub receive : List ApiKey → Incoming → World → World × Response
  unfolding with_key
  receive keys i w =
      if not (truthy i.api_key)
      then (w, unauthorized "invalid ApiKey")
      else if i.answered
      then with_key i (find_by_hashed_key (hash i.api_key) keys) w
      else (w, unauthorized "invalid ApiKey")
