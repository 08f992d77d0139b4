-- ===== src/Api/Dashboard.antt =====
-- web/src/features/dashboard/api/dashboard-api.ts. A call with no body sends `Unit`.
pub mod Settling
use chis.Base.{
  ℕ, zero, suc, String, Option, none, some, true, List, [], ◌∷◌, ◌++◌, ◌==◌, not, truthy?,
  if◌then◌else◌,
}
use chis.Base.Text.{concat}
use chis.Net.{
  ApiRequestOptions, Request, get, post, delete, Body, json, not_json, Response, Settled, fulfilled,
  rejected, other_error, ok,
}
use chis.Api.Types.{CreateApiKeyRequest, WebhookLogsParams, SendWebhookRequest, SendWebhookResponse}

abbrev pub NoBody : Type 0
NoBody = Unit {0}

unfoldable pub fetch_dashboard_stats : ApiRequestOptions NoBody
fetch_dashboard_stats = record {
  method = get;
  path = "/api/dashboard/stats";
  body = none;
  auth = true;
}

unfoldable pub fetch_api_keys : ApiRequestOptions NoBody
fetch_api_keys = record { method = get; path = "/api/api-key/list"; body = none; auth = true }

unfoldable pub create_api_key : CreateApiKeyRequest → ApiRequestOptions CreateApiKeyRequest
create_api_key r = record {
  method = post;
  path = "/api/api-key/create";
  body = some r;
  auth = true;
}

unfoldable pub delete_api_key : String → ApiRequestOptions NoBody
delete_api_key id = record {
  method = delete;
  path = concat "/api/api-key/" id;
  body = none;
  auth = true;
}

unfoldable pub fetch_webhook_log_detail : String → ApiRequestOptions NoBody
fetch_webhook_log_detail id = record {
  method = get;
  path = concat "/api/webhook-logs/" id;
  body = none;
  auth = true;
}

abbrev Pairs : Type 0
Pairs = List (String × String)

-- `if (params?.status) searchParams.set("status", params.status)`; the four keys are distinct, so
-- `set` appends.
text_param : String → Option String → Pairs
text_param key none = []
text_param key (some s) = if truthy? (some s) then (key, s) ∷ [] else []

-- The number 0 counts as false. `print` is `String` at numbers.
number_param : (ℕ → String) → String → Option ℕ → Pairs
number_param print key none = []
number_param print key (some zero) = []
number_param print key (some (suc n)) = (key, print (suc n)) ∷ []

unfoldable pub log_query : (ℕ → String) → WebhookLogsParams → Pairs
unfolding text_param number_param
log_query print p =
    text_param "status" p.status
    ++ (text_param "search" p.search
        ++ (number_param print "page" p.page ++ number_param print "limit" p.limit))

-- `to_query` is `URLSearchParams.toString`.
unfoldable pub fetch_webhook_logs :
    (ℕ → String) → (Pairs → String) → WebhookLogsParams → ApiRequestOptions NoBody
unfolding log_query
fetch_webhook_logs print to_query p =
    let query = to_query (log_query print p) in
    record {
      method = get;
      path = if not (query == "") then concat "/api/webhook-logs?" query else "/api/webhook-logs";
      body = none;
      auth = true;
    }

-- Of an error body the client reads an optional `error`; one that is no JSON is read as `{}`.
pub record SendResponse : Type 0 where
  pub response : Response SendWebhookResponse
  pub error : Body (Option String)

pub data SendFetched : Type 0 where
  send_answered : SendResponse → SendFetched
  send_network_error : String → SendFetched

unfoldable pub test_webhook_request :
    {J : Type 0} → String → String → SendWebhookRequest J → Request (SendWebhookRequest J)
test_webhook_request base_url api_key request = record {
  url = concat base_url "/webhook/send";
  method = post;
  headers = ("Content-Type", "application/json") ∷ ("X-API-Key", api_key) ∷ [];
  body = some request;
}

-- `body.error || …`
error_of : Body (Option String) → String → String
error_of (json (some e)) fallback = if truthy? (some e) then e else fallback
error_of (json none) fallback = fallback
error_of (not_json _) fallback = fallback

sent : Body SendWebhookResponse → Settled SendWebhookResponse
sent (json a) = fulfilled a
sent (not_json e) = rejected (other_error e)

-- `print` is the number in a template.
unfoldable pub settle_test_webhook : (ℕ → String) → SendFetched → Settled SendWebhookResponse
unfolding error_of sent
settle_test_webhook print (send_network_error e) = rejected (other_error e)
settle_test_webhook print (send_answered r) =
    if ok r.response
    then sent r.response.payload
    else rejected (
        other_error
          (error_of r.error (concat "Request failed with status " (print r.response.status))))

unfoldable pub send_test_webhook :
    {J : Type 0}
    → (Request (SendWebhookRequest J) → SendFetched)
    → (ℕ → String)
    → String
    → String
    → SendWebhookRequest J
    → Settled SendWebhookResponse
unfolding settle_test_webhook test_webhook_request
send_test_webhook fetch print base_url api_key request =
    settle_test_webhook print (fetch (test_webhook_request base_url api_key request))
