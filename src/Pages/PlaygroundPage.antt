-- ===== src/Pages/PlaygroundPage.antt =====
-- web/src/features/dashboard/pages/playground-page.tsx. `J` is the type of JSON values, `parse` is
-- `JSON.parse`, with `none` for a throw, and `pretty` is `JSON.stringify(_, null, 2)`.
pub mod Sending
use chis.Base.{
  String, Bool, true, false, not, Option, none, some, is_some, List, [], ◌∷◌, ◌++◌, truthy, truthy?,
  ◌&&◌, if◌then◌else◌,
}
use chis.Base.Text.{trim}
use chis.Net.{Failure, api_error, other_error, not_error, Settled, fulfilled, rejected}
use chis.Api.Types.{SendWebhookRequest, SendWebhookResponse}
use chis.Pages.PageHeader.{page_header}
use chis.View.{View, Widget, heading, text, banner, badge, input, select, button, link, when}

pub record PlaygroundState : Type 0 where
  pub api_key : String
  pub method : String
  pub url : String
  pub payload : String
  pub is_loading : Bool
  pub response : Option SendWebhookResponse
  pub error : Option String
  pub copied : Bool

pub data PlaygroundAction : Type 0 where
  set_api_key set_url set_payload : String → PlaygroundAction
  set_method : Option String → PlaygroundAction
  format send copy_id : PlaygroundAction

-- The first render; the payload is that of `DEFAULT_PAYLOAD`.
abbrev pub initial : String → PlaygroundState
initial default_payload = record {
  api_key = "";
  method = "POST";
  url = "";
  payload = default_payload;
  is_loading = false;
  response = none;
  error = none;
  copied = false;
}

abbrev pub http_methods : List String
http_methods = "POST" ∷ "GET" ∷ "PUT" ∷ "DELETE" ∷ "PATCH" ∷ []

-- `(v) => v && setMethod(v)`
unfoldable pub method_chosen : Option String → PlaygroundState → PlaygroundState
method_chosen none s = s
method_chosen (some v) s = if truthy v then record s { method = v } else s

-- `err instanceof Error ? err.message : …`
abbrev pub error_message : Failure → String
error_message (api_error e) = e.message
error_message (other_error m) = m
error_message not_error = "An unexpected error occurred."

-- What an input sets.
unfoldable pub typed : PlaygroundAction → PlaygroundState → PlaygroundState
unfolding method_chosen
typed (set_api_key v) s = record s { api_key = v }
typed (set_url v) s = record s { url = v }
typed (set_payload v) s = record s { payload = v }
typed (set_method o) s = method_chosen o s
typed format s = s
typed send s = s
typed copy_id s = s

module _ {J : Type 0} (parse : String → Option J) (pretty : J → String) where
  unfoldable pub handle_format_json : PlaygroundState → PlaygroundState
  handle_format_json s = elim (parse s.payload) [
    | none ↦ s
    | some j ↦ record s { payload = pretty j }
  ]

  -- The API key and the request of a call of `sendTestWebhook`.
  abbrev pub Call : Type 0
  Call = String × SendWebhookRequest J

  abbrev fail : String → PlaygroundState → PlaygroundState × Option Call
  fail message s = (record s { error = some message }, none)

  with_payload : Option J → PlaygroundState → PlaygroundState × Option Call
  with_payload none s = fail "Invalid JSON payload." s
  with_payload (some j) s = (
    record s { is_loading = true },
    some (trim s.api_key, record { url = trim s.url; method = s.method; payload = j }),
  )

  -- `handleSend` up to its `await`
  unfoldable pub send_begin : PlaygroundState → PlaygroundState × Option Call
  unfolding with_payload
  send_begin s0 =
      let s = record s0 { error = none; response = none } in
      if not (truthy (trim s.api_key))
      then fail "API key is required." s
      else if not (truthy (trim s.url))
      then fail "URL is required." s
      else with_payload (parse s.payload) s

send_outcome : Settled SendWebhookResponse → PlaygroundState → PlaygroundState
send_outcome (fulfilled result) s = record s { response = some result }
send_outcome (rejected e) s = record s { error = some (error_message e) }

-- `handleSend` from there on
unfoldable pub send_settled : Settled SendWebhookResponse → PlaygroundState → PlaygroundState
unfolding send_outcome
send_settled r s = record (send_outcome r s) { is_loading = false }

-- `handleCopyId`: what is written to the clipboard
unfoldable pub handle_copy_id : PlaygroundState → PlaygroundState × Option String
handle_copy_id s = elim s.response [
  | none ↦ (s, none)
  | some r ↦ (record s { copied = true }, some r.message_id)
]

-- Two seconds after a copy.
unfoldable pub copied_over : PlaygroundState → PlaygroundState
copied_over s = record s { copied = false }

response_view : PlaygroundState → View PlaygroundAction
response_view s = elim s.response [
  | none ↦ []
  | some r ↦
      badge "secondary" r.status
      ∷ text "Message ID"
      ∷ text r.message_id
      ∷ button (if s.copied then "Check" else "Copy") false copy_id
      ∷ link "View in logs" "/dashboard/logs"
      ∷ []
]

error_view : Option String → View PlaygroundAction
error_view none = []
error_view (some e) = when (truthy e) (banner e ∷ [])

-- The card with the response.
unfoldable pub result_view : PlaygroundState → View PlaygroundAction
unfolding response_view error_view
result_view s =
    heading "Response" ∷ error_view s.error
    ++ (response_view s
        ++ when (not (truthy? s.error) && not (is_some s.response))
            (text "Send a request to see the response here." ∷ []))

-- The card with the request.
unfoldable pub request_view : PlaygroundState → View PlaygroundAction
request_view s =
    heading "Request"
    ∷ text "API Key"
    ∷ input "chis_sk_..." s.api_key set_api_key
    ∷ text "Paste your full API key."
    ∷ link "Create one" "/dashboard/api-keys"
    ∷ text "if you don't have one yet."
    ∷ text "Method"
    ∷ select http_methods s.method set_method
    ∷ text "URL"
    ∷ input "https://httpbin.org/post" s.url set_url
    ∷ text "Payload"
    ∷ button "Format JSON" false format
    ∷ input "" s.payload set_payload
    ∷ button (if s.is_loading then "Sending..." else "Send Webhook") s.is_loading send
    ∷ []

-- The card that explains the page; the quotes are those of the program's text.
unfoldable pub help_view : View PlaygroundAction
help_view =
    heading "How it works"
    ∷ text
        "Sends a webhook to any URL. The request is queued and delivered asynchronously with automatic retries on failure."
    ∷ text "API Endpoint"
    ∷ text "POST /webhook/send"
    ∷ text "Headers"
    ∷ text "X-API-Key: your_api_key"
    ∷ text "Example Payload"
    ∷ text
        "{\n  \"url\": \"https://example.com/hook\",\n  \"method\": \"POST\",\n  \"payload\": { \"event\": \"test\" }\n}"
    ∷ []

unfoldable pub view : PlaygroundState → View PlaygroundAction
unfolding request_view result_view help_view
view s =
    page_header "Playground"
      (some "Send test webhooks to any URL. Useful for debugging and integration checks.")
    ++ (request_view s ++ (result_view s ++ help_view))
