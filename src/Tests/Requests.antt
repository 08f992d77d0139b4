-- ===== src/Tests/Requests.antt =====
-- Concrete requests to the API in Go, and a refused registration.
use chis.Base.{
  ℕ, String, Bool, true, ◌≡◌, refl, Option, none, some, [], ◌∷◌, truthy, if◌then◌else◌, ◌==◌,
}
use chis.Delivery.{World, Message, DeliveryAttempt, success}
use chis.Delivery.Messages.{find_by_id}
use chis.Delivery.Logs.{
  ok, WebhookLogsResult, WebhookLogDetail, find_webhook_logs, webhook_logs, page_param, limit_param,
  webhook_log_detail, matching, matches, find_by_message_id, is_status, offset_of, entry_of,
  last_attempt, internal,
}
use chis.Delivery.Logs.Own.{IsOwn, detail-IsOwn}
use chis.Delivery.Intake.{ApiKey, Incoming}
use chis.Delivery.RateLimit.Passed.{Asked, passes, passes_hundred}
use chis.Net.{ApiRequestError, api_error, rejected}
use chis.Forms.Fields.{get_field_error}
use chis.Forms.Register
use chis.Forms.Register.{RegisterState}
use chis.Forms.RegisterForm.{register_form, submit}
use chis.Forms.Refused.{values, notices, register_form-Refused}
use chis.View.{clicks}

abbrev message_of_org : String → String → Message
message_of_org id org_id = record {
  id = id;
  org_id = org_id;
  method = "POST";
  url = "https://shop.example";
  payload = "{}";
  status = success;
  attempt_count = 1;
  next_retry_at = none;
}

abbrev attempt_on : String → ℕ → DeliveryAttempt
attempt_on id n = record {
  message_id = id;
  attempt_number = n;
  status_code = some 200;
  response_body = none;
  error_message = none;
  duration_ms = some 8;
}

abbrev pub two_orgs : World
two_orgs = record {
  messages = message_of_org "m1" "o1" ∷ message_of_org "m2" "o2" ∷ message_of_org "m3" "o1" ∷ [];
  attempts = attempt_on "m1" 2 ∷ attempt_on "m2" 1 ∷ attempt_on "m1" 1 ∷ [];
  queue = [];
}

abbrev pub any_like : String → String → Bool
any_like u s = true

abbrev one_or_two : String → Option ℕ
one_or_two s = if s == "1" then some 1 else some 2

abbrev detail : WebhookLogDetail
detail = record {
  message = message_of_org "m1" "o1";
  attempts = attempt_on "m1" 1 ∷ attempt_on "m1" 2 ∷ [];
}

m1_shown : webhook_log_detail truthy true true (some "o1") "m1" two_orgs ≡ ok detail
unfolding webhook_log_detail find_by_id find_by_message_id
m1_shown = refl

detail-IsOwn_example : IsOwn "o1" "m1" two_orgs detail
detail-IsOwn_example = detail-IsOwn truthy true true "o1" "m1" two_orgs detail m1_shown

abbrev second : WebhookLogsResult
second = record {
  data_ =
      record {
        id = "m1";
        endpoint = "https://shop.example";
        status = success;
        status_code = 200;
        event_type = "POST";
        response_time_ms = 8;
      }
      ∷ [];
  total = 2;
  page = 2;
  limit = 1;
  total_pages = 2;
}

second_shown :
    webhook_logs one_or_two any_like true (some "o1") "success" "" "2" "1" two_orgs ≡ ok second
unfolding webhook_logs find_webhook_logs page_param limit_param matching matches is_status offset_of
    entry_of last_attempt
second_shown = refl

-- A status that is no label is an error of the statement.
delivered_refused :
    webhook_logs one_or_two any_like true (some "o1") "delivered" "" "" "" two_orgs
    ≡ internal "failed to fetch webhook logs"
unfolding webhook_logs find_webhook_logs is_status
delivered_refused = refl

abbrev shop_key : ApiKey
shop_key = record { id = "k1"; org_id = "o1"; hashed_key = "chis_sk_1"; expires_at = some 90 }

abbrev sent : Incoming
sent = record {
  api_key = "chis_sk_1";
  body = some (record { url = "https://shop.example"; method = ""; payload = "{}" });
  now = 50;
  answered = true;
  calls = record { created = some "m4"; pushed = true };
}

abbrev asked : String → Asked
asked key = record { key = key; answered = true }

passes_hundred_example :
    passes "rl:a:0" (λ _. 0) (asked "rl:a:0" ∷ asked "rl:b:0" ∷ asked "rl:a:0" ∷ []) ≡ 2
passes_hundred_example =
    passes_hundred "rl:a:0" (asked "rl:a:0" ∷ asked "rl:b:0" ∷ asked "rl:a:0" ∷ [])

abbrev ada : RegisterState
ada = record Register.initial {
  first_name = "Ada";
  last_name = "L";
  email = "ada";
  password = "pw";
}

abbrev invalid : ApiRequestError
invalid = record {
  name = "ApiRequestError";
  path = "/auth/register";
  timestamp = "";
  status = 422;
  message = "Validation failed";
  details = some (
      record { field = "email"; message = "must be an email" }
      ∷ record { field = "email"; message = "is required" }
      ∷ []);
}

register_form-Refused_example :
    (clicks (register_form (λ t. t) none (Register.submit_begin ada)) ≡ [])
    × (values (
          register_form
            (λ t. t)
            none
            (Register.submit_settled
              (λ t. t)
              none
              (rejected (api_error invalid))
              (Register.submit_begin ada)).0)
        ≡ "Ada" ∷ "L" ∷ "ada" ∷ "pw" ∷ [])
    × (clicks (
          register_form
            (λ t. t)
            none
            (Register.submit_settled
              (λ t. t)
              none
              (rejected (api_error invalid))
              (Register.submit_begin ada)).0)
        ≡ submit ∷ [])
    × (notices (
          register_form
            (λ t. t)
            none
            (Register.submit_settled
              (λ t. t)
              none
              (rejected (api_error invalid))
              (Register.submit_begin ada)).0)
        ≡ "Validation failed" ∷ "must be an email" ∷ [])
unfolding get_field_error
register_form-Refused_example = register_form-Refused (λ t. t) none ada invalid
