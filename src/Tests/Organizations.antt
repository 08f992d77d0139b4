-- ===== src/Tests/Organizations.antt =====
-- The keys, the statistics and the errors of the API.
use chis.Base.{
  String, true, false, Bool-cases, inl, inr, none, some, List, [], ◌∷◌, map, ◌≡◌, ◌≢◌, refl, sym,
  ◌∙◌, truthy, ◌==◌, arith, eq_iff, if◌then◌else◌,
}
use chis.Net.{api_request_error, api_error, Settled, rejected, not_json}
use chis.Api.Types.{ApiKey}
use chis.Accounts.Errors.{HandlerError, invalid}
use chis.Accounts.Errors.Read.{settled_for, settle-told_of}
use chis.Access.{
  Membership, passed, org_route, validate_token, validate_org_access, token_of, cut_space,
  find_by_user_and_org_id,
}
use chis.Accounts.{ok}
use chis.Accounts.Keys.{api_key_of, CreateApiKeyRequest, created_key, create_key, delete_route}
use chis.Accounts.Keys.Revoked.{new, with_new, create_key-delete_route}
use chis.Delivery.{no_messages}
use chis.Delivery.Intake.{Incoming, unauthorized, expired, send, receive}
use chis.Accounts.Validation.{Problem, format_errors, message_for, validation_failed}
use chis.Accounts.Validation.Shown.{register_form-validation_failed}
use chis.Forms.Register
use chis.Tests.Requests.{two_orgs, any_like}
use chis.Delivery.Stats.{get_stats_by_org_id}
use chis.Delivery.Stats.Counted.{total_of, sum, get_stats-find_webhook_logs}
use chis.Forms.Register.{RegisterState}
use chis.Forms.RegisterForm.{register_form}
use chis.Forms.Fields.{get_field_error}
use chis.Forms.Refused.{notices}

abbrev same : String → String
same s = s

abbrev shop_request : CreateApiKeyRequest
shop_request = record { name = "shop"; expires_at = some 90 }

abbrev sent : Incoming
sent = record {
  api_key = "chis_sk_ab";
  body = some (record { url = "https://shop.example"; method = "POST"; payload = "{}" });
  now = 50;
  answered = true;
  calls = record { created = some "m4"; pushed = true };
}

-- Eve is a member of another organization.
abbrev eve_member : List Membership
eve_member = record { user_id = "u9"; org_id = "o9"; role = "member" } ∷ []

abbrev by_eve : List (String × String)
by_eve = ("Authorization", "Bearer u9") ∷ ("X-Org-ID", "o9") ∷ []

eve_passes : org_route (λ t. some t) truthy eve_member by_eve ≡ passed ("u9", "o9")
unfolding org_route validate_token validate_org_access token_of cut_space find_by_user_and_org_id
eve_passes = refl

create_key-delete_route_example :
    (create_key (λ n. true) same "o1" "k1" (some "ab") (some shop_request) [] ≡ (
      with_new same "o1" "k1" "ab" shop_request [],
      ok (created_key (λ n. true) same (new same "o1" "k1" "ab" shop_request []) "chis_sk_ab"),
    ))
    × (receive same truthy truthy
          (map api_key_of (with_new same "o1" "k1" "ab" shop_request []))
          sent
          no_messages
        ≡ send same truthy truthy sent.calls "o1" sent.body no_messages)
    × (receive same truthy truthy
          (map api_key_of (
            delete_route
              (λ n. true)
              (org_route (λ t. some t) truthy eve_member by_eve)
              truthy
              "k1"
              (with_new same "o1" "k1" "ab" shop_request [])))
          sent
          no_messages
        ≡ (no_messages, unauthorized "invalid ApiKey"))
unfolding expired
create_key-delete_route_example =
    create_key-delete_route same "o1" "k1" "ab" shop_request [] truthy truthy sent no_messages
      by_eve eve_member (λ t. some t) "u9" "o9" refl refl refl refl refl eve_passes

-- Lower case for the names of the fields here
abbrev lower : String → String
lower s = if s == "FirstName" then "firstname" else "email"

never : (name : String) → "firstname" ≢ name → "email" ≢ name → (x : String) → lower x ≢ name
never name a b x e = elim (Bool-cases (x == "FirstName")) [
  | inl y ↦ a (sym (rw y refl) ∙ e)
  | inr n ↦ b (sym (rw n refl) ∙ e)
]

abbrev empty_form : RegisterState
empty_form = record {
  first_name = "";
  last_name = "";
  email = "ada";
  password = "longpass";
  error = none;
  field_errors = [];
  is_loading = false;
}

abbrev problems : List Problem
problems =
    record { field = "Email"; tag = "email"; param = "" }
    ∷ record { field = "FirstName"; tag = "required"; param = "" }
    ∷ []

apart : (a b : String) → (a == b) ≡ false → a ≢ b
apart a b n e = absurd (ground (arith, (eq_iff a b).1 e, n))

abbrev shown_after : RegisterState
shown_after =
    (Register.submit_settled same none
      (rejected (
        api_error
          (api_request_error 422 (validation_failed lower "/auth/register" "now" problems))))
      (Register.submit_begin empty_form)).0

register_form-validation_failed_example :
    notices (register_form same none shown_after)
    ≡ "Validation failed" ∷ "email must be a valid email" ∷ []
unfolding get_field_error format_errors message_for
register_form-validation_failed_example =
    register_form-validation_failed lower same none empty_form "/auth/register" "now" problems
      (never "firstName" (apart "firstname" "firstName" refl) (apart "email" "firstName" refl))
      (never "lastName" (apart "firstname" "lastName" refl) (apart "email" "lastName" refl))

get_stats-find_webhook_logs_example :
    (total_of any_like "o1" 1 20 two_orgs "success" ≡ some 2)
    × (total_of any_like "o1" 1 20 two_orgs "failed" ≡ some 0)
    × (sum
          (total_of any_like "o1" 1 20 two_orgs "pending")
          (total_of any_like "o1" 1 20 two_orgs "retry")
        ≡ some 0)
    × (total_of any_like "o1" 1 20 two_orgs "" ≡ some 2)
unfolding get_stats_by_org_id
get_stats-find_webhook_logs_example =
    get_stats-find_webhook_logs any_like "o1" 1 20 two_orgs (omega arith) 0 (λ a b. a)

abbrev read_for : HandlerError → Settled (List ApiKey)
read_for = settled_for [] (not_json "") lower "/auth/register" "now"

settle-told_of_example :
    read_for (invalid problems)
    ≡ rejected (
        api_error (record {
          name = "ApiRequestError";
          message = "Validation failed";
          status = 422;
          path = "/auth/register";
          timestamp = "now";
          details = some (
              record { field = "email"; message = "email must be a valid email" }
              ∷ record { field = "firstname"; message = "firstname is required" }
              ∷ []);
        }))
unfolding format_errors message_for
settle-told_of_example =
    settle-told_of [] (not_json "") lower "/auth/register" "now" (invalid problems) tt
