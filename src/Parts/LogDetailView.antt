-- ===== src/Parts/LogDetailView.antt =====
-- web/src/features/dashboard/components/webhook-log-detail.tsx. `parse` is `JSON.parse`, with `none`
-- for a throw; `pretty` is `JSON.stringify(_, null, 2)`, which gives no text for `undefined`;
-- `print` is a number in a template, and `date` is `new Date(t).toLocaleString()`.
pub mod Codes
use chis.Base.{
  ℕ, String, Bool, true, false, not, Option, none, some, List, [], ◌∷◌, ◌++◌, ◌==◌, ◌&&◌, leb, ltb,
  length, truthy, if◌then◌else◌,
}
use chis.Base.Text.{concat}
use chis.Api.Types.{DeliveryAttemptDetail, WebhookLogDetail}
use chis.Hooks.LogDetail.{DetailState}
use chis.View.{View, Widget, heading, text, banner, skeleton, badge, when, each}

-- statusBadgeVariant[status] ?? 'secondary'
unfoldable pub status_badge_variant : String → String
status_badge_variant status =
    if status == "success"
    then "default"
    else if status == "failed"
    then "destructive"
    else "secondary"

unfoldable pub status_code_badge : (ℕ → String) → Option ℕ → View Unit
status_code_badge print none = text "-" ∷ []
status_code_badge print (some code) =
    badge (if leb 200 code && ltb code 300 then "default" else "destructive") (print code) ∷ []

-- What `formatJson` takes.
pub data Value (J : Type 0) : Type 0 where
  nothing : Value J
  string : String → Value J
  other : J → Value J

module _ {J : Type 0} (parse : String → Option J) (pretty : J → String) where
  unfoldable pub format_json : Value J → String
  format_json nothing = ""
  format_json (string value) = elim (parse value) [ none ↦ value | some j ↦ pretty j ]
  format_json (other j) = pretty j

  module _ (print : ℕ → String) (date : String → String) where
    text_if : Option String → View Unit
    text_if none = []
    text_if (some t) = when (truthy t) (banner t ∷ [])

    response_body : Option String → View Unit
    unfolding format_json
    response_body none = []
    response_body (some body) =
        when (truthy body && truthy (format_json (string body)))
          (text "Response Body" ∷ text (format_json (string body)) ∷ [])

    duration : Option ℕ → View Unit
    duration none = []
    duration (some ms) = text (concat (print ms) "ms") ∷ []

    unfoldable pub attempt_card : DeliveryAttemptDetail → View Unit
    unfolding duration text_if response_body status_code_badge
    attempt_card attempt =
        text (concat "Attempt #" (print attempt.attempt_number))
          ∷ status_code_badge print attempt.status_code
        ++ (duration attempt.duration_ms
            ++ (text (date attempt.attempted_at) ∷ text_if attempt.error_message
                ++ response_body attempt.response_body))

    next_retry : Option String → String
    next_retry none = "-"
    next_retry (some t) = if truthy t then date t else "-"

    attempts : List DeliveryAttemptDetail → View Unit
    unfolding attempt_card
    attempts [] = text "No delivery attempts yet." ∷ []
    attempts (a ∷ rest) = each attempt_card (a ∷ rest)

    -- `detail.payload`, as `formatJson` meets it.
    module _ (value_of : J → Value J) where
      unfoldable pub detail_view : WebhookLogDetail J → View Unit
      unfolding next_retry attempts status_badge_variant format_json
      detail_view detail =
          let payload = format_json (value_of detail.payload) in
          badge (status_badge_variant detail.status) detail.status
            ∷ text detail.method
            ∷ text detail.url
            ∷ text "Attempts"
            ∷ text (print detail.attempt_count)
            ∷ text "Created"
            ∷ text (date detail.created_at)
            ∷ text "Updated"
            ∷ text (date detail.updated_at)
            ∷ text "Next Retry"
            ∷ text (next_retry detail.next_retry_at)
            ∷ when (truthy payload) (heading "Request Payload" ∷ text payload ∷ [])
          ++ (heading (
                concat "Delivery Attempts (" (concat (print (length detail.delivery_attempts)) ")"))
              ∷ attempts detail.delivery_attempts)

      loaded : Option (WebhookLogDetail J) → View Unit
      unfolding detail_view
      loaded none = []
      loaded (some detail) = detail_view detail

      failed_or_loaded : Option String → Option (WebhookLogDetail J) → View Unit
      unfolding loaded
      failed_or_loaded none detail = loaded detail
      failed_or_loaded (some e) detail = if truthy e then banner e ∷ [] else loaded detail

      unfoldable pub view : DetailState J → View Unit
      unfolding failed_or_loaded
      view s = if s.is_loading then skeleton ∷ [] else failed_or_loaded s.error s.detail
