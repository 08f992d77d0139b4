-- ===== src/Delivery/Signature.antt =====
-- The signature of a webhook: pkg/helper/webhook_signature.go. `hmac` is HMAC-SHA256 of a text with a
-- secret, `base64` its text, and `print` a number in decimal.
pub mod Content
use chis.Base.{ℕ, String}
use chis.Base.Text.{concat}

pub record WebhookSignature : Type 0 where
  pub message_id : String
  pub timestamp : ℕ
  pub signature : String

-- Sprintf("%s.%d.%s", msgID, timestamp, string(body))
abbrev pub signed_content : (ℕ → String) → String → ℕ → String → String
signed_content print id timestamp body =
    concat id (concat "." (concat (print timestamp) (concat "." body)))

module _ {D : Type 0} (print : ℕ → String) (hmac : String → String → D) (base64 : D → String) where
  -- SignWebhookPayloadWithTimestamp
  unfoldable pub sign_webhook_payload_with_timestamp :
      String → String → String → ℕ → WebhookSignature
  sign_webhook_payload_with_timestamp id secret body timestamp = record {
    message_id = id;
    timestamp = timestamp;
    signature = concat "v1," (base64 (hmac secret (signed_content print id timestamp body)));
  }
