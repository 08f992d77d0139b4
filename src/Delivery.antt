-- ===== src/Delivery.antt =====
-- The delivery of webhooks, by the services in Go: internal/model/apikey.go (messages and attempts),
-- internal/repository/message.go and delivery.go over Postgres, internal/queue/queue.go over Redis,
-- internal/delivery, internal/worker and internal/scheduler. Ids are their texts, times are in
-- nanoseconds, and `created_at` and `updated_at` are left out: nothing here reads them. The payload is
-- the text that was sent, which its column of the type JSONB would write in its own form.
pub mod Stats
pub mod Signature
pub mod Messages
pub mod Queue
pub mod Service
pub mod Worker
pub mod Scheduler
pub mod Cluster
pub mod Bounds
pub mod Lost
pub mod Race
pub mod Rounds
pub mod Loops
pub mod Logs
pub mod Intake
pub mod RateLimit
use chis.Base.{ℕ, String, Bool, true, false, not, Option, none, some, List, [], ◌∷◌}

-- `message_status` of the migrations.
pub data Status : Type 0 where
  pending success failed retry : Status

pub record Message : Type 0 where
  pub id : String
  pub org_id : String
  pub method : String
  pub url : String
  pub payload : String
  pub status : Status
  pub attempt_count : ℕ
  pub next_retry_at : Option ℕ

pub record DeliveryAttempt : Type 0 where
  pub message_id : String
  pub attempt_number : ℕ
  pub status_code : Option ℕ
  pub response_body : Option String
  pub error_message : Option String
  pub duration_ms : Option ℕ

-- The two tables of Postgres, and the list of Redis.
pub record World : Type 0 where
  pub messages : List Message
  pub attempts : List DeliveryAttempt
  pub queue : List String

abbrev pub no_messages : World
no_messages = record { messages = []; attempts = []; queue = [] }
