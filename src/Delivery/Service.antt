-- ===== src/Delivery/Service.antt =====
-- internal/delivery/service.go. `is_id` says whether `uuid.Parse` accepts a text; an id is its text.
use chis.Base.{String, Bool, Option, none, some, if◌then◌else◌}
use chis.Delivery.{World, Status, pending}
use chis.Delivery.Messages.{create}
use chis.Delivery.Queue.{push}

pub record QueueMessageRequest : Type 0 where
  pub org_id : String
  pub method : String
  pub url : String
  pub payload : String

pub data Reply : Type 0 where
  queued : String → Status → Reply
  invalid_argument internal : String → Reply

-- What the database and Redis do with a call.
pub record Calls : Type 0 where
  -- the id of the row, if it is inserted
  pub created : Option String
  pub pushed : Bool

save_and_push : QueueMessageRequest → Calls → World → World × Reply
save_and_push req c w = elim c.created [
  | none ↦ (w, internal "failed to save message")
  | some id ↦ (
    record w {
      messages = create id req.org_id req.method req.url req.payload w.messages;
      queue = if c.pushed then push id w.queue else w.queue;
    },
    queued id pending,
  )
]

unfoldable pub queue_message : (String → Bool) → QueueMessageRequest → Calls → World → World × Reply
unfolding save_and_push
queue_message is_id req c w =
    if is_id req.org_id then save_and_push req c w else (w, invalid_argument "invalid org_id")
