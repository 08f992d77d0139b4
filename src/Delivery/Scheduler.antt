-- ===== src/Delivery/Scheduler.antt =====
-- internal/scheduler/scheduler.go. An error of a push or of an update is ignored.
use chis.Base.{ℕ, String, Bool, List, [], ◌∷◌, if◌then◌else◌}
use chis.Delivery.{World, Message, pending}
use chis.Delivery.Messages.{update, find_retry_ready, with_status}
use chis.Delivery.Queue.{push}

-- What Redis and the database do with the calls for a message.
pub record Calls : Type 0 where
  pub pushed : Bool
  pub saved : Bool

-- The body of the loop, in its two calls.
unfoldable pub requeue : Bool → Message → World → World
requeue pushed msg w = record w { queue = if pushed then push msg.id w.queue else w.queue }

unfoldable pub mark_pending : Bool → Message → World → World
mark_pending saved msg w = record w {
  messages = if saved then update (with_status pending msg) w.messages else w.messages;
}

unfoldable pub requeue_all : (String → Calls) → List Message → World → World
unfolding requeue mark_pending
requeue_all calls [] w = w
requeue_all calls (m ∷ ms) w =
    requeue_all calls ms (mark_pending (calls m.id).saved m (requeue (calls m.id).pushed m w))

-- `processRetries` at a time; `reads` says whether its query is answered.
unfoldable pub process_retries : Bool → (String → Calls) → ℕ → World → World
unfolding requeue_all
process_retries reads calls now w =
    if reads then requeue_all calls (find_retry_ready now 10 w.messages) w else w
