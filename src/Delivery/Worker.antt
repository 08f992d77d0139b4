-- ===== src/Delivery/Worker.antt =====
-- internal/worker/worker.go. `valid` says whether `http.NewRequestWithContext` accepts a method and a
-- URL, and `is_id` whether `uuid.Parse` accepts a text; an id is its text.
pub mod Counting
pub mod Rows
pub mod Turns
pub mod Backoff
use chis.Base.{
  ℕ, zero, suc, ◌+◌, ◌<◌, ◌++◌, String, Bool, true, false, Option, none, some, List, [], ◌∷◌, ◌&&◌,
  leb, ltb, truthy, if◌then◌else◌,
}
use Prim.Native.Nat.{◌*◌, ◌%◌, ◌^◌}
use chis.Delivery.{World, Message, DeliveryAttempt, Status, success, failed, retry}
use chis.Delivery.Messages.{find_by_id, update, update_status}
use chis.Delivery.Queue.{pop}

abbrev pub max_attempts : ℕ
max_attempts = 5

-- One second.
abbrev pub base_backoff : ℕ
base_backoff = 1000000000

-- A `time.Duration` is an `int64`; the shift and the product wrap.
unfoldable pub backoff : ℕ → ℕ
backoff n = base_backoff * (2 ^ n % 2 ^ 64) % 2 ^ 64

-- How `httpClient.Do` ends: an error, or a status with a body.
pub data Answer : Type 0 where
  no_answer : String → Answer
  answer : ℕ → String → Answer

-- What the calls of one delivery do.
pub record Outcome : Type 0 where
  pub answered : Answer
  pub ms : ℕ
  pub now : ℕ
  -- the insertion of the attempt, and the update of the message
  pub logged : Bool
  pub saved : Bool

unfoldable pub is_success : Answer → Bool
is_success (no_answer _) = false
is_success (answer code _) = leb 200 code && ltb code 300

abbrev pub status_code_of : Answer → Option ℕ
status_code_of (no_answer _) = none
status_code_of (answer code _) = some code

abbrev pub error_message_of : Answer → Option String
error_message_of (no_answer e) = some e
error_message_of (answer _ _) = none

abbrev pub response_body_of : Answer → Option String
response_body_of (no_answer _) = none
response_body_of (answer _ body) = if truthy body then some body else none

unfoldable pub attempt_of : Outcome → Message → DeliveryAttempt
attempt_of o msg = record {
  message_id = msg.id;
  attempt_number = msg.attempt_count + 1;
  status_code = status_code_of o.answered;
  response_body = response_body_of o.answered;
  error_message = error_message_of o.answered;
  duration_ms = some o.ms;
}

-- The message that a failure is saved with.
unfoldable pub after_failure : ℕ → Message → Message
unfolding backoff
after_failure now msg =
    if ltb msg.attempt_count max_attempts
    then record msg {
      attempt_count = msg.attempt_count + 1;
      next_retry_at = some (now + backoff msg.attempt_count);
      status = retry;
    }
    else record msg { status = failed }

log : Bool → DeliveryAttempt → World → World
log true a w = record w { attempts = w.attempts ++ a ∷ [] }
log false a w = w

save : Bool → (List Message → List Message) → World → World
save true f w = record w { messages = f w.messages }
save false f w = w

progress : Outcome → Message → List Message → List Message
unfolding after_failure is_success
progress o msg =
    if is_success o.answered then update_status msg.id success else update (after_failure o.now msg)

-- `deliver`
unfoldable pub deliver : (String → String → Bool) → Outcome → Message → World → World
unfolding log save progress attempt_of
deliver valid o msg w =
    if valid msg.method msg.url
    then save o.saved (progress o msg) (log o.logged (attempt_of o msg) w)
    else save o.saved (update_status msg.id failed) w

found : (String → String → Bool) → Outcome → Option Message → World → World
found valid o none w = w
found valid o (some msg) w = deliver valid o msg w

-- One turn of the loop of `Start`; `reads` says whether the query of the message is answered.
unfoldable pub turn : (String → Bool) → (String → String → Bool) → Bool → Outcome → World → World
unfolding found
turn is_id valid reads o w = elim (pop w.queue) [
  | none ↦ w
  | some (id, rest) ↦
      let t = record w { queue = rest } in
      if is_id id && reads then found valid o (find_by_id id t.messages) t else t
]
