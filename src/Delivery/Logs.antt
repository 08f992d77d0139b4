-- ===== src/Delivery/Logs.antt =====
-- The logs that the API shows: FindWebhookLogs of internal/repository/message.go, FindByMessageID of
-- internal/repository/delivery.go, and WebhookLogs and WebhookLogDetail of
-- internal/handler/dashboard.go. `atoi` is strconv.Atoi, where a negative number counts with the
-- errors, `ilike` is the test of Postgres, and `is_id` says whether `uuid.Parse` accepts a text. The
-- rows of the table stand in the order of their creation. The times of the entries are left out.
pub mod Pages
pub mod Own
pub mod Sizes
use chis.Base.{
  ℕ, ◌+◌, ◌-◌, String, Bool, true, false, not, Option, none, some, List, [], ◌∷◌, ◌++◌, map, length,
  ◌==◌, ◌&&◌, ◌||◌, leb, ltb, if◌then◌else◌,
}
use Prim.Native.Nat.{◌*◌, ◌/◌, ◌%◌, ◌^◌}
use chis.Base.Array
use chis.Delivery.{World, Message, DeliveryAttempt, Status, pending, success, failed, retry}
use chis.Delivery.Messages.{find_by_id}

pub record WebhookLogEntry : Type 0 where
  pub id : String
  pub endpoint : String
  pub status : Status
  pub status_code : ℕ
  pub event_type : String
  pub response_time_ms : ℕ

pub record WebhookLogsResult : Type 0 where
  pub data_ : List WebhookLogEntry
  pub total : ℕ
  pub page : ℕ
  pub limit : ℕ
  pub total_pages : ℕ

abbrev pub status_text : Status → String
status_text pending = "pending"
status_text success = "success"
status_text failed = "failed"
status_text retry = "retry"

-- The labels of `message_status`: Postgres refuses a statement that compares a status with another text.
unfoldable pub is_status : String → Bool
is_status text = text == "pending" || text == "success" || text == "failed" || text == "retry"

-- The conditions of the `WHERE` clause, for a status that is empty or a label.
unfoldable pub matches : (String → String → Bool) → String → String → String → Message → Bool
matches ilike org_id status search m =
    (m.org_id == org_id)
    && (status == "" || status_text m.status == status)
    && (search == "" || ilike m.url search)

-- The attempt of a message with the greatest number.
later_of : DeliveryAttempt → Option DeliveryAttempt → DeliveryAttempt
later_of a none = a
later_of a (some b) = if ltb a.attempt_number b.attempt_number then b else a

abbrev pub of_message : String → DeliveryAttempt → Bool
of_message id a = a.message_id == id

last_of : List DeliveryAttempt → Option DeliveryAttempt
unfolding later_of
last_of [] = none
last_of (a ∷ rest) = some (later_of a (last_of rest))

unfoldable pub last_attempt : String → List DeliveryAttempt → Option DeliveryAttempt
unfolding last_of
last_attempt id attempts = last_of (Array.filter (of_message id) attempts)

-- COALESCE(x, 0)
abbrev coalesce : Option ℕ → ℕ
coalesce none = 0
coalesce (some n) = n

unfoldable pub entry_of : List DeliveryAttempt → Message → WebhookLogEntry
entry_of attempts m =
    let last = last_attempt m.id attempts in
    record {
      id = m.id;
      endpoint = m.url;
      status = m.status;
      status_code = elim last [ none ↦ 0 | some a ↦ coalesce a.status_code ];
      event_type = m.method;
      response_time_ms = elim last [ none ↦ 0 | some a ↦ coalesce a.duration_ms ];
    }

abbrev pub newest_first : List Message → List Message
newest_first [] = []
newest_first (m ∷ ms) = newest_first ms ++ m ∷ []

-- `LIMIT … OFFSET …`
abbrev pub window : ℕ → ℕ → List WebhookLogEntry → List WebhookLogEntry
window limit offset rows = Array.take limit (Array.drop offset rows)

-- All the rows of the query, without its limit.
unfoldable pub matching :
    (String → String → Bool) → String → String → String → World → List WebhookLogEntry
matching ilike org_id status search w =
    map (entry_of w.attempts)
      (newest_first (Array.filter (matches ilike org_id status search) w.messages))

abbrev pub page_or : ℕ → ℕ
page_or page = if ltb page 1 then 1 else page

abbrev pub limit_or : ℕ → ℕ
limit_or limit = if ltb limit 1 then 20 else limit

-- math.Ceil(total / limit)
abbrev pub pages_of : ℕ → ℕ → ℕ
pages_of total limit = if ltb 0 total then (total + (limit - 1)) / limit else 0

-- An `int`, whose product wraps: from 2 ^ 63 on it stands for a negative number.
unfoldable pub offset_of : ℕ → ℕ → ℕ
offset_of page limit = (page - 1) * limit % 2 ^ 64

-- Whether Postgres takes the statements: a status that is no label and a negative offset are errors.
abbrev pub is_query : String → ℕ → Bool
is_query status offset = (status == "" || is_status status) && ltb offset (2 ^ 63)

-- `none` is the error of a statement.
unfoldable pub find_webhook_logs :
    (String → String → Bool) → String → String → String → ℕ → ℕ → World → Option WebhookLogsResult
find_webhook_logs ilike org_id status search page limit w =
    let p = page_or page in
    let l = limit_or limit in
    let rows = matching ilike org_id status search w in
    if is_query status (offset_of p l)
    then some (record {
      data_ = window l (offset_of p l) rows;
      total = length rows;
      page = p;
      limit = l;
      total_pages = pages_of (length rows) l;
    })
    else none

-- The parameters of the query string.
unfoldable pub page_param : (String → Option ℕ) → String → ℕ
page_param atoi v =
    if v == "" then 1 else elim (atoi v) [ none ↦ 1 | some p ↦ if ltb 0 p then p else 1 ]

unfoldable pub limit_param : (String → Option ℕ) → String → ℕ
limit_param atoi v =
    if v == ""
    then 20
    else elim (atoi v) [ none ↦ 20 | some l ↦ if ltb 0 l && leb l 100 then l else 20 ]

pub data Answer {ℓ} (A : Type ℓ) : Type ℓ where
  ok : A → Answer A
  bad_request not_found internal : String → Answer A

shown_logs : Option WebhookLogsResult → Answer WebhookLogsResult
shown_logs none = internal "failed to fetch webhook logs"
shown_logs (some result) = ok result

-- `answered` says whether Postgres answers the queries, if only with an error of their own.
unfoldable pub webhook_logs :
    (String → Option ℕ)
    → (String → String → Bool)
    → Bool
    → Option String
    → String
    → String
    → String
    → String
    → World
    → Answer WebhookLogsResult
unfolding shown_logs
webhook_logs atoi ilike answered none status search page limit w =
    bad_request "organization not found in context"
webhook_logs atoi ilike answered (some org_id) status search page limit w =
    if answered
    then shown_logs (
        find_webhook_logs ilike org_id status search (page_param atoi page) (limit_param atoi limit)
          w)
    else internal "failed to fetch webhook logs"

pub record WebhookLogDetail : Type 0 where
  pub message : Message
  pub attempts : List DeliveryAttempt

insert_by_number : DeliveryAttempt → List DeliveryAttempt → List DeliveryAttempt
insert_by_number a [] = a ∷ []
insert_by_number a (b ∷ bs) =
    let rest = insert_by_number a bs in
    if leb a.attempt_number b.attempt_number then a ∷ b ∷ bs else b ∷ rest

-- `ORDER BY attempt_number ASC`
order_by_number : List DeliveryAttempt → List DeliveryAttempt
unfolding insert_by_number
order_by_number [] = []
order_by_number (a ∷ rest) = insert_by_number a (order_by_number rest)

unfoldable pub find_by_message_id : String → List DeliveryAttempt → List DeliveryAttempt
unfolding order_by_number
find_by_message_id id attempts = order_by_number (Array.filter (of_message id) attempts)

shown_detail : Bool → String → Option Message → World → Answer WebhookLogDetail
shown_detail answered org_id none w = not_found "webhook log not found"
shown_detail answered org_id (some m) w =
    if not (m.org_id == org_id)
    then not_found "webhook log not found"
    else if answered
    then ok (record { message = m; attempts = find_by_message_id m.id w.attempts })
    else internal "failed to fetch delivery attempts"

-- `read` and `answered` say whether the queries of the message and of its attempts are answered.
unfoldable pub webhook_log_detail :
    (String → Bool) → Bool → Bool → Option String → String → World → Answer WebhookLogDetail
unfolding shown_detail
webhook_log_detail is_id read answered none id w = bad_request "organization not found in context"
webhook_log_detail is_id read answered (some org_id) id w =
    if is_id id
    then if read
      then shown_detail answered org_id (find_by_id id w.messages) w
      else not_found "webhook log not found"
    else bad_request "invalid log ID"
