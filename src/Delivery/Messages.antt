-- ===== src/Delivery/Messages.antt =====
-- The queries of internal/repository/message.go, as operations on the rows of the table.
pub mod Every
pub mod Parked
use chis.Base.{
  ℕ, String, Bool, true, false, Option, none, some, List, [], ◌∷◌, ◌++◌, map, ◌==◌, ◌&&◌, leb,
  if◌then◌else◌,
}
use chis.Base.Array
use chis.Delivery.{Message, Status, pending, success, failed, retry}

-- `INSERT … RETURNING`, with the id that the database generates, and the defaults of the migrations.
unfoldable pub create : String → String → String → String → String → List Message → List Message
create id org_id method url payload rows =
    rows
    ++ record {
      id = id;
      org_id = org_id;
      method = method;
      url = url;
      payload = payload;
      status = pending;
      attempt_count = 0;
      next_retry_at = none;
    }
      ∷ []

abbrev pub has_id : String → Message → Bool
has_id id m = m.id == id

unfoldable pub find_by_id : String → List Message → Option Message
find_by_id id = Array.find (has_id id)

-- `UPDATE messages SET … WHERE id = …`
abbrev pub update_where : (Message → Message) → String → List Message → List Message
update_where f id = map (λ m. if m.id == id then f m else m)

abbrev pub with_status : Status → Message → Message
with_status s m = record m { status = s }

unfoldable pub update_status : String → Status → List Message → List Message
update_status id s = update_where (with_status s) id

-- `SET status = $1, attempt_count = $2, next_retry_at = $3`
abbrev pub with_progress : Message → Message → Message
with_progress msg m = record m {
  status = msg.status;
  attempt_count = msg.attempt_count;
  next_retry_at = msg.next_retry_at;
}

unfoldable pub update : Message → List Message → List Message
update msg = update_where (with_progress msg) msg.id

abbrev pub is_retry : Status → Bool
is_retry retry = true
is_retry _ = false

abbrev pub due : ℕ → Option ℕ → Bool
due now none = false
due now (some t) = leb t now

abbrev pub retry_ready : ℕ → Message → Bool
retry_ready now m = is_retry m.status && due now m.next_retry_at

abbrev not_later : Option ℕ → Option ℕ → Bool
not_later none u = true
not_later (some t) none = false
not_later (some t) (some u) = leb t u

insert_by_time : Message → List Message → List Message
insert_by_time m [] = m ∷ []
insert_by_time m (k ∷ ms) =
    let rest = insert_by_time m ms in
    if not_later m.next_retry_at k.next_retry_at then m ∷ k ∷ ms else k ∷ rest

-- `ORDER BY next_retry_at ASC`; rows of the same time keep the order of the table.
order_by_time : List Message → List Message
unfolding insert_by_time
order_by_time [] = []
order_by_time (m ∷ ms) = insert_by_time m (order_by_time ms)

unfoldable pub find_retry_ready : ℕ → ℕ → List Message → List Message
unfolding order_by_time
find_retry_ready now limit rows =
    Array.take limit (order_by_time (Array.filter (retry_ready now) rows))
