-- ===== src/Delivery/Messages/Every.antt =====
-- What holds of every message of a table, after the queries.
use chis.Base.{
  ℕ, String, Bool-cases, inl, inr, List, [], ◌∷◌, All, All-take, All-map, ◌==◌, if◌then◌else◌,
}
use chis.Base.Array
use chis.Delivery.{Message}
use chis.Delivery.Messages.{
  update_where, find_retry_ready, retry_ready, order_by_time, insert_by_time, not_later,
}

module _ {κ} (P : Message → Type κ) where
  pub All-update_where :
      (f : Message → Message) (id : String) (ms : List Message)
      → ((m : Message) → P m → P (f m))
      → All P ms
      → All P (update_where f id ms)
  All-update_where f id ms g h =
      All-map P (λ m. if m.id == id then f m else m) ms
        (λ m k. elim (Bool-cases (m.id == id)) [ inl e ↦ rw e (g m k) | inr e ↦ rw e k ]) h

  insert_by_time-All :
      (m : Message) (ms : List Message) → P m → All P ms → All P (insert_by_time m ms)
  unfolding insert_by_time
  insert_by_time-All m [] k h = (k, tt)
  insert_by_time-All m (n ∷ ms) k h =
      elim (Bool-cases (not_later m.next_retry_at n.next_retry_at)) [
        | inl e ↦ rw e (k, h)
        | inr e ↦ rw e (h.0, insert_by_time-All m ms k h.1)
      ]

  order_by_time-All : (ms : List Message) → All P ms → All P (order_by_time ms)
  unfolding order_by_time
  order_by_time-All [] h = tt
  order_by_time-All (m ∷ ms) h =
      insert_by_time-All m (order_by_time ms) h.0 (order_by_time-All ms h.1)

  pub All-find_retry_ready :
      (now limit : ℕ) (ms : List Message)
      → All P (Array.filter (retry_ready now) ms)
      → All P (find_retry_ready now limit ms)
  unfolding find_retry_ready
  All-find_retry_ready now limit ms h =
      All-take P limit (order_by_time (Array.filter (retry_ready now) ms))
        (order_by_time-All (Array.filter (retry_ready now) ms) h)
