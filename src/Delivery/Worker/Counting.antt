-- ===== src/Delivery/Worker/Counting.antt =====
-- What the worker makes of the attempts of a message.
use chis.Base.{ℕ, ◌≤◌, String, Bool, List, arith, All}
use chis.Delivery.{World, Message, DeliveryAttempt, Status}
use chis.Delivery.Messages.{update, update_status, with_status, with_progress}
use chis.Delivery.Messages.Every.{All-update_where}
use chis.Delivery.Worker.{Outcome, deliver, after_failure, attempt_of}
use chis.Delivery.Worker.Rows.{deliver-rows, deliver-attempts}

abbrev pub IsSmall : Message → Type 0
IsSmall m = m.attempt_count ≤ 5

abbrev pub IsNumbered : DeliveryAttempt → Type 0
IsNumbered a = (1 ≤ a.attempt_number) × (a.attempt_number ≤ 6)

pub update-IsSmall :
    (msg : Message) (ms : List Message) → IsSmall msg → All IsSmall ms → All IsSmall (update msg ms)
unfolding update
update-IsSmall msg ms k h = All-update_where IsSmall (with_progress msg) msg.id ms (λ m _. k) h

update_status-IsSmall :
    (id : String) (s : Status) (ms : List Message)
    → All IsSmall ms
    → All IsSmall (update_status id s ms)
unfolding update_status
update_status-IsSmall id s ms h = All-update_where IsSmall (with_status s) id ms (λ m k. k) h

after_failure-IsSmall : (now : ℕ) (m : Message) → IsSmall m → IsSmall (after_failure now m)
unfolding after_failure
after_failure-IsSmall now m h = ground arith

module _ (valid : String → String → Bool) (o : Outcome) (m : Message) (w : World) where
  pub deliver-IsSmall :
      IsSmall m → All IsSmall w.messages → All IsSmall (deliver valid o m w).messages
  deliver-IsSmall k h =
      deliver-rows (All IsSmall) o m valid w h (update_status-IsSmall m.id _ w.messages h)
        (update-IsSmall (after_failure o.now m) w.messages (after_failure-IsSmall o.now m k) h)
        (update_status-IsSmall m.id _ w.messages h)

  pub deliver-IsNumbered :
      IsSmall m → All IsNumbered w.attempts → All IsNumbered (deliver valid o m w).attempts
  unfolding attempt_of
  deliver-IsNumbered k h = deliver-attempts IsNumbered valid o m w (omega arith, omega arith) h
