-- ===== src/Delivery/Worker/Backoff.antt =====
-- When a message is tried again.
use chis.Base.{
  ℕ, zero, suc, ◌+◌, ◌≤◌, String, Bool, false, ◌≡◌, refl, sym, ap, ◌∙◌, Option, none, some, List,
  [], ◌∷◌, arith, eq_iff, leb,
}
use chis.Delivery.{World, Message, retry, failed}
use chis.Delivery.Messages.{find_by_id, update, with_progress, retry_ready}
use chis.Delivery.Worker.{Outcome, backoff, after_failure, deliver, is_success}
use chis.Delivery.Worker.Rows.{GoesWell, deliver-refused}

-- The backoff of the last attempt that another follows.
abbrev pub sixteen_seconds : ℕ
sixteen_seconds = 16000000000

pub backoff-le : (n : ℕ) → n ≤ 4 → backoff n ≤ sixteen_seconds
unfolding backoff
backoff-le zero h = omega arith
backoff-le (suc zero) h = omega arith
backoff-le (suc (suc zero)) h = omega arith
backoff-le (suc (suc (suc zero))) h = omega arith
backoff-le (suc (suc (suc (suc zero)))) h = omega arith
backoff-le (suc (suc (suc (suc (suc n))))) h = omega arith

-- The nanoseconds until the next attempt, by the number of failed attempts before this one.
abbrev pub delay_after : ℕ → Option ℕ
delay_after zero = some 1000000000
delay_after (suc zero) = some 2000000000
delay_after (suc (suc zero)) = some 4000000000
delay_after (suc (suc (suc zero))) = some 8000000000
delay_after (suc (suc (suc (suc zero)))) = some 16000000000
delay_after (suc (suc (suc (suc (suc n))))) = none

-- The row of a message that waits for so long from now, or is given up.
abbrev pub rescheduled : Option ℕ → ℕ → Message → Message
rescheduled none now m = record m { status = failed }
rescheduled (some d) now m = record m {
  status = retry;
  attempt_count = m.attempt_count + 1;
  next_retry_at = some (now + d);
}

-- Whether the wait is over.
abbrev pub is_over : Option ℕ → ℕ → ℕ → Bool
is_over none now t = false
is_over (some d) now t = leb (now + d) t

module _ (now : ℕ) (m : Message) where
  after_failure-rescheduled :
      (n : ℕ) → m.attempt_count ≡ n → after_failure now m ≡ rescheduled (delay_after n) now m
  unfolding after_failure
  after_failure-rescheduled zero e = ground arith
  after_failure-rescheduled (suc zero) e = ground arith
  after_failure-rescheduled (suc (suc zero)) e = ground arith
  after_failure-rescheduled (suc (suc (suc zero))) e = ground arith
  after_failure-rescheduled (suc (suc (suc (suc zero)))) e = ground arith
  after_failure-rescheduled (suc (suc (suc (suc (suc n))))) e = ground arith

  saved_row :
      (o : Option ℕ)
      → ((rescheduled o now m).id ≡ m.id)
        × (with_progress (rescheduled o now m) m ≡ rescheduled o now m)
  saved_row none = (refl, refl)
  saved_row (some d) = (refl, refl)

  over : (o : Option ℕ) (t : ℕ) → is_over o now t ≡ retry_ready t (rescheduled o now m)
  over none t = refl
  over (some d) t = refl

find-update :
    (msg k : Message) (ms : List Message)
    → msg.id ≡ k.id
    → find_by_id k.id ms ≡ some k
    → find_by_id k.id (update msg ms) ≡ some (with_progress msg k)
unfolding find_by_id update
find-update msg k [] e h = absurd cc
find-update msg k (m ∷ ms) e h =
    ground (arith, find-update msg k ms, eq_iff m.id k.id, eq_iff m.id msg.id)

-- After a delivery that fails, with every call answered, the row of a message stays, and says to try
-- again one, two, four, eight or sixteen seconds later, as it had failed none to four times before, and
-- else that it has failed; and the scheduler's query finds it ready at a time exactly if it is to be
-- tried again and that wait is over.
pub deliver-rescheduled :
    (is_id : String → Bool) (valid : String → String → Bool) (k : Message) (o : Outcome) (w : World)
    (t : ℕ)
    → GoesWell is_id valid k o
    → is_success o.answered ≡ false
    → find_by_id k.id w.messages ≡ some k
    → let row = rescheduled (delay_after k.attempt_count) o.now k in
      (find_by_id k.id (deliver valid o k w).messages ≡ some row)
      × (retry_ready t row ≡ is_over (delay_after k.attempt_count) o.now t)
deliver-rescheduled is_id valid k o w t h e f =
    let d = delay_after k.attempt_count in
    let (same, saved) = saved_row o.now k d in
    (
      ap (λ v. find_by_id k.id v.messages) (deliver-refused is_id valid k o w h e)
          ∙ ap (λ x. find_by_id k.id (update x w.messages))
              (after_failure-rescheduled o.now k k.attempt_count refl)
          ∙ find-update (rescheduled d o.now k) k w.messages same f
          ∙ ap some saved,
      sym (over o.now k d t),
    )
