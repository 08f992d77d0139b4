-- ===== src/Delivery/Rounds/Once.antt =====
-- One turn of the worker and one of the scheduler.
use chis.Base.{
  ℕ, ◌+◌, ◌≤◌, String, Bool, true, false, ◌≡◌, refl, sym, subst, ap, ◌∙◌, ◌⊎◌, Bool-cases, inl, inr,
  List, [], ◌∷◌, ◌++◌, some, arith, eq_refl, eq_iff, leb,
}
use chis.Delivery.{World, Message, DeliveryAttempt, success, failed, pending, retry}
use chis.Delivery.Messages.{
  with_status, is_retry, find_by_id, find_retry_ready, update, update_status, with_progress,
  retry_ready,
}
use chis.Delivery.Queue.{push, pop}
use chis.Delivery.Worker.{Outcome, is_success, attempt_of, backoff, deliver, turn, after_failure}
use chis.Delivery.Worker.Backoff.{sixteen_seconds, backoff-le}
use chis.Delivery.Worker.Rows.{GoesWell, deliver-accepted, deliver-refused}
use chis.Delivery.Scheduler.{Calls, process_retries, requeue_all}
use chis.Delivery.Worker.Turns.{turn-delivers, turn-none}

pub record Round : Type 0 where
  pub outcome : Outcome
  -- when the scheduler looks for messages to try again
  pub polled : ℕ

abbrev works : String → Calls
works id = record { pushed = true; saved = true }

-- One message, queued or not.
abbrev pub waiting : Message → List DeliveryAttempt → World
waiting k done = record { messages = k ∷ []; attempts = done; queue = k.id ∷ [] }

abbrev pub settled : Message → List DeliveryAttempt → World
settled k done = record { messages = k ∷ []; attempts = done; queue = [] }

-- The message of the next try.
abbrev pub again : ℕ → Message → Message
again now k = record k {
  status = pending;
  attempt_count = k.attempt_count + 1;
  next_retry_at = some (now + backoff k.attempt_count);
}

update_one : (msg k : Message) → msg.id ≡ k.id → update msg (k ∷ []) ≡ with_progress msg k ∷ []
unfolding update
update_one msg k e = ground (arith, eq_iff k.id msg.id)

tries_left : (n : ℕ) → (n ≤ 4) ⊎ (5 ≤ n)
tries_left n = elim (Bool-cases (leb n 4)) [
  | inl e ↦ inl (ground arith)
  | inr e ↦ inr (ground arith)
]

success_saved : (k : Message) → update_status k.id success (k ∷ []) ≡ with_status success k ∷ []
unfolding update_status
success_saved k = rw (eq_refl k.id) refl

module _ (k : Message) (done : List DeliveryAttempt) (now : ℕ) where
  unready-settled :
      retry_ready now k ≡ false → process_retries true works now (settled k done) ≡ settled k done
  unfolding process_retries find_retry_ready requeue_all
  unready-settled e = rw e refl

  ready-settled :
      retry_ready now k ≡ true
      → process_retries true works now (settled k done) ≡ waiting (with_status pending k) done
  unfolding process_retries find_retry_ready requeue_all push
  ready-settled e = rw (e, update_one (with_status pending k) k refl) refl

  -- The row of a message that is to be tried again.
  abbrev delayed : Message
  delayed = record k {
    attempt_count = k.attempt_count + 1;
    next_retry_at = some (now + backoff k.attempt_count);
    status = retry;
  }

  failure-delayed : k.attempt_count ≤ 4 → after_failure now k ≡ delayed
  unfolding after_failure
  failure-delayed h = ground arith

  failure-failed : 5 ≤ k.attempt_count → after_failure now k ≡ with_status failed k
  unfolding after_failure
  failure-failed h = ground arith

  failure_saved : update (after_failure now k) (k ∷ []) ≡ after_failure now k ∷ []
  failure_saved = elim (tries_left k.attempt_count) [
    | inl n ↦
        subst (λ x. update x (k ∷ []) ≡ x ∷ []) (sym (failure-delayed n))
          (update_one delayed k refl)
    | inr n ↦
        subst (λ x. update x (k ∷ []) ≡ x ∷ []) (sym (failure-failed n))
          (update_one (with_status failed k) k refl)
  ]

module _ (is_id : String → Bool) (valid : String → String → Bool) where
  unfoldable pub round : Round → World → World
  round r w = process_retries true works r.polled (turn is_id valid true r.outcome w)

  -- All calls work, and the scheduler looks after the longest backoff.
  pub record IsFine (k : Message) (r : Round) : Type 0 where
    pub well : GoesWell is_id valid k r.outcome
    pub late : r.outcome.now + sixteen_seconds ≤ r.polled

  turn-waiting :
      (o : Outcome) (k : Message) (done : List DeliveryAttempt)
      → is_id k.id ≡ true
      → turn is_id valid true o (waiting k done) ≡ deliver valid o k (settled k done)
  unfolding pop find_by_id
  turn-waiting o k done e =
      turn-delivers is_id valid true o (waiting k done) k.id [] k refl (ground arith)
        (rw (eq_refl k.id) refl)

  pub round-settled :
      (r : Round) (k : Message) (done : List DeliveryAttempt)
      → is_retry k.status ≡ false
      → round r (settled k done) ≡ settled k done
  unfolding round pop
  round-settled r k done h =
      ap (process_retries true works r.polled)
        (turn-none is_id valid true r.outcome (settled k done) refl)
      ∙ unready-settled k done r.polled (ground arith)

  module _ (r : Round) (k : Message) (done : List DeliveryAttempt) (h : IsFine k r) where
    abbrev pub tries : List DeliveryAttempt
    tries = done ++ attempt_of r.outcome k ∷ []

    pub round-accepted :
        is_success r.outcome.answered ≡ true
        → round r (waiting k done) ≡ settled (with_status success k) tries
    unfolding round
    round-accepted e =
        ap (process_retries true works r.polled) (
          turn-waiting r.outcome k done h.well.names
          ∙ deliver-accepted is_id valid k r.outcome (settled k done) h.well e
          ∙ ap (λ ms. record { messages = ms; attempts = tries; queue = [] }) (success_saved k))
        ∙ unready-settled (with_status success k) tries r.polled refl

    refused :
        is_success r.outcome.answered ≡ false
        → round r (waiting k done)
          ≡ process_retries true works r.polled (settled (after_failure r.outcome.now k) tries)
    unfolding round
    refused e = ap (process_retries true works r.polled) (
        turn-waiting r.outcome k done h.well.names
        ∙ deliver-refused is_id valid k r.outcome (settled k done) h.well e
        ∙ ap (λ ms. record { messages = ms; attempts = tries; queue = [] })
            (failure_saved k done r.outcome.now))

    pub round-again :
        is_success r.outcome.answered ≡ false
        → k.attempt_count ≤ 4
        → round r (waiting k done) ≡ waiting (again r.outcome.now k) tries
    round-again e n =
        refused e
        ∙ ap (λ x. process_retries true works r.polled (settled x tries))
            (failure-delayed k done r.outcome.now n)
        ∙ ready-settled (delayed k done r.outcome.now) tries r.polled
            (ground (arith, backoff-le k.attempt_count n, h.late))

    pub round-failed :
        is_success r.outcome.answered ≡ false
        → 5 ≤ k.attempt_count
        → round r (waiting k done) ≡ settled (with_status failed k) tries
    round-failed e n =
        refused e
        ∙ ap (λ x. process_retries true works r.polled (settled x tries))
            (failure-failed k done r.outcome.now n)
        ∙ unready-settled (with_status failed k) tries r.polled refl
