-- ===== src/Delivery/Worker/Rows.antt =====
-- What a delivery does to the two tables, case by case.
use chis.Base.{
  String, Bool, true, false, ◌≡◌, refl, Bool-cases, inl, inr, List, [], ◌∷◌, ◌++◌, All, All-append,
}
use chis.Delivery.{World, Message, DeliveryAttempt, success, failed}
use chis.Delivery.Messages.{update, update_status}
use chis.Delivery.Worker.{
  Outcome, deliver, is_success, after_failure, attempt_of, log, save, progress,
}

module _ {κ} (P : List Message → Type κ) (o : Outcome) (m : Message) where
  save-rows :
      (b : Bool) (f : List Message → List Message) (w : World)
      → P w.messages
      → P (f w.messages)
      → P (save b f w).messages
  unfolding save
  save-rows true f w h k = k
  save-rows false f w h k = h

  log-rows : (b : Bool) (a : DeliveryAttempt) (w : World) → (log b a w).messages ≡ w.messages
  unfolding log
  log-rows true a w = refl
  log-rows false a w = refl

  progress-rows :
      (ms : List Message)
      → P (update_status m.id success ms)
      → P (update (after_failure o.now m) ms)
      → P (progress o m ms)
  unfolding progress
  progress-rows ms s f = elim (Bool-cases (is_success o.answered)) [
    | inl e ↦ rw e s
    | inr e ↦ rw e f
  ]

  -- The messages are as before, or are updated after a success, a failure, or a request that could not
  -- be made.
  pub deliver-rows :
      (valid : String → String → Bool) (w : World)
      → P w.messages
      → P (update_status m.id success w.messages)
      → P (update (after_failure o.now m) w.messages)
      → P (update_status m.id failed w.messages)
      → P (deliver valid o m w).messages
  unfolding deliver
  deliver-rows valid w h s f x = elim (Bool-cases (valid m.method m.url)) [
    | inl e ↦
        let v = log o.logged (attempt_of o m) w in
        let same = log-rows o.logged (attempt_of o m) w in
        rw e
          (save-rows o.saved (progress o m) v (rw same h) (rw same (progress-rows w.messages s f)))
    | inr e ↦ rw e (save-rows o.saved _ w h x)
  ]

module _ {κ} (P : DeliveryAttempt → Type κ) where
  save-attempts :
      (b : Bool) (f : List Message → List Message) (w : World) → (save b f w).attempts ≡ w.attempts
  unfolding save
  save-attempts true f w = refl
  save-attempts false f w = refl

  log-attempts :
      (b : Bool) (a : DeliveryAttempt) (w : World)
      → P a
      → All P w.attempts
      → All P (log b a w).attempts
  unfolding log
  log-attempts true a w k h = All-append P w.attempts (a ∷ []) h (k, tt)
  log-attempts false a w k h = h

  pub deliver-attempts :
      (valid : String → String → Bool) (o : Outcome) (m : Message) (w : World)
      → P (attempt_of o m)
      → All P w.attempts
      → All P (deliver valid o m w).attempts
  unfolding deliver
  deliver-attempts valid o m w k h = elim (Bool-cases (valid m.method m.url)) [
    | inl e ↦ rw (e, save-attempts) (log-attempts o.logged (attempt_of o m) w k h)
    | inr e ↦ rw (e, save-attempts) h
  ]

save-queue : (b : Bool) (f : List Message → List Message) (w : World) → (save b f w).queue ≡ w.queue
unfolding save
save-queue true f w = refl
save-queue false f w = refl

log-queue : (b : Bool) (a : DeliveryAttempt) (w : World) → (log b a w).queue ≡ w.queue
unfolding log
log-queue true a w = refl
log-queue false a w = refl

-- A delivery does not touch the queue.
pub deliver-queue :
    (valid : String → String → Bool) (o : Outcome) (m : Message) (w : World)
    → (deliver valid o m w).queue ≡ w.queue
unfolding deliver
deliver-queue valid o m w = elim (Bool-cases (valid m.method m.url)) [
  | inl e ↦ rw (e, save-queue, log-queue) refl
  | inr e ↦ rw (e, save-queue) refl
]

-- A delivery whose calls all work.
pub record GoesWell (is_id : String → Bool) (valid : String → String → Bool) (m : Message)
    (o : Outcome) : Type 0 where
  pub names : is_id m.id ≡ true
  pub sendable : valid m.method m.url ≡ true
  pub logged : o.logged ≡ true
  pub saved : o.saved ≡ true

module _ (is_id : String → Bool) (valid : String → String → Bool) (m : Message) (o : Outcome)
    (w : World) where
  pub deliver-accepted :
      GoesWell is_id valid m o
      → is_success o.answered ≡ true
      → deliver valid o m w ≡ record w {
        messages = update_status m.id success w.messages;
        attempts = w.attempts ++ attempt_of o m ∷ [];
      }
  unfolding deliver log save progress
  deliver-accepted h e = rw (h.sendable, h.logged, h.saved, e) refl

  pub deliver-refused :
      GoesWell is_id valid m o
      → is_success o.answered ≡ false
      → deliver valid o m w ≡ record w {
        messages = update (after_failure o.now m) w.messages;
        attempts = w.attempts ++ attempt_of o m ∷ [];
      }
  unfolding deliver log save progress
  deliver-refused h e = rw (h.sendable, h.logged, h.saved, e) refl
