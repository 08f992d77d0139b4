-- ===== src/Delivery/Lost.antt =====
-- A message that nothing will deliver: it is pending, and no queue and no service holds its id.
use chis.Base.{
  ℕ, String, Bool, true, false, ◌≡◌, ◌≢◌, refl, sym, ◌∙◌, subst, Bool-cases, inl, inr, Option, none,
  some, Option-cases, List, arith, All, All-middle, eq_iff,
}
use chis.Base.Array
use chis.Delivery.{World, Message, Status, pending}
use chis.Delivery.Messages.{has_id, find_by_id, with_status, update, update_status, with_progress}
use chis.Delivery.Messages.Parked.{
  IsParked, update_where-IsParked, create-IsParked, find_retry_ready-IsParked,
}
use chis.Delivery.Queue.{push, All-pop}
use chis.Delivery.Service.{Calls, QueueMessageRequest, queue_message}
use chis.Delivery.Worker.{Outcome, deliver, after_failure}
use chis.Delivery.Worker.Rows.{deliver-rows, deliver-queue}
use chis.Delivery.Scheduler.{requeue, mark_pending}
use chis.Delivery.Cluster.{
  Cluster, Step, Steps, submitted, pops, reads, skips, delivers, polls, requeues, marks, stay,
  later,
}

abbrev NotIt : String → Option Message → Type 0
NotIt id none = Unit
NotIt id (some k) = k.id ≢ id

pub record IsLost (m : Message) (c : Cluster) : Type 0 where
  pub parked : IsParked m c.messages
  pub queued : All (λ i. i ≢ m.id) c.queue
  pub popped : All (λ i. i ≢ m.id) c.popped
  pub held : All (λ k. k.id ≢ m.id) c.held
  pub batch : All (λ k. k.id ≢ m.id) c.batch
  pub marking : NotIt m.id c.marking

module _ (m : Message) where
  after_failure-id : (now : ℕ) (k : Message) → (after_failure now k).id ≡ k.id
  unfolding after_failure
  after_failure-id now k = ground arith

  update-IsParked :
      (k : Message) (ms : List Message) → k.id ≢ m.id → IsParked m ms → IsParked m (update k ms)
  unfolding update
  update-IsParked k ms n h = update_where-IsParked m (with_progress k) k.id ms n (λ _. refl) h

  update_status-IsParked :
      (id : String) (s : Status) (ms : List Message)
      → id ≢ m.id
      → IsParked m ms
      → IsParked m (update_status id s ms)
  unfolding update_status
  update_status-IsParked id s ms n h = update_where-IsParked m (with_status s) id ms n (λ _. refl) h

  deliver-IsParked :
      (valid : String → String → Bool) (o : Outcome) (k : Message) (w : World)
      → k.id ≢ m.id
      → IsParked m w.messages
      → IsParked m (deliver valid o k w).messages
  deliver-IsParked valid o k w n h =
      deliver-rows (IsParked m) o k valid w h (update_status-IsParked k.id _ w.messages n h)
        (update-IsParked (after_failure o.now k) w.messages (rw (after_failure-id o.now k) n) h)
        (update_status-IsParked k.id _ w.messages n h)

  marked-IsParked :
      (saved : Bool) (k : Message) (w : World)
      → k.id ≢ m.id
      → IsParked m w.messages
      → IsParked m (mark_pending saved k w).messages
  unfolding mark_pending
  marked-IsParked true k w n h = update-IsParked (with_status pending k) w.messages n h
  marked-IsParked false k w n h = h

module _ (is_id : String → Bool) (valid : String → String → Bool) (m : Message) where
  submitted-IsParked :
      (req : QueueMessageRequest) (calls : Calls) (w : World)
      → IsParked m w.messages
      → IsParked m (queue_message is_id req calls w).0.messages
  unfolding queue_message
  submitted-IsParked req calls w h = elim (Bool-cases (is_id req.org_id)) [
    | inl e ↦ rw e (elim (Option-cases calls.created) [
      | inl n ↦ rw n h
      | inr (id, s) ↦
          rw s (create-IsParked m id req.org_id req.method req.url req.payload w.messages h)
    ])
    | inr e ↦ rw e h
  ]

  abbrev IsOther : Message → Type 0
  IsOther k = k.id ≢ m.id

  found_id :
      (id : String) (k : Message) (ms : List Message)
      → id ≢ m.id
      → find_by_id id ms ≡ some k
      → k.id ≢ m.id
  unfolding find_by_id
  found_id id k ms n e q =
      let same = Array.find-holds (has_id id) ms k e in n (sym ((eq_iff k.id id).0 same) ∙ q)

  requeue-queue :
      (pushed : Bool) (k : Message) (w : World)
      → k.id ≢ m.id
      → All (λ i. i ≢ m.id) w.queue
      → All (λ i. i ≢ m.id) (requeue pushed k w).queue
  unfolding requeue push
  requeue-queue true k w n h = (n, h)
  requeue-queue false k w n h = h

  marked-queue :
      (saved : Bool) (k : Message) (w : World)
      → All (λ i. i ≢ m.id) w.queue
      → All (λ i. i ≢ m.id) (mark_pending saved k w).queue
  unfolding mark_pending
  marked-queue saved k w h = h

  -- The database gives another id.
  submitted-queue :
      (req : QueueMessageRequest) (id : String) (pushed : Bool) (w : World)
      → id ≢ m.id
      → All (λ i. i ≢ m.id) w.queue
      → All
          (λ i. i ≢ m.id)
          (queue_message is_id req (record { created = some id; pushed = pushed }) w).0.queue
  unfolding queue_message push
  submitted-queue req id pushed w n h = elim (Bool-cases (is_id req.org_id)) [
    | inl e ↦ rw e (elim (Bool-cases pushed) [ inl p ↦ rw p (n, h) | inr p ↦ rw p h ])
    | inr e ↦ rw e h
  ]

  fresh : (id : String) (ms : List Message) → IsParked m ms → find_by_id id ms ≡ none → id ≢ m.id
  fresh id ms h e k = let f = h.found in cc

  Step-IsLost : {c d : Cluster} → Step is_id valid c d → IsLost m c → IsLost m d
  unfolding requeue push
  Step-IsLost (submitted c req id pushed e) h = record {
    parked = submitted-IsParked req _ c.world h.parked;
    queued = submitted-queue req id pushed c.world (fresh id c.messages h.parked e) h.queued;
    popped = h.popped;
    held = h.held;
    batch = h.batch;
    marking = h.marking;
  }
  Step-IsLost (pops c id rest e) h =
      let (it, others) = All-pop (λ i. i ≢ m.id) c.queue rest id h.queued e in
      record {
        parked = h.parked;
        queued = others;
        popped = (it, h.popped);
        held = h.held;
        batch = h.batch;
        marking = h.marking;
      }
  Step-IsLost (reads c l r id k p _ e) h =
      let (it, others) =
        All-middle (λ i. i ≢ m.id) l r id (subst (All (λ i. i ≢ m.id)) p h.popped) in
      record {
        parked = h.parked;
        queued = h.queued;
        popped = others;
        held = (found_id id k c.messages it e, h.held);
        batch = h.batch;
        marking = h.marking;
      }
  Step-IsLost (skips c l r id p) h = record {
    parked = h.parked;
    queued = h.queued;
    popped = (All-middle (λ i. i ≢ m.id) l r id (subst (All (λ i. i ≢ m.id)) p h.popped)).1;
    held = h.held;
    batch = h.batch;
    marking = h.marking;
  }
  Step-IsLost (delivers c l r k o e) h =
      let (it, others) = All-middle IsOther l r k (subst (All IsOther) e h.held) in
      record {
        parked = deliver-IsParked m valid o k c.world it h.parked;
        queued = rw (deliver-queue valid o k c.world) h.queued;
        popped = h.popped;
        held = others;
        batch = h.batch;
        marking = h.marking;
      }
  Step-IsLost (polls c now _ _) h = record {
    parked = h.parked;
    queued = h.queued;
    popped = h.popped;
    held = h.held;
    batch = find_retry_ready-IsParked m now 10 c.messages h.parked;
    marking = h.marking;
  }
  Step-IsLost (requeues c k ks pushed e _) h =
      let (it, others) = subst (All IsOther) e h.batch in
      record {
        parked = h.parked;
        queued = requeue-queue pushed k c.world it h.queued;
        popped = h.popped;
        held = h.held;
        batch = others;
        marking = it;
      }
  Step-IsLost (marks c k saved e) h = record {
    parked = marked-IsParked m saved k c.world (subst (NotIt m.id) e h.marking) h.parked;
    queued = marked-queue saved k c.world h.queued;
    popped = h.popped;
    held = h.held;
    batch = h.batch;
    marking = tt;
  }

  Steps-IsLost : {c d : Cluster} → Steps is_id valid c d → IsLost m c → IsLost m d
  Steps-IsLost stay h = h
  Steps-IsLost (later ss s) h = Step-IsLost s (Steps-IsLost ss h)

  -- Once a pending message stands in no queue and with no service, it stays so, and its row stays as it
  -- is, whatever the services do after that: it is never delivered.
  pub IsLost-forever :
      {c d : Cluster}
      → Steps is_id valid c d
      → IsLost m c
      → IsLost m d × (find_by_id m.id d.messages ≡ some m)
  IsLost-forever ss h = let k = Steps-IsLost ss h in (k, k.parked.found)
