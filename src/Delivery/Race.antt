-- ===== src/Delivery/Race.antt =====
-- A delivery that overtakes the scheduler between its push and its update.
use chis.Base.{String, Bool, true, ◌≡◌, refl, ap, List, [], ◌∷◌, ◌++◌, some, none}
use chis.Delivery.{Message, DeliveryAttempt, pending, success}
use chis.Delivery.Messages.{find_by_id, with_status, with_progress, update, update_status}
use chis.Delivery.Messages.Parked.{IsParked, find-own, update_where-All-IsQuiet}
use chis.Delivery.Queue.{push, pop}
use chis.Delivery.Worker.{Outcome, deliver, is_success, attempt_of}
use chis.Delivery.Worker.Rows.{GoesWell, deliver-accepted, deliver-queue}
use chis.Delivery.Scheduler.{requeue, mark_pending}
use chis.Delivery.Cluster.{Cluster, Steps, pops, reads, delivers, requeues, marks, stay, later}
use chis.Delivery.Lost.{IsLost}

remarked-IsParked :
    (m : Message) (ms : List Message)
    → find_by_id m.id ms ≡ some m
    → IsParked
        (with_status pending m)
        (update (with_status pending m) (update_status m.id success ms))
unfolding update update_status
remarked-IsParked m ms h = record {
  found =
      find-own (with_progress (with_status pending m)) m.id (with_status success m) _ (λ _. refl)
        (find-own (with_status success) m.id m ms (λ _. refl) h);
  waits = refl;
  quiet = update_where-All-IsQuiet (with_progress (with_status pending m)) m.id _ (λ _. refl);
}

module _ (is_id : String → Bool) (valid : String → String → Bool) (m : Message) (o : Outcome)
    (rows : List Message) (attempts : List DeliveryAttempt) where
  -- The scheduler has fetched the message, and nothing else is under way.
  abbrev pub fetched : Cluster
  fetched = record {
    world = record { messages = rows; attempts = attempts; queue = [] };
    popped = [];
    held = [];
    batch = m ∷ [];
    marking = none;
  }

  -- Its delivery comes between the two calls of the scheduler.
  overtaken : Cluster
  overtaken = record {
    world =
        mark_pending true m
          (deliver valid o m (record { messages = rows; attempts = attempts; queue = [] }));
    popped = [];
    held = [];
    batch = [];
    marking = none;
  }

  fetched-overtaken :
      is_id m.id ≡ true → find_by_id m.id rows ≡ some m → Steps is_id valid fetched overtaken
  unfolding overtaken requeue push pop
  fetched-overtaken e f =
      let c1 = record fetched {
        world = requeue true m fetched.world;
        batch = [];
        marking = some m;
      } in
      let c2 = record c1 { world = record c1.world { queue = [] }; popped = m.id ∷ [] } in
      let c3 = record c2 { popped = []; held = m ∷ [] } in
      let c4 = record c3 { world = deliver valid o m c3.world; held = [] } in
      later
        (later
          (later (later (later stay (requeues fetched m [] true refl refl)) (pops c1 m.id [] refl))
            (reads c2 [] [] m.id m refl e f))
          (delivers c3 [] [] m o refl))
        (marks c4 m true refl)

  overtaken-IsLost :
      GoesWell is_id valid m o
      → is_success o.answered ≡ true
      → find_by_id m.id rows ≡ some m
      → IsLost (with_status pending m) overtaken
  unfolding overtaken mark_pending
  overtaken-IsLost g s f = record {
    parked = rw (deliver-accepted is_id valid m o _ g s) (remarked-IsParked m rows f);
    queued =
        rw (deliver-queue valid o m (record { messages = rows; attempts = attempts; queue = [] }))
          tt;
    popped = tt;
    held = tt;
    batch = tt;
    marking = tt;
  }

  -- A message that the scheduler has just fetched can be delivered with success, with the attempt
  -- recorded, and yet be left pending where nothing will deliver it or change its row: the worker is
  -- faster than the scheduler's update, which writes its old copy of the message.
  pub delivered_and_IsLost :
      GoesWell is_id valid m o
      → is_success o.answered ≡ true
      → find_by_id m.id rows ≡ some m
      → (d : Cluster) × Steps is_id valid fetched d
        × (d.attempts ≡ attempts ++ attempt_of o m ∷ [])
        × IsLost (with_status pending m) d
  unfolding overtaken mark_pending
  delivered_and_IsLost g s f = (
    overtaken,
    fetched-overtaken g.names f,
    ap (λ w. w.attempts) (deliver-accepted is_id valid m o _ g s),
    overtaken-IsLost g s f,
  )
