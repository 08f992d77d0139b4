-- ===== src/Delivery/Loops.antt =====
-- The loops of the worker and of the scheduler, as steps among those of the others.
use chis.Base.{
  ℕ, String, Bool, true, false, ◌≡◌, refl, Bool-cases, inl, inr, none, some, Option-cases, List, [],
  ◌∷◌, ◌&&◌, arith,
}
use chis.Delivery.{World, Message}
use chis.Delivery.Messages.{find_by_id, find_retry_ready}
use chis.Delivery.Queue.{pop}
use chis.Delivery.Worker.{Outcome, turn}
use chis.Delivery.Worker.Turns.{turn-none, turn-unread, turn-missing, turn-delivers}
use chis.Delivery.Scheduler
use chis.Delivery.Scheduler.{requeue, mark_pending, requeue_all, process_retries}
use chis.Delivery.Cluster.{
  Cluster, Steps, pops, reads, skips, delivers, polls, requeues, marks, stay, later,
}

module _ (is_id : String → Bool) (valid : String → String → Bool) where
  Steps-trans :
      {c d e : Cluster} → Steps is_id valid c d → Steps is_id valid d e → Steps is_id valid c e
  Steps-trans ss stay = ss
  Steps-trans ss (later ts t) = later (Steps-trans ss ts) t

  module _ (read : Bool) (o : Outcome) (c : Cluster) where
    -- A worker has popped the id.
    abbrev one_popped : String → List String → Cluster
    one_popped id rest = record c {
      world = record c.world { queue = rest };
      popped = id ∷ c.popped;
    }

    popped-Steps :
        (id : String) (rest : List String)
        → pop c.queue ≡ some (id, rest)
        → Steps is_id valid
            (one_popped id rest)
            (record c { world = turn is_id valid read o c.world })
    popped-Steps id rest e =
        let c1 = one_popped id rest in
        let skipped = later stay (skips c1 [] c.popped id refl) in
        elim (Bool-cases (is_id id && read)) [
          | inr n ↦ rw (turn-unread is_id valid read o c.world id rest e n) skipped
          | inl y ↦ elim (Option-cases (find_by_id id c.messages)) [
            | inl n ↦ rw (turn-missing is_id valid read o c.world id rest e y n) skipped
            | inr (k, f) ↦
                let c2 = record c1 { popped = c.popped; held = k ∷ c.held } in
                rw (turn-delivers is_id valid read o c.world id rest k e y f) (
                  later (later stay (reads c1 [] c.popped id k refl (ground arith) f))
                    (delivers c2 [] c.held k o refl))
          ]
        ]

    -- A turn of the worker is steps of the cluster, whatever else is under way.
    pub turn-Steps : Steps is_id valid c (record c { world = turn is_id valid read o c.world })
    turn-Steps = elim (Option-cases (pop c.queue)) [
      | inl n ↦ rw (turn-none is_id valid read o c.world n) stay
      | inr ((id, rest), s) ↦ Steps-trans (later stay (pops c id rest s)) (popped-Steps id rest s)
    ]

  requeue_all-Steps :
      (calls : String → Scheduler.Calls) (ms : List Message) (c : Cluster)
      → Steps is_id valid
          (record c { batch = ms; marking = none })
          (record c { world = requeue_all calls ms c.world; batch = []; marking = none })
  unfolding requeue_all
  requeue_all-Steps calls [] c = stay
  requeue_all-Steps calls (k ∷ ms) c =
      let c0 = record c { batch = k ∷ ms; marking = none } in
      let c1 = record c0 {
        world = requeue (calls k.id).pushed k c.world;
        batch = ms;
        marking = some k;
      } in
      let c2 = record c1 { world = mark_pending (calls k.id).saved k c1.world; marking = none } in
      Steps-trans
        (later (later stay (requeues c0 k ms (calls k.id).pushed refl refl))
          (marks c1 k (calls k.id).saved refl))
        (requeue_all-Steps calls ms c2)

  -- So is a turn of the scheduler, between two of which it holds no message.
  pub process_retries-Steps :
      (read : Bool) (calls : String → Scheduler.Calls) (now : ℕ) (c : Cluster)
      → Steps is_id valid
          (record c { batch = []; marking = none })
          (record c { world = process_retries read calls now c.world; batch = []; marking = none })
  unfolding process_retries
  process_retries-Steps false calls now c = stay
  process_retries-Steps true calls now c =
      Steps-trans (later stay (polls (record c { batch = []; marking = none }) now refl refl))
        (requeue_all-Steps calls (find_retry_ready now 10 c.messages) c)

  -- A turn of a worker, or of the scheduler, with what its calls do.
  pub data Turn : Type 0 where
    delivery : Bool → Outcome → Turn
    retries : Bool → (String → Scheduler.Calls) → ℕ → Turn

  unfoldable pub run : List Turn → World → World
  run [] w = w
  run (delivery read o ∷ ts) w = run ts (turn is_id valid read o w)
  run (retries read calls now ∷ ts) w = run ts (process_retries read calls now w)

  -- Whole turns of the loops of the worker and of the scheduler, in any order, are steps of the cluster,
  -- whatever other workers hold: what holds after any steps holds after the loops.
  pub run-Steps :
      (ts : List Turn) (c : Cluster)
      → Steps is_id valid
          (record c { batch = []; marking = none })
          (record c { world = run ts c.world; batch = []; marking = none })
  unfolding run
  run-Steps [] c = stay
  run-Steps (delivery read o ∷ ts) c =
      Steps-trans (turn-Steps read o (record c { batch = []; marking = none }))
        (run-Steps ts (record c { world = turn is_id valid read o c.world }))
  run-Steps (retries read calls now ∷ ts) c =
      Steps-trans (process_retries-Steps read calls now c)
        (run-Steps ts (record c { world = process_retries read calls now c.world }))
