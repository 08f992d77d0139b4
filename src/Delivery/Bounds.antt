-- ===== src/Delivery/Bounds.antt =====
-- How often a message is tried, however the services interleave.
use chis.Base.{
  String, Bool, true, false, ◌≡◌, subst, Option, none, some, Option-cases, arith, All, All-append,
  All-middle, All-find, All-kept, Bool-cases, inl, inr,
}
use chis.Delivery.{World, Message, pending}
use chis.Delivery.Messages.{has_id, create, find_by_id, retry_ready, with_status}
use chis.Delivery.Messages.Every.{All-find_retry_ready}
use chis.Delivery.Service.{Calls, QueueMessageRequest, queue_message}
use chis.Delivery.Worker.Counting.{
  IsSmall, IsNumbered, update-IsSmall, deliver-IsSmall, deliver-IsNumbered,
}
use chis.Delivery.Scheduler.{requeue, mark_pending}
use chis.Delivery.Cluster.{
  Cluster, idle, Step, Steps, submitted, pops, reads, skips, delivers, polls, requeues, marks, stay,
  later,
}

abbrev AllSmall : Option Message → Type 0
AllSmall none = Unit
AllSmall (some m) = IsSmall m

-- Every copy of a message, and every recorded attempt.
pub record IsBounded (c : Cluster) : Type 0 where
  pub rows : All IsSmall c.messages
  pub logged : All IsNumbered c.attempts
  pub held : All IsSmall c.held
  pub batch : All IsSmall c.batch
  pub marking : AllSmall c.marking

module _ (is_id : String → Bool) (valid : String → String → Bool) where
  submitted-IsSmall :
      (req : QueueMessageRequest) (calls : Calls) (w : World)
      → All IsSmall w.messages
      → All IsSmall (queue_message is_id req calls w).0.messages
  unfolding queue_message create
  submitted-IsSmall req calls w h = elim (Bool-cases (is_id req.org_id)) [
    | inl e ↦ rw e (elim (Option-cases calls.created) [
      | inl n ↦ rw n h
      | inr (id, s) ↦ rw s (All-append IsSmall w.messages _ h (omega arith, tt))
    ])
    | inr e ↦ rw e h
  ]

  submitted-attempts :
      (req : QueueMessageRequest) (calls : Calls) (w : World)
      → (queue_message is_id req calls w).0.attempts ≡ w.attempts
  unfolding queue_message
  submitted-attempts req calls w = elim (Bool-cases (is_id req.org_id)) [
    | inl e ↦ rw e (elim (Option-cases calls.created) [ inl n ↦ rw n | inr (id, s) ↦ rw s ])
    | inr e ↦ rw e
  ]

  marked-IsSmall :
      (saved : Bool) (m : Message) (w : World)
      → IsSmall m
      → All IsSmall w.messages
      → All IsSmall (mark_pending saved m w).messages
  unfolding mark_pending
  marked-IsSmall true m w k h = update-IsSmall (with_status pending m) w.messages k h
  marked-IsSmall false m w k h = h

  Step-IsBounded : {c d : Cluster} → Step is_id valid c d → IsBounded c → IsBounded d
  unfolding find_by_id requeue mark_pending
  Step-IsBounded (submitted c req id pushed _) h = record {
    rows = submitted-IsSmall req _ c.world h.rows;
    logged = rw (submitted-attempts req _ c.world) h.logged;
    held = h.held;
    batch = h.batch;
    marking = h.marking;
  }
  Step-IsBounded (pops c id rest _) h = record {
    rows = h.rows;
    logged = h.logged;
    held = h.held;
    batch = h.batch;
    marking = h.marking;
  }
  Step-IsBounded (reads c l r id m _ _ e) h = record {
    rows = h.rows;
    logged = h.logged;
    held = (All-find IsSmall (has_id id) c.messages m h.rows e, h.held);
    batch = h.batch;
    marking = h.marking;
  }
  Step-IsBounded (skips c l r id _) h = record {
    rows = h.rows;
    logged = h.logged;
    held = h.held;
    batch = h.batch;
    marking = h.marking;
  }
  Step-IsBounded (delivers c l r m o e) h =
      let (small, others) = All-middle IsSmall l r m (subst (All IsSmall) e h.held) in
      record {
        rows = deliver-IsSmall valid o m c.world small h.rows;
        logged = deliver-IsNumbered valid o m c.world small h.logged;
        held = others;
        batch = h.batch;
        marking = h.marking;
      }
  Step-IsBounded (polls c now _ _) h = record {
    rows = h.rows;
    logged = h.logged;
    held = h.held;
    batch =
        All-find_retry_ready IsSmall now 10 c.messages
          (All-kept IsSmall (retry_ready now) c.messages h.rows);
    marking = h.marking;
  }
  Step-IsBounded (requeues c m ms pushed e _) h =
      let (small, others) = subst (All IsSmall) e h.batch in
      record { rows = h.rows; logged = h.logged; held = h.held; batch = others; marking = small }
  Step-IsBounded (marks c m saved e) h = record {
    rows = marked-IsSmall saved m c.world (subst AllSmall e h.marking) h.rows;
    logged = h.logged;
    held = h.held;
    batch = h.batch;
    marking = tt;
  }

  Steps-IsBounded : {c d : Cluster} → Steps is_id valid c d → IsBounded c → IsBounded d
  Steps-IsBounded stay h = h
  Steps-IsBounded (later ss s) h = Step-IsBounded s (Steps-IsBounded ss h)

  -- From empty tables, however the services interleave and whichever of their calls fail, no row
  -- ever counts more than 5 attempts, and every recorded attempt is numbered from 1 to 6.
  pub attempts_bounded :
      {c : Cluster} → Steps is_id valid idle c → All IsSmall c.messages × All IsNumbered c.attempts
  attempts_bounded ss =
      let h =
        Steps-IsBounded ss
          (record { rows = tt; logged = tt; held = tt; batch = tt; marking = tt }) in
      (h.rows, h.logged)
