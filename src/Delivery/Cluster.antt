-- ===== src/Delivery/Cluster.antt =====
-- The services side by side: any number of workers, and one scheduler (k8s/), each between two of its
-- calls of Postgres and Redis. A call that fails leaves out what it would have done.
use chis.Base.{ℕ, String, Bool, true, ◌≡◌, Option, none, some, List, [], ◌∷◌, ◌++◌}
use chis.Delivery.{World, Message, no_messages}
use chis.Delivery.Messages.{find_by_id, find_retry_ready}
use chis.Delivery.Queue.{pop}
use chis.Delivery.Service.{QueueMessageRequest, queue_message}
use chis.Delivery.Worker.{Outcome, deliver}
use chis.Delivery.Scheduler.{requeue, mark_pending}

pub record Cluster : Type 0 where
  pub world : World
  pub open world use *
  -- ids that a worker has popped and not read, and messages that it has read and not delivered
  pub popped : List String
  pub held : List Message
  -- messages that the scheduler has fetched, and the one that it has pushed and not marked
  pub batch : List Message
  pub marking : Option Message

abbrev pub idle : Cluster
idle = record { world = no_messages; popped = []; held = []; batch = []; marking = none }

module _ (is_id : String → Bool) (valid : String → String → Bool) where
  pub data Step : Cluster → Cluster → Type 0 where
    -- The database generates an id that no row has.
    submitted :
        (c : Cluster) (req : QueueMessageRequest) (id : String) (pushed : Bool)
        → find_by_id id c.messages ≡ none
        → Step c (record c {
          world =
              (queue_message is_id req (record { created = some id; pushed = pushed }) c.world).0;
        })
    pops :
        (c : Cluster) (id : String) (rest : List String)
        → pop c.queue ≡ some (id, rest)
        → Step c (record c { world = record c.world { queue = rest }; popped = id ∷ c.popped })
    reads :
        (c : Cluster) (l r : List String) (id : String) (m : Message)
        → c.popped ≡ l ++ id ∷ r
        → is_id id ≡ true
        → find_by_id id c.messages ≡ some m
        → Step c (record c { popped = l ++ r; held = m ∷ c.held })
    -- no id, no row, or no answer
    skips :
        (c : Cluster) (l r : List String) (id : String)
        → c.popped ≡ l ++ id ∷ r
        → Step c (record c { popped = l ++ r })
    delivers :
        (c : Cluster) (l r : List Message) (m : Message) (o : Outcome)
        → c.held ≡ l ++ m ∷ r
        → Step c (record c { world = deliver valid o m c.world; held = l ++ r })
    polls :
        (c : Cluster) (now : ℕ)
        → c.batch ≡ []
        → c.marking ≡ none
        → Step c (record c { batch = find_retry_ready now 10 c.messages })
    requeues :
        (c : Cluster) (m : Message) (ms : List Message) (pushed : Bool)
        → c.batch ≡ m ∷ ms
        → c.marking ≡ none
        → Step c (record c { world = requeue pushed m c.world; batch = ms; marking = some m })
    marks :
        (c : Cluster) (m : Message) (saved : Bool)
        → c.marking ≡ some m
        → Step c (record c { world = mark_pending saved m c.world; marking = none })

  -- Any number of steps.
  pub data Steps (c : Cluster) : Cluster → Type 0 where
    stay : Steps c c
    later : {d e : Cluster} → Steps c d → Step d e → Steps c e
