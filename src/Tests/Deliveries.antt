-- ===== src/Tests/Deliveries.antt =====
-- Concrete inputs of the services in Go.
use chis.Base.{
  ℕ, String, Bool, true, false, ◌≡◌, refl, some, List, [], ◌∷◌, length, arith, All, truthy,
}
use chis.Delivery.{World, Message, DeliveryAttempt, pending, success, retry, no_messages}
use chis.Delivery.Messages.{find_by_id, with_status, create, retry_ready}
use chis.Delivery.Queue.{push, pop}
use chis.Delivery.Service.{QueueMessageRequest, queue_message}
use chis.Delivery.Worker.{Outcome, answer, is_success, attempt_of, deliver}
use chis.Delivery.Worker.Backoff.{deliver-rescheduled}
use chis.Delivery.Worker.Counting.{IsSmall, IsNumbered}
use chis.Delivery.Cluster.{Cluster, idle, Steps, submitted, pops, stay, later}
use chis.Delivery.Bounds.{attempts_bounded}
use chis.Delivery.Lost.{IsLost, IsLost-forever}
use chis.Delivery.Race.{delivered_and_IsLost, fetched}
use chis.Delivery.Rounds.{every_message_ends, rounds, first_row}
use chis.Delivery.Rounds.Once.{Round, IsFine, settled}
use chis.Delivery.Loops.{Turn, delivery, retries, run, run-Steps}

abbrev any_id : String → Bool
any_id s = truthy s

abbrev any_url : String → String → Bool
any_url m u = truthy u

abbrev order_paid : QueueMessageRequest
order_paid = record { org_id = "o1"; method = "POST"; url = "https://shop.example"; payload = "{}" }

abbrev refused_at : ℕ → Outcome
refused_at t = record {
  answered = answer 500 "down";
  ms = 12;
  now = t;
  logged = true;
  saved = true;
}

abbrev accepted_at : ℕ → Outcome
accepted_at t = record { answered = answer 200 ""; ms = 9; now = t; logged = true; saved = true }

abbrev paid : Message
paid = first_row any_id any_url "m1" order_paid

-- Two answers 500, a 200, and three rounds more.
abbrev six_rounds : List Round
six_rounds =
    record { outcome = refused_at 0; polled = 17000000000 }
    ∷ record { outcome = refused_at 20000000000; polled = 40000000000 }
    ∷ record { outcome = accepted_at 41000000000; polled = 60000000000 }
    ∷ record { outcome = refused_at 61000000000; polled = 80000000000 }
    ∷ record { outcome = refused_at 81000000000; polled = 100000000000 }
    ∷ record { outcome = refused_at 101000000000; polled = 120000000000 }
    ∷ []

six-IsFine : All (IsFine any_id any_url paid) six_rounds
six-IsFine = (
  record {
    well = record { names = refl; sendable = refl; logged = refl; saved = refl };
    late = omega arith;
  },
  (
    record {
      well = record { names = refl; sendable = refl; logged = refl; saved = refl };
      late = omega arith;
    },
    (
      record {
        well = record { names = refl; sendable = refl; logged = refl; saved = refl };
        late = omega arith;
      },
      (
        record {
          well = record { names = refl; sendable = refl; logged = refl; saved = refl };
          late = omega arith;
        },
        (
          record {
            well = record { names = refl; sendable = refl; logged = refl; saved = refl };
            late = omega arith;
          },
          (
            record {
              well = record { names = refl; sendable = refl; logged = refl; saved = refl };
              late = omega arith;
            },
            tt,
          ),
        ),
      ),
    ),
  ),
)

every_message_ends_example :
    (row : Message) × (made : List DeliveryAttempt) × (rounds any_id any_url six_rounds
        (queue_message any_id order_paid
          (record { created = some "m1"; pushed = true })
          no_messages).0
      ≡ settled row made)
    × (row.id ≡ "m1")
    × (row.status ≡ success)
    × (length made ≡ 3)
unfolding is_success
every_message_ends_example =
    every_message_ends any_id any_url "m1" order_paid six_rounds refl six-IsFine (omega arith)

abbrev one_queued : Cluster
one_queued = record idle {
  world =
      (queue_message any_id order_paid (record { created = some "m1"; pushed = true })
        no_messages).0;
}

-- The service takes a message, and a worker reads and delivers it.
abbrev one_popped : Cluster
one_popped = record one_queued {
  world = record one_queued.world { queue = [] };
  popped = "m1" ∷ [];
}

two-Steps : Steps any_id any_url idle one_popped
unfolding queue_message create push pop find_by_id
two-Steps =
    later (later stay (submitted idle order_paid "m1" true refl)) (pops one_queued "m1" [] refl)

attempts_bounded_example : All IsSmall one_popped.messages × All IsNumbered one_popped.attempts
attempts_bounded_example = attempts_bounded any_id any_url two-Steps

-- A message in the table that is not in the queue.
abbrev unqueued : Cluster
unqueued = record idle {
  world =
      (queue_message any_id order_paid (record { created = some "m1"; pushed = false })
        no_messages).0;
}

abbrev unqueued_and_more : Cluster
unqueued_and_more = record unqueued {
  world =
      (queue_message any_id order_paid (record { created = some "m2"; pushed = true })
        unqueued.world).0;
}

unqueued-IsLost : IsLost paid unqueued
unfolding queue_message create find_by_id
unqueued-IsLost = record {
  parked = record { found = refl; waits = refl; quiet = (refl, tt) };
  queued = tt;
  popped = tt;
  held = tt;
  batch = tt;
  marking = tt;
}

one_more : Steps any_id any_url unqueued unqueued_and_more
unfolding queue_message create find_by_id
one_more = later stay (submitted unqueued order_paid "m2" true refl)

IsLost-forever_example :
    IsLost paid unqueued_and_more × (find_by_id "m1" unqueued_and_more.messages ≡ some paid)
IsLost-forever_example = IsLost-forever any_id any_url paid one_more unqueued-IsLost

abbrev tried_once : Message
tried_once = record paid { status = retry; attempt_count = 1; next_retry_at = some 1000000000 }

delivered_and_IsLost_example :
    (d : Cluster) × Steps any_id any_url
      (fetched any_id any_url tried_once (accepted_at 5) (tried_once ∷ []) [])
      d
    × (d.attempts ≡ attempt_of (accepted_at 5) tried_once ∷ [])
    × IsLost (with_status pending tried_once) d
unfolding is_success find_by_id
delivered_and_IsLost_example =
    delivered_and_IsLost any_id any_url tried_once (accepted_at 5) (tried_once ∷ []) []
      (record { names = refl; sendable = refl; logged = refl; saved = refl }) refl refl

abbrev one_tried : World
one_tried = record { messages = tried_once ∷ []; attempts = []; queue = [] }

deliver-rescheduled_example :
    (find_by_id "m1" (deliver any_url (refused_at 7) tried_once one_tried).messages
      ≡ some (record tried_once {
        status = retry;
        attempt_count = 2;
        next_retry_at = some 2000000007;
      }))
    × (retry_ready 2000000006
          (record tried_once { status = retry; attempt_count = 2; next_retry_at = some 2000000007 })
        ≡ false)
unfolding is_success find_by_id
deliver-rescheduled_example =
    deliver-rescheduled any_id any_url tried_once (refused_at 7) one_tried 2000000006
      (record { names = refl; sendable = refl; logged = refl; saved = refl }) refl refl

abbrev two_turns : List (Turn any_id any_url)
two_turns =
    delivery true (refused_at 0)
    ∷ retries true (λ _. record { pushed = true; saved = true }) 2000000000
    ∷ []

run-Steps_example :
    Steps any_id any_url one_queued
      (record one_queued { world = run any_id any_url two_turns one_queued.world })
run-Steps_example = run-Steps any_id any_url two_turns one_queued
