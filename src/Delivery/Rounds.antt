-- ===== src/Delivery/Rounds.antt =====
-- The worker and the scheduler in turns, on a table with one message, where all their calls work.
pub mod Once
use chis.Base.{
  ℕ, suc, zero, ◌+◌, ◌≤◌, String, Bool, true, false, ◌≡◌, refl, sym, ap, ◌∙◌, Bool-cases, inl, inr,
  List, [], ◌∷◌, ◌++◌, length, arith, All, All-imp, Option, some, none, if◌then◌else◌,
}
use mathlib.Core.List.{append_assoc}
use chis.Base.Array
use chis.Delivery.Queue.{push}
use chis.Delivery.Service.{QueueMessageRequest, queue_message}
use chis.Delivery.{World, no_messages, Message, DeliveryAttempt, Status, success, failed, pending}
use chis.Delivery.Messages.{with_status, is_retry, create}
use chis.Delivery.Worker.{Outcome, is_success, attempt_of, backoff}
use chis.Delivery.Rounds.Once.{
  Round, round, waiting, settled, again, IsFine, round-accepted, round-again, round-failed,
  round-settled,
}

abbrev accepted : Round → Bool
accepted r = is_success r.outcome.answered

-- How a message ends that is tried at most so often, and how many attempts that takes.
abbrev pub verdict : ℕ → List Round → Status
verdict n rs = if Array.any accepted (Array.take n rs) then success else failed

abbrev pub tried : ℕ → List Round → ℕ
tried zero rs = 0
tried (suc n) [] = 0
tried (suc n) (r ∷ rs) = let rest = tried n rs in if accepted r then 1 else suc rest

module _ (is_id : String → Bool) (valid : String → String → Bool) where
  unfoldable pub rounds : List Round → World → World
  rounds [] w = w
  rounds (r ∷ rs) w = rounds rs (round is_id valid r w)

  rounds-settled :
      (rs : List Round) (k : Message) (done : List DeliveryAttempt)
      → is_retry k.status ≡ false
      → rounds rs (settled k done) ≡ settled k done
  unfolding rounds
  rounds-settled [] k done h = refl
  rounds-settled (r ∷ rs) k done h =
      rw (round-settled is_id valid r k done h) (rounds-settled rs k done h)

  -- How a message ends that is still to be tried so often.
  record Ends (n : ℕ) (rs : List Round) (k : Message) (done : List DeliveryAttempt) : Type 0 where
    row : Message
    made : List DeliveryAttempt
    same : row.id ≡ k.id
    ends : rounds rs (waiting k done) ≡ settled row (done ++ made)
    status : row.status ≡ verdict n rs
    count : length made ≡ tried n rs

  module _ (n : ℕ) (r : Round) (rs : List Round) (k : Message) (done : List DeliveryAttempt) where
    after_first :
        (w : World)
        → round is_id valid r (waiting k done) ≡ w
        → rounds (r ∷ rs) (waiting k done) ≡ rounds rs w
    unfolding rounds
    after_first w e = ap (rounds rs) e

    Ends-accepted : IsFine is_id valid k r → accepted r ≡ true → Ends (suc n) (r ∷ rs) k done
    Ends-accepted f e = record {
      row = with_status success k;
      made = attempt_of r.outcome k ∷ [];
      same = refl;
      ends =
          after_first _ (round-accepted is_id valid r k done f e)
          ∙ rounds-settled rs (with_status success k) _ refl;
      status = ground arith;
      count = ground arith;
    }

    Ends-failed :
        IsFine is_id valid k r → accepted r ≡ false → 5 ≤ k.attempt_count → Ends 1 (r ∷ rs) k done
    Ends-failed f e c = record {
      row = with_status failed k;
      made = attempt_of r.outcome k ∷ [];
      same = refl;
      ends =
          after_first _ (round-failed is_id valid r k done f e c)
          ∙ rounds-settled rs (with_status failed k) _ refl;
      status = ground arith;
      count = ground arith;
    }

    Ends-again :
        IsFine is_id valid k r
        → accepted r ≡ false
        → k.attempt_count ≤ 4
        → Ends n rs (again r.outcome.now k) (done ++ attempt_of r.outcome k ∷ [])
        → Ends (suc n) (r ∷ rs) k done
    Ends-again f e c h = record {
      row = h.row;
      made = attempt_of r.outcome k ∷ h.made;
      same = h.same;
      ends =
          after_first _ (round-again is_id valid r k done f e c)
          ∙ h.ends
          ∙ ap (settled h.row) (append_assoc done (attempt_of r.outcome k ∷ []) h.made);
      status = ground (arith, h.status);
      count = ground (arith, h.count);
    }

  IsFine-again :
      (now : ℕ) (k : Message) (r : Round)
      → IsFine is_id valid k r
      → IsFine is_id valid (again now k) r
  IsFine-again now k r h = record {
    well = record {
      names = h.well.names;
      sendable = h.well.sendable;
      logged = h.well.logged;
      saved = h.well.saved;
    };
    late = h.late;
  }

  all_end :
      (n : ℕ) (rs : List Round) (k : Message) (done : List DeliveryAttempt)
      → All (IsFine is_id valid k) rs
      → n + k.attempt_count ≡ 6
      → 1 ≤ n
      → n ≤ length rs
      → Ends n rs k done
  all_end zero rs k done f e p l = absurd (omega arith)
  all_end (suc n) [] k done f e p l = absurd (omega arith)
  all_end (suc zero) (r ∷ rs) k done f e p l = elim (Bool-cases (accepted r)) [
    | inl y ↦ Ends-accepted zero r rs k done f.0 y
    | inr y ↦ Ends-failed zero r rs k done f.0 y (omega arith)
  ]
  all_end (suc (suc n)) (r ∷ rs) k done f e p l = elim (Bool-cases (accepted r)) [
    | inl y ↦ Ends-accepted (suc n) r rs k done f.0 y
    | inr y ↦ Ends-again (suc n) r rs k done f.0 y (omega arith) (
        all_end (suc n) rs (again r.outcome.now k) _ (All-imp rs (IsFine-again r.outcome.now k) f.1)
          (omega arith) (omega arith) (omega arith))
  ]

  abbrev pub first_row : String → QueueMessageRequest → Message
  first_row id req = record {
    id = id;
    org_id = req.org_id;
    method = req.method;
    url = req.url;
    payload = req.payload;
    status = pending;
    attempt_count = 0;
    next_retry_at = none;
  }

  -- A message that the service has saved and queued, in empty tables, ends: when the calls of at
  -- least six rounds of the worker and the scheduler work, and the scheduler looks 16 seconds or
  -- more after each attempt, the queue is empty after them, its row is success if one of the
  -- first six answers is a 2xx and failed if none is, and as many attempts are recorded as there
  -- are answers up to the first 2xx, at most six.
  pub every_message_ends :
      (id : String) (req : QueueMessageRequest) (rs : List Round)
      → is_id req.org_id ≡ true
      → All (IsFine is_id valid (first_row id req)) rs
      → 6 ≤ length rs
      → (row : Message) × (made : List DeliveryAttempt) × (rounds rs
            (queue_message is_id req (record { created = some id; pushed = true }) no_messages).0
          ≡ settled row made)
        × (row.id ≡ id)
        × (row.status ≡ verdict 6 rs)
        × (length made ≡ tried 6 rs)
  unfolding queue_message create push
  every_message_ends id req rs e f l =
      let h = all_end 6 rs (first_row id req) [] f refl (omega arith) l in
      (h.row, h.made, rw e h.ends, h.same, h.status, h.count)
