-- ===== src/Delivery/Worker/Turns.antt =====
-- What a turn of the worker does, case by case.
use chis.Base.{String, Bool, true, false, ◌≡◌, refl, none, some, List, ◌&&◌}
use chis.Delivery.{World, Message}
use chis.Delivery.Messages.{find_by_id}
use chis.Delivery.Queue.{pop}
use chis.Delivery.Worker.{Outcome, turn, deliver, found}

abbrev pub without : World → List String → World
without w rest = record w { queue = rest }

module _ (is_id : String → Bool) (valid : String → String → Bool) (read : Bool) (o : Outcome)
    (w : World) where
  pub turn-none : pop w.queue ≡ none → turn is_id valid read o w ≡ w
  unfolding turn
  turn-none e = rw (turn, e) refl

  module _ (id : String) (rest : List String) where
    pub turn-unread :
        pop w.queue ≡ some (id, rest)
        → (is_id id && read) ≡ false
        → turn is_id valid read o w ≡ without w rest
    unfolding turn
    turn-unread e f = rw (turn, e, f) refl

    pub turn-missing :
        pop w.queue ≡ some (id, rest)
        → (is_id id && read) ≡ true
        → find_by_id id w.messages ≡ none
        → turn is_id valid read o w ≡ without w rest
    unfolding turn found
    turn-missing e f g = rw (turn, e, f, g) refl

    pub turn-delivers :
        (m : Message)
        → pop w.queue ≡ some (id, rest)
        → (is_id id && read) ≡ true
        → find_by_id id w.messages ≡ some m
        → turn is_id valid read o w ≡ deliver valid o m (without w rest)
    unfolding turn found
    turn-delivers m e f g = rw (turn, e, f, g) refl
