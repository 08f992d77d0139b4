-- ===== src/Delivery/Logs/Own.antt =====
-- The details of a log are those of the organization, and of the message that is asked for.
use chis.Base.{
  String, Bool, ◌≡◌, refl, subst, inl, inr, Bool-cases, Option, some, none, List, [], ◌∷◌, arith,
  All, All-imp, leb, ◌==◌, eq_iff, ◌≤◌,
}
use chis.Base.Array
use mathlib.Core.List.Perm
use mathlib.Core.List.{Perm}
use chis.Delivery.{World, Message, DeliveryAttempt}
use chis.Delivery.Messages.{find_by_id}
use chis.Delivery.Logs.{
  ok, WebhookLogDetail, webhook_log_detail, shown_detail, find_by_message_id, insert_by_number,
  order_by_number, of_message,
}

module _ {κ} (P : DeliveryAttempt → Type κ) where
  insert_by_number-All :
      (a : DeliveryAttempt) (bs : List DeliveryAttempt)
      → P a
      → All P bs
      → All P (insert_by_number a bs)
  unfolding insert_by_number
  insert_by_number-All a [] h k = (h, tt)
  insert_by_number-All a (b ∷ bs) h k = elim (Bool-cases (leb a.attempt_number b.attempt_number)) [
    | inl e ↦ rw e (h, k)
    | inr e ↦ rw e (k.0, insert_by_number-All a bs h k.1)
  ]

-- In the order of their numbers.
abbrev pub IsOrdered : List DeliveryAttempt → Type 0
IsOrdered [] = Unit
IsOrdered (a ∷ rest) = All (λ b. a.attempt_number ≤ b.attempt_number) rest × IsOrdered rest

insert_by_number-IsOrdered :
    (a : DeliveryAttempt) (bs : List DeliveryAttempt)
    → IsOrdered bs
    → IsOrdered (insert_by_number a bs)
unfolding insert_by_number
insert_by_number-IsOrdered a [] h = (tt, tt)
insert_by_number-IsOrdered a (b ∷ bs) h =
    elim (Bool-cases (leb a.attempt_number b.attempt_number)) [
      | inl e ↦ rw e ((ground arith, All-imp bs (λ c k. ground arith) h.0), h)
      | inr e ↦ rw e (
        insert_by_number-All (λ c. b.attempt_number ≤ c.attempt_number) a bs (ground arith) h.0,
        insert_by_number-IsOrdered a bs h.1,
      )
    ]

order_by_number-IsOrdered : (bs : List DeliveryAttempt) → IsOrdered (order_by_number bs)
unfolding order_by_number
order_by_number-IsOrdered [] = tt
order_by_number-IsOrdered (b ∷ bs) =
    insert_by_number-IsOrdered b (order_by_number bs) (order_by_number-IsOrdered bs)

insert_by_number-perm :
    (a : DeliveryAttempt) (bs : List DeliveryAttempt) → Perm (insert_by_number a bs) (a ∷ bs)
unfolding insert_by_number
insert_by_number-perm a [] = Perm.refl (a ∷ [])
insert_by_number-perm a (b ∷ bs) = elim (Bool-cases (leb a.attempt_number b.attempt_number)) [
  | inl e ↦ rw e (Perm.refl (a ∷ b ∷ bs))
  | inr e ↦ rw e (Perm.trans (Perm.cons b (insert_by_number-perm a bs)) (Perm.swap a b bs))
]

order_by_number-perm : (bs : List DeliveryAttempt) → Perm (order_by_number bs) bs
unfolding order_by_number
order_by_number-perm [] = Perm.refl []
order_by_number-perm (b ∷ bs) =
    Perm.trans (insert_by_number-perm b (order_by_number bs))
      (Perm.cons b (order_by_number-perm bs))

-- A log that is shown to an organization: its row, and all the attempts of the message.
pub record IsOwn (org_id id : String) (w : World) (d : WebhookLogDetail) : Type 0 where
  pub org : d.message.org_id ≡ org_id
  pub row : find_by_id id w.messages ≡ some d.message
  pub attempts : Perm d.attempts (Array.filter (λ a. a.message_id == d.message.id) w.attempts)
  pub ordered : IsOrdered d.attempts

shown-IsOwn :
    (answered : Bool) (org_id id : String) (o : Option Message) (w : World) (d : WebhookLogDetail)
    → find_by_id id w.messages ≡ o
    → shown_detail answered org_id o w ≡ ok d
    → IsOwn org_id id w d
unfolding shown_detail find_by_message_id
shown-IsOwn answered org_id id none w d f e = absurd cc
shown-IsOwn answered org_id id (some m) w d f e = elim (Bool-cases (m.org_id == org_id)) [
  | inr n ↦ absurd (ground arith)
  | inl y ↦ elim (Bool-cases answered) [
    | inr n ↦ absurd (ground arith)
    | inl a ↦ subst (IsOwn org_id id w) (ground arith) (record {
      org = (eq_iff m.org_id org_id).0 y;
      row = f;
      attempts = order_by_number-perm (Array.filter (of_message m.id) w.attempts);
      ordered = order_by_number-IsOrdered (Array.filter (of_message m.id) w.attempts);
    })
  ]
]

-- A log is shown only to the organization of its message, with all the attempts of that message, each as
-- often as it is stored and no others, in the order of their numbers.
pub detail-IsOwn :
    (is_id : String → Bool) (read answered : Bool) (org_id id : String) (w : World)
    (d : WebhookLogDetail)
    → webhook_log_detail is_id read answered (some org_id) id w ≡ ok d
    → IsOwn org_id id w d
unfolding webhook_log_detail
detail-IsOwn is_id read answered org_id id w d e =
    shown-IsOwn answered org_id id (find_by_id id w.messages) w d refl (ground arith)
