-- ===== src/Delivery/Stats/Counted.antt =====
-- The statistics count the messages of the logs.
use chis.Base.{
  ℕ, ◌+◌, ◌-◌, ◌<◌, String, Bool, true, ◌≡◌, refl, ap, ◌∙◌, none, some, List, [], ◌∷◌, map, length,
  length-append, ◌==◌, ◌||◌, arith, if◌then◌else◌,
}
use Prim.Native.Nat.{◌*◌, ◌^◌}
use mathlib.Core.Option
use mathlib.Core.Option.{Option}
use chis.Base.Array
use chis.Delivery.{World, Message, DeliveryAttempt, Status, pending, success, failed, retry}
use chis.Delivery.Logs.{
  matches, matching, find_webhook_logs, entry_of, newest_first, status_text, is_status, page_or,
  limit_or,
}
use chis.Delivery.Logs.Pages.{offset_of-fits, lt→ltb}
use chis.Delivery.Stats.{count, any_status, is_success, is_failed, is_queued, get_stats_by_org_id}

length-newest_first : (ms : List Message) → length (newest_first ms) ≡ length ms
length-newest_first [] = refl
length-newest_first (m ∷ ms) =
    omega (arith, length-append (newest_first ms) (m ∷ []), length-newest_first ms)

length-entries :
    (attempts : List DeliveryAttempt) (ms : List Message)
    → length (map (entry_of attempts) ms) ≡ length ms
length-entries attempts [] = refl
length-entries attempts (m ∷ ms) = omega (arith, length-entries attempts ms)

filter-same :
    (p q : Message → Bool) (ms : List Message)
    → ((m : Message) → p m ≡ q m)
    → length (Array.filter p ms) ≡ length (Array.filter q ms)
filter-same p q [] h = refl
filter-same p q (m ∷ ms) h = ground (arith, h m, filter-same p q ms h)

abbrev bit : Bool → ℕ
bit b = if b then 1 else 0

-- Two conditions of which each message of a third meets one.
count-sum :
    (p q r : Status → Bool) (org_id : String) (ms : List Message)
    → ((s : Status) → bit (p s) + bit (q s) ≡ bit (r s))
    → count p org_id ms + count q org_id ms ≡ count r org_id ms
count-sum p q r org_id [] h = omega arith
count-sum p q r org_id (m ∷ ms) h = ground (arith, h m.status, count-sum p q r org_id ms h)

abbrev has_text : String → Status → Bool
has_text text s = status_text s == text

abbrev is_final : Status → Bool
is_final s = is_success s || is_failed s

sent_or_failed : (s : Status) → bit (is_success s) + bit (is_failed s) ≡ bit (is_final s)
sent_or_failed pending = omega arith
sent_or_failed success = omega arith
sent_or_failed failed = omega arith
sent_or_failed retry = omega arith

final_or_queued : (s : Status) → bit (is_final s) + bit (is_queued s) ≡ bit (any_status s)
final_or_queued pending = omega arith
final_or_queued success = omega arith
final_or_queued failed = omega arith
final_or_queued retry = omega arith

pending_or_retry :
    (s : Status) → bit (has_text "pending" s) + bit (has_text "retry" s) ≡ bit (is_queued s)
pending_or_retry pending = omega arith
pending_or_retry success = omega arith
pending_or_retry failed = omega arith
pending_or_retry retry = omega arith

has_text-success : (s : Status) → has_text "success" s ≡ is_success s
has_text-success pending = refl
has_text-success success = refl
has_text-success failed = refl
has_text-success retry = refl

has_text-failed : (s : Status) → has_text "failed" s ≡ is_failed s
has_text-failed pending = refl
has_text-failed success = refl
has_text-failed failed = refl
has_text-failed retry = refl

-- The sum of two numbers that both are there.
abbrev pub sum : Option ℕ → Option ℕ → Option ℕ
sum (some a) (some b) = some (a + b)
sum none _ = none
sum (some a) none = none

module _ (ilike : String → String → Bool) (org_id : String) (page limit : ℕ) (w : World) where
  -- The total that the logs give with a status.
  abbrev pub total_of : String → Option ℕ
  total_of status =
      Option.map (λ r. r.total) (find_webhook_logs ilike org_id status "" page limit w)

  module _ (fits : (page_or page - 1) * limit_or limit < 2 ^ 63) where
    total-count :
        (status : String) (p : Status → Bool)
        → (status == "" || is_status status) ≡ true
        → ((s : Status) → (status == "" || status_text s == status) ≡ p s)
        → total_of status ≡ some (count p org_id w.messages)
    unfolding find_webhook_logs matching matches
    total-count status p known h =
        rw
          (
            known,
            offset_of-fits (page_or page) (limit_or limit) fits,
            lt→ltb ((page_or page - 1) * limit_or limit) (2 ^ 63) fits,
          )
          (ap some (
            length-entries w.attempts
              (newest_first (Array.filter (matches ilike org_id status "") w.messages))
            ∙ length-newest_first (Array.filter (matches ilike org_id status "") w.messages)
            ∙ filter-same _ _ w.messages (λ m. ground (arith, h m.status))))

    -- For a page whose offset is an `int64`, the statistics count what the logs list: the sent, failed
    -- and queued messages are those of the logs with the statuses success and failed, and pending or
    -- retry, and together all that the logs list.
    pub get_stats-find_webhook_logs :
        {R : Type 0} (zero_rate : R) (percent : ℕ → ℕ → R)
        → let s = get_stats_by_org_id zero_rate percent org_id w in
          (total_of "success" ≡ some s.total_sent)
          × (total_of "failed" ≡ some s.total_failed)
          × (sum (total_of "pending") (total_of "retry") ≡ some s.total_queued)
          × (total_of "" ≡ some (s.total_sent + s.total_failed + s.total_queued))
    unfolding get_stats_by_org_id is_status
    get_stats-find_webhook_logs zero_rate percent =
        let ms = w.messages in
        let queued =
          count-sum (has_text "pending") (has_text "retry") is_queued org_id ms pending_or_retry in
        (
          total-count "success" is_success refl has_text-success,
          total-count "failed" is_failed refl has_text-failed,
          ap (λ o. sum o (total_of "retry"))
                (total-count "pending" (has_text "pending") refl (λ s. refl))
              ∙ ap (sum (some (count (has_text "pending") org_id ms)))
                  (total-count "retry" (has_text "retry") refl (λ s. refl))
              ∙ ap some queued,
          total-count "" any_status refl (λ s. refl)
              ∙ ap some (
                  omega (
                    arith,
                    count-sum is_success is_failed is_final org_id ms sent_or_failed,
                    count-sum is_final is_queued any_status org_id ms final_or_queued,
                  )),
        )
