-- ===== src/Delivery/Stats.antt =====
-- The statistics of an organization: GetStatsByOrgID of internal/repository/message.go, and Stats of
-- internal/handler/dashboard.go. `R` is the type of Go's numbers with a fraction, and `percent` what the
-- code computes with them from two counts: math.Round(sent / total * 10000) / 100.
pub mod Counted
use chis.Base.{
  ℕ, String, Bool, true, false, Option, none, some, List, ◌==◌, ◌&&◌, ltb, length, if◌then◌else◌,
}
use chis.Base.Array
use chis.Delivery.{World, Message, Status, pending, success, failed, retry}

pub record MessageStats (R : Type 0) : Type 0 where
  pub total_sent : ℕ
  pub total_failed : ℕ
  pub total_queued : ℕ
  pub success_rate : R

-- COUNT(*) FILTER (WHERE …), of an organization
abbrev pub count : (Status → Bool) → String → List Message → ℕ
count p org_id ms = length (Array.filter (λ m. (m.org_id == org_id) && p m.status) ms)

abbrev pub any_status : Status → Bool
any_status s = true

abbrev pub is_success : Status → Bool
is_success success = true
is_success _ = false

abbrev pub is_failed : Status → Bool
is_failed failed = true
is_failed _ = false

abbrev pub is_queued : Status → Bool
is_queued pending = true
is_queued retry = true
is_queued _ = false

module _ {R : Type 0} (zero_rate : R) (percent : ℕ → ℕ → R) where
  unfoldable pub get_stats_by_org_id : String → World → MessageStats R
  get_stats_by_org_id org_id w =
      let total = count any_status org_id w.messages in
      let sent = count is_success org_id w.messages in
      record {
        total_sent = sent;
        total_failed = count is_failed org_id w.messages;
        total_queued = count is_queued org_id w.messages;
        success_rate = if ltb 0 total then percent sent total else zero_rate;
      }

  -- What the handler answers, or none for its internal error.
  unfoldable pub stats : Bool → String → World → Option (MessageStats R)
  stats up org_id w = if up then some (get_stats_by_org_id org_id w) else none
