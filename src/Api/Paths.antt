-- ===== src/Api/Paths.antt =====
-- What the query of a logs request says: web/src/features/dashboard/api/dashboard-api.ts.
use chis.Base.{ℕ, zero, suc, String, ◌≡◌, Option, none, some, arith, truthy?, if◌then◌else◌}
use chis.Net.LocalStorage.{get_item}
use chis.Api.Types.{WebhookLogsParams}
use chis.Api.Dashboard.{log_query}

-- A filter is sent unless it counts as false.
abbrev pub sent_text : Option String → Option String
sent_text s = if truthy? s then s else none

abbrev pub sent_number : (ℕ → String) → Option ℕ → Option String
sent_number print none = none
sent_number print (some zero) = none
sent_number print (some (suc n)) = some (print (suc n))

pub record QueryOf (print : ℕ → String) (p : WebhookLogsParams) : Type 0 where
  pub status : get_item (log_query print p) "status" ≡ sent_text p.status
  pub search : get_item (log_query print p) "search" ≡ sent_text p.search
  pub page : get_item (log_query print p) "page" ≡ sent_number print p.page
  pub limit : get_item (log_query print p) "limit" ≡ sent_number print p.limit

module _ (print : ℕ → String) (p : WebhookLogsParams) where
  -- Each of the four parameters of a logs request stands in the query under its own key, whatever
  -- the others are, and stands there exactly when it is given and is neither empty nor 0.
  pub log_query-QueryOf : QueryOf print p
  unfolding log_query get_item
  log_query-QueryOf = ground arith
