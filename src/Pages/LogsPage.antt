-- ===== src/Pages/LogsPage.antt =====
-- web/src/features/dashboard/pages/logs-page.tsx. `date` is `new Date(t).toLocaleDateString()` and
-- `print` a number in a template; the panel's content is Parts.LogDetailView.
pub mod Paging
use chis.Base.{
  ℕ, ◌+◌, ◌-◌, String, Bool, true, false, Option, none, some, is_some, List, [], ◌∷◌, ◌++◌, ◌==◌,
  leb, ltb, truthy, if◌then◌else◌,
}
use chis.Base.Text.{concat}
use chis.Api.Types.{WebhookLog, LogStatus, success, failed, pending}
use chis.Hooks.WebhookLogs.{LogsState, LogsEvent, searched, filter_chosen, page_chosen}
use chis.View.{
  View, Widget, heading, text, banner, skeleton, badge, input, select, button, row, when, each,
}

pub record LogsPageState : Type 0 where
  pub hook : LogsState
  pub open hook use *
  pub selected_log_id : Option String

pub data LogsAction : Type 0 where
  set_search set_status_filter open_log : String → LogsAction
  go_to_page : ℕ → LogsAction

-- What a control tells the hook.
unfoldable pub event_of : LogsAction → Option LogsEvent
event_of (set_search v) = some (searched v)
event_of (set_status_filter v) = some (filter_chosen v)
event_of (open_log id) = none
event_of (go_to_page p) = some (page_chosen p)

unfoldable pub status_badge_variant : LogStatus → String
status_badge_variant success = "default"
status_badge_variant failed = "destructive"
status_badge_variant pending = "secondary"

abbrev pub status_text : LogStatus → String
status_text success = "success"
status_text failed = "failed"
status_text pending = "pending"

-- `onValueChange` of the filter: the value that `setStatusFilter` is called with.
unfoldable pub chosen_filter : Option String → String
chosen_filter none = ""
chosen_filter (some val) = if val == "all" then "" else val

-- `onOpenChange` of the panel, and a click on a row.
unfoldable pub panel_changed : Bool → LogsPageState → LogsPageState
panel_changed is_open s = if is_open then s else record s { selected_log_id = none }

unfoldable pub row_clicked : String → LogsPageState → LogsPageState
row_clicked id s = record s { selected_log_id = some id }

abbrev pub panel_open : LogsPageState → Bool
panel_open s = is_some s.selected_log_id

log_row : (ℕ → String) → (String → String) → WebhookLog → View LogsAction
unfolding status_badge_variant
log_row print date log =
    row (open_log log.id)
    ∷ badge (status_badge_variant log.status) (status_text log.status)
    ∷ text log.endpoint
    ∷ text log.event_type
    ∷ text (print log.status_code)
    ∷ text (concat (print log.response_time_ms) "ms")
    ∷ text (date log.attempted_at)
    ∷ []

log_list : (ℕ → String) → (String → String) → List WebhookLog → View LogsAction
unfolding log_row
log_list print date [] = text "No logs yet" ∷ text "Webhook deliveries will appear here." ∷ []
log_list print date (l ∷ ls) = each (log_row print date) (l ∷ ls)

error_banner : Option String → View LogsAction
error_banner none = []
error_banner (some e) = when (truthy e) (banner e ∷ [])

pages_bar : (ℕ → String) → LogsPageState → View LogsAction
pages_bar print s = when (ltb 1 s.total_pages) (
    text (concat "Page " (concat (print s.page) (concat " of " (print s.total_pages))))
    ∷ button "Previous" (leb s.page 1) (go_to_page (s.page - 1))
    ∷ button "Next" (leb s.total_pages s.page) (go_to_page (s.page + 1))
    ∷ [])

unfoldable pub view : (ℕ → String) → (String → String) → LogsPageState → View LogsAction
unfolding log_list error_banner pages_bar chosen_filter
view print date s =
    heading "Logs"
      ∷ text "Delivery history and status for your webhooks. Click a row to see details."
      ∷ error_banner s.error
    ++ (input "Search endpoints..." s.search set_search
          ∷ select ("all" ∷ "success" ∷ "failed" ∷ "pending" ∷ []) s.status_filter
              (λ val. set_status_filter (chosen_filter val))
          ∷ (if s.is_loading
              then skeleton ∷ skeleton ∷ skeleton ∷ skeleton ∷ skeleton ∷ []
              else log_list print date s.logs)
        ++ pages_bar print s)
