-- ===== src/Pages/LogsPage/Paging.antt =====
-- Where the buttons of the page of logs lead.
use chis.Base.{
  ℕ, ◌+◌, ◌-◌, String, ◌≡◌, refl, Bool-cases, inl, inr, Option, none, some, List, [], ◌∷◌, ◌++◌,
  arith, ltb, if◌then◌else◌,
}
use chis.Api.Types.{WebhookLog}
use chis.View.{clicks, clicks-append}
use chis.Pages.LogsPage.{
  LogsPageState, LogsAction, go_to_page, log_list, error_banner, pages_bar, view,
}

clicks-rows :
    (print : ℕ → String) (date : String → String) (ls : List WebhookLog)
    → clicks (log_list print date ls) ≡ []
unfolding log_list
clicks-rows print date [] = refl
clicks-rows print date (l ∷ []) = refl
clicks-rows print date (l ∷ k ∷ ls) = clicks-rows print date (k ∷ ls)

clicks-error_banner : (e : Option String) → clicks (error_banner e) ≡ []
unfolding error_banner
clicks-error_banner none = refl
clicks-error_banner (some e) = ground arith

-- The page one before, if there is one, and the page one after, if there is one.
abbrev pub neighbours : ℕ → ℕ → List LogsAction
neighbours page total =
    (if ltb 1 page then go_to_page (page - 1) ∷ [] else [])
    ++ (if ltb page total then go_to_page (page + 1) ∷ [] else [])

clicks-pages_bar :
    (print : ℕ → String) (s : LogsPageState)
    → clicks (pages_bar print s)
      ≡ (if ltb 1 s.total_pages then neighbours s.page s.total_pages else [])
unfolding pages_bar
clicks-pages_bar print s = ground arith

-- The buttons that work lead to the neighbours of the page that is shown, those of them that lie
-- within the pages, if there is more than one page, and there are none otherwise.
pub clicks-logs_view :
    (print : ℕ → String) (date : String → String) (s : LogsPageState)
    → clicks (view print date s)
      ≡ (if ltb 1 s.total_pages then neighbours s.page s.total_pages else [])
unfolding view
clicks-logs_view print date s = elim (Bool-cases s.is_loading) [
  | inl e ↦ simp (clicks-append, clicks-error_banner, e, clicks-pages_bar)
  | inr e ↦ simp (clicks-append, clicks-error_banner, e, clicks-rows, clicks-pages_bar)
]
