-- ===== src/Tests/Loading.antt =====
-- The loading effect, and the hooks that use it.
use text.Mathlib.TextLemmas.{nil≢cons}
use chis.Effect
use chis.Base.{
  String, ◌≢◌, ◌≡◌, refl, true, false, Option, some, none, List, [], ◌∷◌, ◌++◌, arith, length,
}
use chis.Base.Array
use chis.Net.{fulfilled, rejected, not_error}
use chis.Api.Types.{ApiKey}
use chis.Effect.{Event, Mounted, rerun, settled, unmount, mount, run}
use chis.Effect.Fresh.{
  IsFresh, mount-IsFresh, settlements, run-without_stale, without_stale, state-latest,
}
use chis.Hooks.ApiKeys
use chis.Hooks.Invitations
use chis.Hooks.WebhookLogs
use chis.Hooks.WebhookLogs.{
  LogsEvent, searched, filter_chosen, timer_fired, org_changed, page_chosen, handle, render,
  deps_of,
}
use chis.Hooks.WebhookLogs.Requests.{live-request}
use chis.Hooks.WebhookLogs.Debounce.{IsDebounced, run-IsDebounced}

-- The organization changes twice, the first answer comes last, and the page is left.
abbrev events : List (Event ApiKeys.ApiKeysState (List ApiKey))
events =
    rerun true
    ∷ rerun true
    ∷ settled 1 (fulfilled [])
    ∷ settled 0 (rejected not_error)
    ∷ unmount
    ∷ []

run-without_stale_example :
    run ApiKeys.loader events (mount ApiKeys.initial)
    ≡ run ApiKeys.loader
        (without_stale ApiKeys.loader (mount ApiKeys.initial) events)
        (mount ApiKeys.initial)
run-without_stale_example =
    run-without_stale ApiKeys.loader events (mount ApiKeys.initial) (mount-IsFresh ApiKeys.initial)

abbrev twice : Mounted Invitations.InvitationsState
twice = run Invitations.loader (rerun true ∷ rerun true ∷ []) (mount Invitations.initial)

twice-IsFresh : IsFresh twice
unfolding run Effect.step Effect.cleanup
twice-IsFresh = record { live = λ k h. ground arith }

state-latest_example :
    (run Invitations.loader
      (rerun true ∷ settlements Invitations.loader ((0, rejected not_error) ∷ [])
        ++ settled twice.started (fulfilled [])
          ∷ settlements Invitations.loader ((1, rejected not_error) ∷ []))
      twice).state
    ≡ Invitations.load_settled false (fulfilled []) (Invitations.load_begin twice.state)
unfolding run Effect.step Effect.cleanup
state-latest_example =
    state-latest Invitations.loader twice (fulfilled []) ((0, rejected not_error) ∷ [])
      ((1, rejected not_error) ∷ []) twice-IsFresh (omega arith, tt) (omega arith, tt)

-- A first render, a search, the timeout, and the second page.
abbrev history : List (LogsEvent × Option String)
history =
    (org_changed, some "o1")
    ∷ (searched "hook", some "o1")
    ∷ (timer_fired, some "o1")
    ∷ (page_chosen 2, some "o1")
    ∷ []

abbrev shown : WebhookLogs.Component
shown = render (some "o1") (handle (page_chosen 3) (WebhookLogs.run history WebhookLogs.initial))

live : shown.cancelled 3 ≡ false
unfolding render handle WebhookLogs.run Effect.step WebhookLogs.load_begin
live = refl

live-request_example :
    (4 ≡ length shown.requests)
    × (Array.head? shown.requests
        ≡ some (record { page = some 3; limit = some 20; status = none; search = some "hook" }))
unfolding render handle WebhookLogs.run Effect.step WebhookLogs.load_begin
live-request_example = live-request history (page_chosen 3) (some "o1") 3 live

run-IsDebounced_example : IsDebounced shown
run-IsDebounced_example = run-IsDebounced history (page_chosen 3) (some "o1")

seen_shown : shown.seen ≡ some (deps_of (some "o1") shown.state)
unfolding render handle WebhookLogs.run Effect.step WebhookLogs.load_begin
seen_shown = refl

rendered : shown.first_render ≡ false
unfolding render handle WebhookLogs.run Effect.step WebhookLogs.load_begin
rendered = refl

other_filter : shown.state.status_filter ≢ "failed"
unfolding render handle WebhookLogs.run Effect.step WebhookLogs.load_begin
other_filter = (λ e. nil≢cons e)
