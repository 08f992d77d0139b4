-- ===== src/Hooks/WebhookLogs/Debounce.antt =====
-- Typing in the search field, and the timeout.
use chis.Base.{
  String, ◌≡◌, ◌⊎◌, refl, ap, sym, ◌∙◌, inl, inr, Bool, true, false, Option, none, some, List, [],
  ◌∷◌, arith, eq_iff, Bool-cases, if◌then◌else◌,
}
use mathlib.Core.Option
use chis.Net.{Settled, fulfilled, rejected}
use chis.Api.Types.{PaginatedResponse, WebhookLog}
use chis.Hooks.WebhookLogs.{
  LogsState, load_settled, Component, Deps, LogsEvent, initial, deps_of, debounce, reset_page,
  fetch, fire, set_page, filters_changed, fetch_changed, response, timer_fired, search_changed,
  commit, render, handle, run,
}
use chis.Hooks.WebhookLogs.Requests.{deps-commit, seen-commit, seen-render}

-- The text waits in the timer, or it has been taken over.
abbrev pub IsDebounced : Component → Type 0
IsDebounced c =
    (c.timer ≡ some c.state.search)
    ⊎ ((c.timer ≡ none) × (c.state.debounced_search ≡ c.state.search))

abbrev IsPending : Component → Type 0
IsPending c =
    (d : Deps)
    → c.seen ≡ some d
    → (c.timer ≡ some d.search) ⊎ ((c.timer ≡ none) × (c.state.debounced_search ≡ d.search))

timer-fetch : (b : Bool) (d : Deps) (c : Component) → (fetch b d c).timer ≡ c.timer
unfolding fetch
timer-fetch true d c = refl
timer-fetch false d c = refl

timer-reset_page : (b : Bool) (c : Component) → (reset_page b c).timer ≡ c.timer
unfolding reset_page set_page
timer-reset_page b c = ground arith

timer-debounce :
    (b : Bool) (c : Component) → (debounce b c).timer ≡ (if b then some c.state.search else c.timer)
unfolding debounce
timer-debounce true c = refl
timer-debounce false c = refl

timer-commit :
    (org : Option String) (c : Component)
    → (commit org c).timer
      ≡ (if search_changed c.seen (deps_of org c.state) then some c.state.search else c.timer)
unfolding commit
timer-commit org c =
    let d = deps_of org c.state in
    let waiting = debounce (search_changed c.seen d) c in
    timer-fetch (fetch_changed c.seen d) d (reset_page (filters_changed c.seen d) waiting)
    ∙ timer-reset_page (filters_changed c.seen d) waiting
    ∙ timer-debounce (search_changed c.seen d) c

-- The text of the field is left alone, and so is the debounced text.
texts-commit :
    (org : Option String) (c : Component)
    → ((commit org c).state.search ≡ c.state.search)
      × ((commit org c).state.debounced_search ≡ c.state.debounced_search)
texts-commit org c = (
  ap (λ (d : Deps). d.search) (deps-commit org c),
  ap (λ (d : Deps). d.debounced_search) (deps-commit org c),
)

same_search :
    (seen : Option Deps) (d : Deps)
    → search_changed seen d ≡ false
    → (e : Deps) × (seen ≡ some e) × (e.search ≡ d.search)
same_search none d h = cc
same_search (some e) d h = (e, refl, ground (arith, eq_iff e.search d.search))

commit-IsPending : (org : Option String) (c : Component) → IsPending c → IsPending (commit org c)
commit-IsPending org c h d e = elim (Bool-cases (search_changed c.seen (deps_of org c.state))) [
  | inl new ↦ inl (timer-commit org c ∙ rw new (ap (Option.map (λ (x : Deps). x.search)) saw))
  | inr old ↦
      let (before, seen, same) = same_search c.seen (deps_of org c.state) old in
      let timer : (commit org c).timer ≡ c.timer = rw old at (timer-commit org c) in
      ground (arith, h before seen, same, timer, texts-commit org c, saw)
]
  where
    saw : some (deps_of org c.state) ≡ some d
    saw = sym (seen-commit org c) ∙ e

fire-IsPending :
    (text : Option String) (c : Component) → c.timer ≡ text → IsPending c → IsPending (fire text c)
unfolding fire
fire-IsPending none c t h = h
fire-IsPending (some text) c t h = λ d q. ground (arith, h d q)

debounced-load_settled :
    (b : Bool) (r : Settled (PaginatedResponse WebhookLog)) (s : LogsState)
    → (load_settled b r s).debounced_search ≡ s.debounced_search
unfolding load_settled
debounced-load_settled b (fulfilled _) s = ground arith
debounced-load_settled b (rejected _) s = ground arith

handle-IsPending : (e : LogsEvent) (c : Component) → IsPending c → IsPending (handle e c)
unfolding handle set_page
handle-IsPending timer_fired c h = fire-IsPending c.timer c refl h
handle-IsPending (response k r) c h =
    λ d q. rw (debounced-load_settled (c.cancelled k) r c.state) (h d q)
handle-IsPending _ c h = h

run-IsPending :
    (es : List (LogsEvent × Option String)) (c : Component) → IsPending c → IsPending (run es c)
unfolding run render
run-IsPending [] c h = h
run-IsPending ((e, org) ∷ es) c h = run-IsPending es (commit org (commit org (handle e c))) (
    commit-IsPending org (commit org (handle e c))
      (commit-IsPending org (handle e c) (handle-IsPending e c h)))

-- After any history, the text of the search field waits in the pending timeout, or no timeout is
-- pending and the text has been taken over as the debounced one.
pub run-IsDebounced :
    (es : List (LogsEvent × Option String)) (e : LogsEvent) (org : Option String)
    → IsDebounced (render org (handle e (run es initial)))
run-IsDebounced es e org =
    let c = handle e (run es initial) in
    unfold render in
    commit-IsPending org (commit org c)
      (commit-IsPending org c
        (handle-IsPending e (run es initial) (run-IsPending es initial (λ d q. cc))))
      _ (seen-render org c)
