-- ===== src/Hooks/WebhookLogs/Requests.antt =====
-- The results on display answer the filters on display.
use chis.Base.{
  ℕ, suc, String, ◌≡◌, refl, ap, sym, ◌∙◌, Bool, true, false, Option, none, some, is_some, List, [],
  ◌∷◌, arith, length, eq_iff, eq_refl, Bool-cases, inl, inr, truthy, if◌then◌else◌,
}
use chis.Base.Array
use chis.Api.Types.{WebhookLogsParams}
use chis.Effect.{cleanup, step}
use chis.Hooks.WebhookLogs.{
  Deps, Component, LogsEvent, initial, deps_of, params_of, debounce, reset_page, fetch,
  fetch_changed, filters_changed, search_changed, commit, render, handle, fire, run, timer_fired,
  load_begin,
}

abbrev pub asked_for : Option Deps → Option WebhookLogsParams
asked_for none = none
asked_for (some d) = some (params_of d)

-- A run that is not cancelled is the newest, and asked for what the last commit saw.
pub record IsTracked (c : Component) : Type 0 where
  pub counted : c.started ≡ length c.requests
  pub newest : (k : ℕ) → c.cancelled k ≡ false → suc k ≡ c.started
  pub asked : (k : ℕ) → c.cancelled k ≡ false → Array.head? c.requests ≡ asked_for c.seen

initial-IsTracked : IsTracked initial
initial-IsTracked = record { counted = refl; newest = λ k h. cc; asked = λ k h. cc }

debounce-IsTracked : (b : Bool) (c : Component) → IsTracked c → IsTracked (debounce b c)
unfolding debounce
debounce-IsTracked true c h = record { counted = h.counted; newest = h.newest; asked = h.asked }
debounce-IsTracked false c h = h

reset_page-IsTracked : (b : Bool) (c : Component) → IsTracked c → IsTracked (reset_page b c)
unfolding reset_page
reset_page-IsTracked false c h = h
reset_page-IsTracked true c h = elim (Bool-cases c.first_render) [
  | inl e ↦ rw e (record { counted = h.counted; newest = h.newest; asked = h.asked })
  | inr e ↦ rw e (record { counted = h.counted; newest = h.newest; asked = h.asked })
]

-- Dependencies that did not change ask for the same.
same_params :
    (seen : Option Deps) (d : Deps)
    → fetch_changed seen d ≡ false
    → asked_for seen ≡ some (params_of d)
same_params none d h = cc
same_params (some e) d h =
    ground
      (arith, eq_iff e.status_filter d.status_filter, eq_iff e.debounced_search d.debounced_search)

abbrev fetched : Bool → Deps → Component → Component
fetched b d c = record (fetch b d c) { seen = some d }

fetched-IsTracked :
    (seen : Option Deps) (d : Deps) (c : Component)
    → c.seen ≡ seen
    → IsTracked c
    → IsTracked (fetched (fetch_changed seen d) d c)
unfolding fetch step cleanup
fetched-IsTracked seen d c same h = elim (Bool-cases (fetch_changed seen d)) [
  | inl e ↦ elim (Bool-cases (is_some d.org)) [
    | inl o ↦
        rw (e, o)
          (record {
            counted = ap suc h.counted;
            newest = λ k q. ground (arith, h.newest k);
            asked = λ k q. refl;
          })
    | inr o ↦
        rw (e, o)
          (record {
            counted = h.counted;
            newest = λ k q. ground (arith, h.newest k);
            asked = λ k q. absurd (ground (arith, h.newest k));
          })
  ]
  | inr e ↦ rw e (record {
    counted = h.counted;
    newest = h.newest;
    asked = λ k q. h.asked k q ∙ ap asked_for same ∙ same_params seen d e;
  })
]

seen-reset_page : (b b' : Bool) (c : Component) → (reset_page b (debounce b' c)).seen ≡ c.seen
unfolding reset_page debounce
seen-reset_page b b' c = ground arith

commit-IsTracked : (org : Option String) (c : Component) → IsTracked c → IsTracked (commit org c)
unfolding commit
commit-IsTracked org c h =
    let d = deps_of org c.state in
    let filters = filters_changed c.seen d in
    let text = search_changed c.seen d in
    fetched-IsTracked c.seen d (reset_page filters (debounce text c))
      (seen-reset_page filters text c)
      (reset_page-IsTracked filters (debounce text c) (debounce-IsTracked text c h))

fire-IsTracked : (text : Option String) (c : Component) → IsTracked c → IsTracked (fire text c)
unfolding fire
fire-IsTracked none c h = h
fire-IsTracked (some t) c h = record { counted = h.counted; newest = h.newest; asked = h.asked }

handle-IsTracked : (e : LogsEvent) (c : Component) → IsTracked c → IsTracked (handle e c)
unfolding handle
handle-IsTracked timer_fired c h = fire-IsTracked c.timer c h
handle-IsTracked _ c h = record { counted = h.counted; newest = h.newest; asked = h.asked }

render-IsTracked : (org : Option String) (c : Component) → IsTracked c → IsTracked (render org c)
unfolding render
render-IsTracked org c h = commit-IsTracked org (commit org c) (commit-IsTracked org c h)

run-IsTracked :
    (es : List (LogsEvent × Option String)) (c : Component) → IsTracked c → IsTracked (run es c)
unfolding run
run-IsTracked [] c h = h
run-IsTracked ((e, org) ∷ es) c h =
    run-IsTracked es (render org (handle e c))
      (render-IsTracked org (handle e c) (handle-IsTracked e c h))

pub seen-commit :
    (org : Option String) (c : Component) → (commit org c).seen ≡ some (deps_of org c.state)
unfolding commit
seen-commit org c = refl

module _ (org : Option String) where
  deps-fetch :
      (b : Bool) (d : Deps) (c : Component) → deps_of org (fetch b d c).state ≡ deps_of org c.state
  unfolding fetch step load_begin cleanup
  deps-fetch false d c = refl
  deps-fetch true d c = elim (Bool-cases (is_some d.org)) [ inl e ↦ rw e | inr e ↦ rw e ]

  deps-debounce :
      (b : Bool) (c : Component) → deps_of org (debounce b c).state ≡ deps_of org c.state
  unfolding debounce
  deps-debounce true c = refl
  deps-debounce false c = refl

  -- A page that the reset leaves alone, or 1.
  abbrev pub page_after : Bool → Component → ℕ
  page_after b c = (reset_page b c).state.page

  pub deps-reset_page :
      (b : Bool) (c : Component)
      → deps_of org (reset_page b c).state ≡ record (deps_of org c.state) { page = page_after b c }
  unfolding reset_page
  deps-reset_page false c = refl
  deps-reset_page true c = elim (Bool-cases c.first_render) [ inl e ↦ rw e | inr e ↦ rw e ]

  -- Among the dependencies a commit changes the page alone.
  pub deps-commit :
      (c : Component)
      → deps_of org (commit org c).state ≡ record (deps_of org c.state) {
        page =
            page_after
              (filters_changed c.seen (deps_of org c.state))
              (debounce (search_changed c.seen (deps_of org c.state)) c);
      }
  unfolding commit
  deps-commit c =
      let d = deps_of org c.state in
      let filters = filters_changed c.seen d in
      let text = search_changed c.seen d in
      deps-fetch (fetch_changed c.seen d) d (reset_page filters (debounce text c))
      ∙ deps-reset_page filters (debounce text c)
      ∙ ap (λ (x : Deps). record x { page = page_after filters (debounce text c) })
          (deps-debounce text c)

  -- It leaves the page alone too if the filters have not changed.
  pub deps-commit_same :
      (c : Component)
      → filters_changed c.seen (deps_of org c.state) ≡ false
      → deps_of org (commit org c).state ≡ deps_of org c.state
  unfolding reset_page
  deps-commit_same c h =
      deps-commit c
      ∙ rw h (
          ap (λ (x : Deps). record (deps_of org c.state) { page = x.page })
            (deps-debounce (search_changed c.seen (deps_of org c.state)) c))

  pub settled-commit :
      (c : Component)
      → filters_changed (commit org c).seen (deps_of org (commit org c).state) ≡ false
  settled-commit c = rw (deps-commit c) (
      rw (seen-commit org c)
        (ground (arith, eq_refl c.state.status_filter, eq_refl c.state.debounced_search)))

  -- After the renders that follow an event, the last commit saw the state as it stands: there is
  -- nothing more to do.
  pub seen-render : (c : Component) → (render org c).seen ≡ some (deps_of org (render org c).state)
  unfolding render
  seen-render c =
      seen-commit org (commit org c)
      ∙ ap some (sym (deps-commit_same (commit org c) (settled-commit c)))

-- The request for a page of twenty logs: a filter that is empty is left out.
abbrev pub non_empty : String → Option String
non_empty t = if truthy t then some t else none

abbrev pub request_for : ℕ → String → String → WebhookLogsParams
request_for page status text = record {
  page = some page;
  limit = some 20;
  status = non_empty status;
  search = non_empty text;
}

-- After any history, a run of the fetch that is not cancelled is the newest one, and it asked for twenty
-- logs of the page, with the status and the debounced text that the state holds now, each left out if
-- it is empty.
pub live-request :
    (es : List (LogsEvent × Option String)) (e : LogsEvent) (org : Option String) (k : ℕ)
    → let c = render org (handle e (run es initial)) in
      c.cancelled k ≡ false
      → (suc k ≡ length c.requests)
        × (Array.head? c.requests
            ≡ some (request_for c.state.page c.state.status_filter c.state.debounced_search))
live-request es e org k live =
    let c = run es initial in
    let h =
      render-IsTracked org (handle e c)
        (handle-IsTracked e c (run-IsTracked es initial initial-IsTracked)) in
    (h.newest k live ∙ h.counted, h.asked k live ∙ ap asked_for (seen-render org (handle e c)))
