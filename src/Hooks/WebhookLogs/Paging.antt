-- ===== src/Hooks/WebhookLogs/Paging.antt =====
-- The page after a change of the filters.
use chis.Base.{String, ◌≡◌, ◌≢◌, ap, ◌∙◌, true, false, Option, some, arith, eq_iff}
use chis.Hooks.WebhookLogs.{
  Component, deps_of, debounce, reset_page, set_page, filters_changed, commit, render, handle,
  filter_chosen,
}
use chis.Hooks.WebhookLogs.Requests.{deps-commit, deps-commit_same, settled-commit, page_after}

module _ (org : Option String) (c : Component) where
  page-filter :
      (v : String)
      → c.seen ≡ some (deps_of org c.state)
      → c.state.status_filter ≢ v
      → filters_changed
          (handle (filter_chosen v) c).seen
          (deps_of org (handle (filter_chosen v) c).state)
        ≡ true
  unfolding handle
  page-filter v h n = rw h (ground (arith, eq_iff c.state.status_filter v))

  page_after-later : (b : _) → c.first_render ≡ false → page_after org true (debounce b c) ≡ 1
  unfolding reset_page debounce set_page
  page_after-later true h = rw h
  page_after-later false h = rw h

page-commit :
    (org : Option String) (c : Component)
    → c.first_render ≡ false
    → filters_changed c.seen (deps_of org c.state) ≡ true
    → deps_of org (commit org c).state ≡ record (deps_of org c.state) { page = 1 }
page-commit org c h e =
    deps-commit org c
    ∙ rw e (ap (λ p. record (deps_of org c.state) { page = p }) (page_after-later org c _ h))

-- When the status filter is changed after the first render, in a state that the last commit saw,
-- the renders that follow end with the first page of the new filter, whatever page was shown; the
-- text that is searched stays.
pub deps-filter_chosen :
    (org : Option String) (c : Component) (v : String)
    → c.seen ≡ some (deps_of org c.state)
    → c.first_render ≡ false
    → c.state.status_filter ≢ v
    → deps_of org (render org (handle (filter_chosen v) c)).state
      ≡ record (deps_of org c.state) { page = 1; status_filter = v }
unfolding render handle
deps-filter_chosen org c v h f n =
    let c' = handle (filter_chosen v) c in
    deps-commit_same org (commit org c') (settled-commit org c')
    ∙ page-commit org c' f (page-filter org c v h n)
