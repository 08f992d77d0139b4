-- ===== src/Marketing/Copied.antt =====
-- The copied text and the shown one.
use chis.Base.{
  String, Bool, true, false, ◌≡◌, refl, Bool-cases, sym, ap, ◌∙◌, some, inl, inr, List, [], ◌∷◌,
  ◌++◌, map, ◌==◌, All, All-find, arith,
}
use chis.Base.Array
use chis.Base.Text.{concat}
use text.Mathlib.TextLemmas.{append_assoc, append-nil, nil-append}
use chis.Marketing.Snippet.{Tab, Segment}
use chis.Marketing.Tabs.{
  TabsState, TabsAction, choose, copy, copied_over, handle, has_id, active_snippet, join, line_text,
  plain_text, line_spans, code_spans, shown_text, render_line, opened,
}
use chis.Marketing.CodeTabs
use chis.Marketing.VerifyTabs

shown-append :
    (ts us : List String) → shown_text (ts ++ us) ≡ concat (shown_text ts) (shown_text us)
unfolding shown_text
shown-append [] us = sym (nil-append (shown_text us))
shown-append (t ∷ ts) us =
    ap (concat t) (shown-append ts us) ∙ sym (append_assoc t (shown_text ts) (shown_text us))

-- Nothing stands between what is joined by the empty text.
shown-join : (ts : List String) → shown_text ts ≡ join "" ts
unfolding shown_text join
shown-join [] = refl
shown-join (t ∷ []) = append-nil t
shown-join (t ∷ u ∷ us) = ap (concat t) (shown-join (u ∷ us) ∙ sym (nil-append (join "" (u ∷ us))))

shown-line_spans : (l : List Segment) → shown_text (line_spans l) ≡ concat (line_text l) "\n"
unfolding line_spans render_line shown_text join
shown-line_spans [] = append-nil "\n" ∙ sym (nil-append "\n")
shown-line_spans (s ∷ segs) =
    let ts = render_line (s ∷ segs) in
    shown-append ts ("\n" ∷ [])
    ∙ ap (λ u. concat (shown_text ts) u) (append-nil "\n")
    ∙ ap (λ u. concat u "\n") (shown-join ts)

-- The lines of a snippet, each with its end, are the joined lines and one end more.
shown-code_spans :
    (l : List Segment) (ls : List (List Segment))
    → shown_text (code_spans (l ∷ ls)) ≡ concat (join "\n" (map line_text (l ∷ ls))) "\n"
unfolding code_spans join shown_text
shown-code_spans l [] =
    shown-append (line_spans l) [] ∙ append-nil (shown_text (line_spans l)) ∙ shown-line_spans l
shown-code_spans l (k ∷ ls) =
    shown-append (line_spans l) (code_spans (k ∷ ls))
    ∙ rw (shown-line_spans l, shown-code_spans k ls) (simp (append_assoc) refl)

abbrev is_filled : Tab → Bool
is_filled t = elim t.lines [ [] ↦ false | (_ ∷ _) ↦ true ]

shown-plain_text :
    (t : Tab) → is_filled t ≡ true → shown_text (code_spans t.lines) ≡ concat (plain_text t) "\n"
unfolding plain_text
shown-plain_text t h = elim (Array.nil-cases t.lines) [
  | inl e ↦ absurd (ground arith)
  | inr (l, ls, e) ↦ rw e (shown-code_spans l ls)
]

-- A click on a button of the component: it has a button for each tab.
abbrev pub IsOffered : List Tab → TabsAction → Type 0
IsOffered tabs (choose id) = Array.any (has_id id) tabs ≡ true
IsOffered tabs copy = Unit
IsOffered tabs copied_over = Unit

abbrev pub run : List TabsAction → TabsState → TabsState
run [] s = s
run (a ∷ as_) s = run as_ (handle a s)

any-find-some :
    (id : String) (tabs : List Tab)
    → Array.any (has_id id) tabs ≡ true
    → (t : Tab) × (Array.find (has_id id) tabs ≡ some t)
any-find-some id [] h = absurd (ground arith)
any-find-some id (t ∷ tabs) h = elim (Bool-cases (t.id == id)) [
  | inl e ↦ (t, ground arith)
  | inr e ↦ let (u, f) = any-find-some id tabs (ground arith) in (u, ground arith)
]

module _ (tabs : List Tab) where
  run-active_tab :
      (actions : List TabsAction) (s : TabsState)
      → All (IsOffered tabs) actions
      → Array.any (has_id s.active_tab) tabs ≡ true
      → Array.any (has_id (run actions s).active_tab) tabs ≡ true
  unfolding handle
  run-active_tab [] s h k = k
  run-active_tab (choose id ∷ as_) s h k = run-active_tab as_ _ h.1 h.0
  run-active_tab (copy ∷ as_) s h k = run-active_tab as_ _ h.1 k
  run-active_tab (copied_over ∷ as_) s h k = run-active_tab as_ _ h.1 k

  -- A snippet is on display, and what the copy writes, with a line end, is its text as it is shown.
  pub IsCopied : TabsState → Type 0
  IsCopied s =
      (t : Tab) × (active_snippet tabs s ≡ some t)
      × (shown_text (code_spans t.lines) ≡ concat (plain_text t) "\n")

  run-IsCopied :
      (actions : List TabsAction) (id : String)
      → All (λ t. is_filled t ≡ true) tabs
      → Array.any (has_id id) tabs ≡ true
      → All (IsOffered tabs) actions
      → IsCopied (run actions (opened id))
  unfolding active_snippet IsCopied
  run-IsCopied actions id f k h =
      let s = run actions (opened id) in
      let (t, e) = any-find-some s.active_tab tabs (run-active_tab actions (opened id) h k) in
      (
        t,
        e,
        shown-plain_text t (All-find (λ u. is_filled u ≡ true) (has_id s.active_tab) tabs t f e),
      )

-- Whatever is clicked on either component, the chosen snippet is one of its snippets, and the copy
-- writes exactly the text that is shown, but for the last line end.
pub tabs-IsCopied :
    (actions verify_actions : List TabsAction)
    → All (IsOffered CodeTabs.tabs) actions
    → All (IsOffered VerifyTabs.tabs) verify_actions
    → IsCopied CodeTabs.tabs (run actions CodeTabs.initial)
      × IsCopied VerifyTabs.tabs (run verify_actions VerifyTabs.initial)
tabs-IsCopied actions verify_actions h k = (
  run-IsCopied CodeTabs.tabs actions "typescript"
      (refl, (refl, (refl, (refl, (refl, (refl, (refl, tt))))))) refl h,
  run-IsCopied VerifyTabs.tabs verify_actions "nodejs" (refl, (refl, (refl, (refl, tt)))) refl k,
)
