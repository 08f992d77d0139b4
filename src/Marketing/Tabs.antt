-- ===== src/Marketing/Tabs.antt =====
-- What CodeTabs and VerifyTabs do: the chosen snippet, and its text for the clipboard.
use chis.Base.{
  String, Bool, true, false, Option, none, some, List, [], ◌∷◌, ◌++◌, map, ◌==◌, if◌then◌else◌,
}
use chis.Base.Array
use chis.Base.Text.{concat}
use chis.View.{View, text, button, each}
use chis.Marketing.Snippet.{Tab, Segment}

pub record TabsState : Type 0 where
  pub active_tab : String
  pub copied : Bool

pub data TabsAction : Type 0 where
  choose : String → TabsAction
  copy : TabsAction
  -- the timeout of a copy
  copied_over : TabsAction

abbrev pub opened : String → TabsState
opened id = record { active_tab = id; copied = false }

-- The handlers of the clicks, and the callback of the timeout.
unfoldable pub handle : TabsAction → TabsState → TabsState
handle (choose id) s = record { active_tab = id; copied = false }
handle copy s = record s { copied = true }
handle copied_over s = record s { copied = false }

abbrev pub has_id : String → Tab → Bool
has_id id t = t.id == id

-- tabs.find((t) => t.id === activeTab), which the program takes to be there
unfoldable pub active_snippet : List Tab → TabsState → Option Tab
active_snippet tabs s = Array.find (has_id s.active_tab) tabs

-- ts.join(sep)
unfoldable pub join : String → List String → String
join sep [] = ""
join sep (t ∷ ts) =
    let rest = join sep ts in elim ts [ [] ↦ t | (_ ∷ _) ↦ concat t (concat sep rest) ]

abbrev pub line_text : List Segment → String
line_text segs = join "" (map (λ s. s.text) segs)

-- What the copy writes to the clipboard.
unfoldable pub plain_text : Tab → String
plain_text t = join "\n" (map line_text t.lines)

-- renderLine: the texts of the spans
unfoldable pub render_line : List Segment → List String
render_line segs = map (λ s. s.text) segs

-- The spans of a line, with the line end after them; an empty line is the line end alone.
unfoldable pub line_spans : List Segment → List String
unfolding render_line
line_spans [] = "\n" ∷ []
line_spans (s ∷ segs) = render_line (s ∷ segs) ++ ("\n" ∷ [])

unfoldable pub code_spans : List (List Segment) → List String
code_spans [] = []
code_spans (l ∷ ls) = line_spans l ++ code_spans ls

-- One after the other, as the page shows them.
unfoldable pub shown_text : List String → String
shown_text [] = ""
shown_text (t ∷ ts) = concat t (shown_text ts)

shown_code : Option Tab → View TabsAction
shown_code none = []
shown_code (some t) = text (shown_text (code_spans t.lines)) ∷ []

unfoldable pub view : List Tab → TabsState → View TabsAction
unfolding shown_code
view tabs s =
    each (λ t. button t.label false (choose t.id) ∷ []) tabs
    ++ (button (if s.copied then "Copied!" else "Copy") false copy
        ∷ shown_code (active_snippet tabs s))
