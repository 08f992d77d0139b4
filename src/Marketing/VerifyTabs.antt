-- ===== src/Marketing/VerifyTabs.antt =====
-- The snippets of marketing/src/components/VerifyTabs.tsx.
pub mod NodeJs
pub mod Python
pub mod Golang
pub mod Php
use chis.Base.{List, [], ◌∷◌}
use chis.Marketing.Snippet.{Tab}
use chis.View.{View}
use chis.Marketing.Tabs.{TabsState, TabsAction, opened, view}
use chis.Marketing.VerifyTabs.NodeJs.{node_js}
use chis.Marketing.VerifyTabs.Python.{python}
use chis.Marketing.VerifyTabs.Golang.{golang}
use chis.Marketing.VerifyTabs.Php.{php}

abbrev pub tabs : List Tab
tabs = node_js ∷ python ∷ golang ∷ php ∷ []

abbrev pub initial : TabsState
initial = opened "nodejs"

unfoldable pub verify_tabs : TabsState → View TabsAction
verify_tabs = view tabs
