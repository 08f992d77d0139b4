-- ===== src/Marketing/CodeTabs.antt =====
-- The snippets of marketing/src/components/CodeTabs.tsx.
pub mod Typescript
pub mod NodeJs
pub mod Python
pub mod Golang
pub mod Ruby
pub mod Php
pub mod Curl
use chis.Base.{List, [], ◌∷◌}
use chis.Marketing.Snippet.{Tab}
use chis.View.{View}
use chis.Marketing.Tabs.{TabsState, TabsAction, opened, view}
use chis.Marketing.CodeTabs.Typescript.{typescript}
use chis.Marketing.CodeTabs.NodeJs.{node_js}
use chis.Marketing.CodeTabs.Python.{python}
use chis.Marketing.CodeTabs.Golang.{golang}
use chis.Marketing.CodeTabs.Ruby.{ruby}
use chis.Marketing.CodeTabs.Php.{php}
use chis.Marketing.CodeTabs.Curl.{curl}

abbrev pub tabs : List Tab
tabs = typescript ∷ node_js ∷ python ∷ golang ∷ ruby ∷ php ∷ curl ∷ []

abbrev pub initial : TabsState
initial = opened "typescript"

unfoldable pub code_tabs : TabsState → View TabsAction
code_tabs = view tabs
