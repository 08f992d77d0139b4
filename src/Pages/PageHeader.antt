-- ===== src/Pages/PageHeader.antt =====
-- web/src/features/dashboard/components/page-header.tsx
use chis.Base.{String, Option, none, some, [], ◌∷◌, truthy}
use chis.View.{View, heading, text, when}

unfoldable pub page_header : {E : Type 0} → String → Option String → View E
page_header title none = heading title ∷ []
page_header title (some d) = heading title ∷ when (truthy d) (text d ∷ [])
