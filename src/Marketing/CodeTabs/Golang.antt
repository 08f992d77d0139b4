-- ===== src/Marketing/CodeTabs/Golang.antt =====
-- The snippet for Go of marketing/src/components/CodeTabs.tsx.
use chis.Base.{[], ◌∷◌}
use chis.Marketing.Snippet.{Tab, segment, kw, str, fn, dim, plain}

abbrev pub golang : Tab
golang = record {
  id = "go";
  label = "Go";
  lines =
      (segment plain "body "
        ∷ segment dim ":= "
        ∷ segment plain "strings."
        ∷ segment fn "NewReader"
        ∷ segment dim "("
        ∷ segment str "`{"
        ∷ [])
      ∷ (segment str "  \"url\": \"https://your-app.com/webhooks\"," ∷ [])
      ∷ (segment str "  \"payload\": {\"event\": \"payment.completed\", \"amount\": 4999}" ∷ [])
      ∷ (segment str "}`" ∷ segment dim ")" ∷ [])
      ∷ []
      ∷ (segment plain "req, _ "
          ∷ segment dim ":= "
          ∷ segment plain "http."
          ∷ segment fn "NewRequest"
          ∷ segment dim "("
          ∷ segment str "\"POST\""
          ∷ segment dim ", "
          ∷ segment str "\"https://api.trychis.com/webhook/send\""
          ∷ segment dim ", body)"
          ∷ [])
      ∷ (segment plain "req."
          ∷ segment plain "Header."
          ∷ segment fn "Set"
          ∷ segment dim "("
          ∷ segment str "\"X-API-Key\""
          ∷ segment dim ", "
          ∷ segment plain "os."
          ∷ segment fn "Getenv"
          ∷ segment dim "("
          ∷ segment str "\"CHIS_API_KEY\""
          ∷ segment dim "))"
          ∷ [])
      ∷ (segment plain "req."
          ∷ segment plain "Header."
          ∷ segment fn "Set"
          ∷ segment dim "("
          ∷ segment str "\"Content-Type\""
          ∷ segment dim ", "
          ∷ segment str "\"application/json\""
          ∷ segment dim ")"
          ∷ [])
      ∷ []
      ∷ (segment plain "resp, _ "
          ∷ segment dim ":= "
          ∷ segment plain "http."
          ∷ segment plain "DefaultClient."
          ∷ segment fn "Do"
          ∷ segment dim "(req)"
          ∷ [])
      ∷ (segment kw "defer "
          ∷ segment plain "resp."
          ∷ segment plain "Body."
          ∷ segment fn "Close"
          ∷ segment dim "()"
          ∷ [])
      ∷ [];
}
