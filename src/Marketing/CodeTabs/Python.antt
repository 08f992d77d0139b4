-- ===== src/Marketing/CodeTabs/Python.antt =====
-- The snippet for Python of marketing/src/components/CodeTabs.tsx.
use chis.Base.{[], ◌∷◌}
use chis.Marketing.Snippet.{Tab, segment, kw, str, fn, num, dim, key, plain}

abbrev pub python : Tab
python = record {
  id = "python";
  label = "Python";
  lines =
      (segment kw "import " ∷ segment plain "requests" ∷ [])
      ∷ (segment kw "import " ∷ segment plain "os" ∷ [])
      ∷ []
      ∷ (segment plain "response "
          ∷ segment dim "= "
          ∷ segment plain "requests."
          ∷ segment fn "post"
          ∷ segment dim "("
          ∷ [])
      ∷ (segment str "    \"https://api.trychis.com/webhook/send\"" ∷ segment dim "," ∷ [])
      ∷ (segment key "    headers" ∷ segment dim "={" ∷ [])
      ∷ (segment key "        \"X-API-Key\""
          ∷ segment dim ": "
          ∷ segment plain "os.environ["
          ∷ segment str "'CHIS_API_KEY'"
          ∷ segment plain "]"
          ∷ segment dim ","
          ∷ [])
      ∷ (segment key "        \"Content-Type\""
          ∷ segment dim ": "
          ∷ segment str "\"application/json\""
          ∷ segment dim ","
          ∷ [])
      ∷ (segment dim "    }," ∷ [])
      ∷ (segment key "    json" ∷ segment dim "={" ∷ [])
      ∷ (segment key "        \"url\""
          ∷ segment dim ": "
          ∷ segment str "\"https://your-app.com/webhooks\""
          ∷ segment dim ","
          ∷ [])
      ∷ (segment key "        \"payload\""
          ∷ segment dim ": {"
          ∷ segment key "\"event\""
          ∷ segment dim ": "
          ∷ segment str "\"payment.completed\""
          ∷ segment dim ", "
          ∷ segment key "\"amount\""
          ∷ segment dim ": "
          ∷ segment num "4999"
          ∷ segment dim "},"
          ∷ [])
      ∷ (segment dim "    }," ∷ [])
      ∷ (segment dim ")" ∷ [])
      ∷ []
      ∷ (segment fn "print"
          ∷ segment dim "("
          ∷ segment plain "response."
          ∷ segment fn "json"
          ∷ segment dim "())"
          ∷ [])
      ∷ [];
}
