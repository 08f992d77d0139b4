-- ===== src/Marketing/CodeTabs/NodeJs.antt =====
-- The snippet for Node.js of marketing/src/components/CodeTabs.tsx.
use chis.Base.{[], ◌∷◌}
use chis.Marketing.Snippet.{Tab, segment, kw, str, fn, num, dim, key, plain}

abbrev pub node_js : Tab
node_js = record {
  id = "nodejs";
  label = "Node.js";
  lines =
      (segment kw "const "
        ∷ segment plain "res "
        ∷ segment dim "= "
        ∷ segment kw "await "
        ∷ segment fn "fetch"
        ∷ segment dim "("
        ∷ segment str "\"https://api.trychis.com/webhook/send\""
        ∷ segment dim ", {"
        ∷ [])
      ∷ (segment key "  method" ∷ segment dim ": " ∷ segment str "\"POST\"" ∷ segment dim "," ∷ [])
      ∷ (segment key "  headers" ∷ segment dim ": {" ∷ [])
      ∷ (segment key "    \"X-API-Key\""
          ∷ segment dim ": "
          ∷ segment plain "process.env."
          ∷ segment key "CHIS_API_KEY"
          ∷ segment dim ","
          ∷ [])
      ∷ (segment key "    \"Content-Type\""
          ∷ segment dim ": "
          ∷ segment str "\"application/json\""
          ∷ segment dim ","
          ∷ [])
      ∷ (segment dim "  }," ∷ [])
      ∷ (segment key "  body"
          ∷ segment dim ": "
          ∷ segment plain "JSON."
          ∷ segment fn "stringify"
          ∷ segment dim "({"
          ∷ [])
      ∷ (segment key "    url"
          ∷ segment dim ": "
          ∷ segment str "\"https://your-app.com/webhooks\""
          ∷ segment dim ","
          ∷ [])
      ∷ (segment key "    payload"
          ∷ segment dim ": { "
          ∷ segment key "event"
          ∷ segment dim ": "
          ∷ segment str "\"payment.completed\""
          ∷ segment dim ", "
          ∷ segment key "amount"
          ∷ segment dim ": "
          ∷ segment num "4999"
          ∷ segment dim " }"
          ∷ [])
      ∷ (segment dim "  })," ∷ [])
      ∷ (segment dim "});" ∷ [])
      ∷ []
      ∷ (segment kw "const "
          ∷ segment plain "data "
          ∷ segment dim "= "
          ∷ segment kw "await "
          ∷ segment plain "res."
          ∷ segment fn "json"
          ∷ segment dim "();"
          ∷ [])
      ∷ [];
}
