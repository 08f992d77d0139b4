-- ===== src/Marketing/CodeTabs/Ruby.antt =====
-- The snippet for Ruby of marketing/src/components/CodeTabs.tsx.
use chis.Base.{[], ◌∷◌}
use chis.Marketing.Snippet.{Tab, segment, kw, str, fn, num, dim, key, plain}

abbrev pub ruby : Tab
ruby = record {
  id = "ruby";
  label = "Ruby";
  lines =
      (segment kw "require " ∷ segment str "\"net/http\"" ∷ [])
      ∷ (segment kw "require " ∷ segment str "\"json\"" ∷ [])
      ∷ []
      ∷ (segment plain "uri "
          ∷ segment dim "= "
          ∷ segment fn "URI"
          ∷ segment dim "("
          ∷ segment str "\"https://api.trychis.com/webhook/send\""
          ∷ segment dim ")"
          ∷ [])
      ∷ (segment plain "req "
          ∷ segment dim "= "
          ∷ segment plain "Net::HTTP::Post."
          ∷ segment fn "new"
          ∷ segment dim "(uri)"
          ∷ [])
      ∷ []
      ∷ (segment key "req[\"X-API-Key\"] "
          ∷ segment dim "= "
          ∷ segment plain "ENV["
          ∷ segment str "'CHIS_API_KEY'"
          ∷ segment plain "]"
          ∷ [])
      ∷ (segment key "req[\"Content-Type\"] "
          ∷ segment dim "= "
          ∷ segment str "\"application/json\""
          ∷ [])
      ∷ (segment plain "req." ∷ segment key "body " ∷ segment dim "= {" ∷ [])
      ∷ (segment key "  url"
          ∷ segment dim ": "
          ∷ segment str "\"https://your-app.com/webhooks\""
          ∷ segment dim ","
          ∷ [])
      ∷ (segment key "  payload"
          ∷ segment dim ": { "
          ∷ segment key "event"
          ∷ segment dim ": "
          ∷ segment str "\"payment.completed\""
          ∷ segment dim ", "
          ∷ segment key "amount"
          ∷ segment dim ": "
          ∷ segment num "4999"
          ∷ segment dim " }"
          ∷ [])
      ∷ (segment dim "}." ∷ segment fn "to_json" ∷ [])
      ∷ []
      ∷ (segment plain "res "
          ∷ segment dim "= "
          ∷ segment plain "Net::HTTP."
          ∷ segment fn "start"
          ∷ segment dim "(uri.host, uri.port, "
          ∷ segment key "use_ssl"
          ∷ segment dim ": "
          ∷ segment kw "true"
          ∷ segment dim ") { |h| h."
          ∷ segment fn "request"
          ∷ segment dim "(req) }"
          ∷ [])
      ∷ (segment fn "puts " ∷ segment plain "res." ∷ segment key "body" ∷ [])
      ∷ [];
}
