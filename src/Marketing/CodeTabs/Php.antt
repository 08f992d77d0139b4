-- ===== src/Marketing/CodeTabs/Php.antt =====
-- The snippet for PHP of marketing/src/components/CodeTabs.tsx.
use chis.Base.{[], ◌∷◌}
use chis.Marketing.Snippet.{Tab, segment, str, fn, num, dim, key, plain}

abbrev pub php : Tab
php = record {
  id = "php";
  label = "PHP";
  lines =
      (segment plain "$response "
        ∷ segment dim "= "
        ∷ segment fn "Http"
        ∷ segment dim "::"
        ∷ segment fn "withHeaders"
        ∷ segment dim "(["
        ∷ [])
      ∷ (segment key "    \"X-API-Key\" "
          ∷ segment dim "=> "
          ∷ segment fn "env"
          ∷ segment dim "("
          ∷ segment str "\"CHIS_API_KEY\""
          ∷ segment dim "),"
          ∷ [])
      ∷ (segment dim "])"
          ∷ segment dim "->"
          ∷ segment fn "post"
          ∷ segment dim "("
          ∷ segment str "\"https://api.trychis.com/webhook/send\""
          ∷ segment dim ", ["
          ∷ [])
      ∷ (segment key "    \"url\" "
          ∷ segment dim "=> "
          ∷ segment str "\"https://your-app.com/webhooks\""
          ∷ segment dim ","
          ∷ [])
      ∷ (segment key "    \"payload\" "
          ∷ segment dim "=> ["
          ∷ segment key "\"event\""
          ∷ segment dim " => "
          ∷ segment str "\"payment.completed\""
          ∷ segment dim ", "
          ∷ segment key "\"amount\""
          ∷ segment dim " => "
          ∷ segment num "4999"
          ∷ segment dim "],"
          ∷ [])
      ∷ (segment dim "]);" ∷ [])
      ∷ []
      ∷ (segment plain "$data "
          ∷ segment dim "= "
          ∷ segment plain "$response"
          ∷ segment dim "->"
          ∷ segment fn "json"
          ∷ segment dim "();"
          ∷ [])
      ∷ [];
}
