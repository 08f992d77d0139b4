-- ===== src/Marketing/CodeTabs/Curl.antt =====
-- The snippet for cURL of marketing/src/components/CodeTabs.tsx.
use chis.Base.{[], ◌∷◌}
use chis.Marketing.Snippet.{Tab, segment, str, fn, dim, plain}

abbrev pub curl : Tab
curl = record {
  id = "curl";
  label = "cURL";
  lines =
      (segment fn "curl"
        ∷ segment dim " -X POST "
        ∷ segment plain "https://api.trychis.com/webhook/send"
        ∷ segment dim " \\"
        ∷ [])
      ∷ (segment dim "  -H " ∷ segment str "\"X-API-Key: $CHIS_API_KEY\"" ∷ segment dim " \\" ∷ [])
      ∷ (segment dim "  -H "
          ∷ segment str "\"Content-Type: application/json\""
          ∷ segment dim " \\"
          ∷ [])
      ∷ (segment dim "  -d " ∷ segment str "'{" ∷ [])
      ∷ (segment str "    \"url\": \"https://your-app.com/webhooks\"," ∷ [])
      ∷ (segment str "    \"payload\": {\"event\": \"payment.completed\", \"amount\": 4999}" ∷ [])
      ∷ (segment str "  }'" ∷ [])
      ∷ [];
}
