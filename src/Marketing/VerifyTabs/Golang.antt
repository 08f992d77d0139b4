-- ===== src/Marketing/VerifyTabs/Golang.antt =====
-- The snippet for Go of marketing/src/components/VerifyTabs.tsx.
use chis.Base.{[], ◌∷◌}
use chis.Marketing.Snippet.{Tab, segment, kw, str, fn, num, dim, plain}

abbrev pub golang : Tab
golang = record {
  id = "go";
  label = "Go";
  lines =
      (segment kw "func "
        ∷ segment fn "verify"
        ∷ segment dim "(body []"
        ∷ segment kw "byte"
        ∷ segment dim ", secret "
        ∷ segment kw "string"
        ∷ segment dim ", h http."
        ∷ segment fn "Header"
        ∷ segment dim ") "
        ∷ segment kw "bool"
        ∷ segment dim " {"
        ∷ [])
      ∷ (segment plain "    msgId "
          ∷ segment dim ":= h."
          ∷ segment fn "Get"
          ∷ segment dim "("
          ∷ segment str "\"X-Webhook-Id\""
          ∷ segment dim ")"
          ∷ [])
      ∷ (segment plain "    ts    "
          ∷ segment dim ":= h."
          ∷ segment fn "Get"
          ∷ segment dim "("
          ∷ segment str "\"X-Webhook-Timestamp\""
          ∷ segment dim ")"
          ∷ [])
      ∷ (segment plain "    sig   "
          ∷ segment dim ":= h."
          ∷ segment fn "Get"
          ∷ segment dim "("
          ∷ segment str "\"X-Webhook-Signature\""
          ∷ segment dim ")"
          ∷ [])
      ∷ []
      ∷ (segment plain "    t, _ "
          ∷ segment dim ":= strconv."
          ∷ segment fn "ParseInt"
          ∷ segment dim "(ts, "
          ∷ segment num "10"
          ∷ segment dim ", "
          ∷ segment num "64"
          ∷ segment dim ")"
          ∷ [])
      ∷ (segment kw "    if "
          ∷ segment plain "math."
          ∷ segment fn "Abs"
          ∷ segment dim "("
          ∷ segment fn "float64"
          ∷ segment dim "(time."
          ∷ segment fn "Now"
          ∷ segment dim "()."
          ∷ segment fn "Unix"
          ∷ segment dim "() - t)) > "
          ∷ segment num "300"
          ∷ segment dim " {"
          ∷ [])
      ∷ (segment kw "        return " ∷ segment kw "false" ∷ [])
      ∷ (segment dim "    }" ∷ [])
      ∷ []
      ∷ (segment plain "    key, _ "
          ∷ segment dim ":= base64."
          ∷ segment plain "StdEncoding."
          ∷ segment fn "DecodeString"
          ∷ segment dim "("
          ∷ [])
      ∷ (segment plain "        strings."
          ∷ segment fn "TrimPrefix"
          ∷ segment dim "(secret, "
          ∷ segment str "\"whsec_\""
          ∷ segment dim "))"
          ∷ [])
      ∷ (segment plain "    mac "
          ∷ segment dim ":= hmac."
          ∷ segment fn "New"
          ∷ segment dim "(sha256."
          ∷ segment fn "New"
          ∷ segment dim ", key)"
          ∷ [])
      ∷ (segment plain "    mac."
          ∷ segment fn "Write"
          ∷ segment dim "([]"
          ∷ segment kw "byte"
          ∷ segment dim "(msgId + "
          ∷ segment str "\".\""
          ∷ segment dim " + ts + "
          ∷ segment str "\".\""
          ∷ segment dim " + "
          ∷ segment kw "string"
          ∷ segment dim "(body)))"
          ∷ [])
      ∷ (segment plain "    expected "
          ∷ segment dim ":= "
          ∷ segment str "\"v1,\""
          ∷ segment dim " + base64."
          ∷ segment plain "StdEncoding."
          ∷ segment fn "EncodeToString"
          ∷ segment dim "(mac."
          ∷ segment fn "Sum"
          ∷ segment dim "("
          ∷ segment kw "nil"
          ∷ segment dim "))"
          ∷ [])
      ∷ []
      ∷ (segment kw "    for "
          ∷ segment plain "_, s "
          ∷ segment dim ":= "
          ∷ segment kw "range "
          ∷ segment plain "strings."
          ∷ segment fn "Split"
          ∷ segment dim "(sig, "
          ∷ segment str "\" \""
          ∷ segment dim ") {"
          ∷ [])
      ∷ (segment kw "        if "
          ∷ segment plain "hmac."
          ∷ segment fn "Equal"
          ∷ segment dim "([]"
          ∷ segment kw "byte"
          ∷ segment dim "(s), []"
          ∷ segment kw "byte"
          ∷ segment dim "(expected)) { "
          ∷ segment kw "return "
          ∷ segment kw "true"
          ∷ segment dim " }"
          ∷ [])
      ∷ (segment dim "    }" ∷ [])
      ∷ (segment kw "    return " ∷ segment kw "false" ∷ [])
      ∷ (segment dim "}" ∷ [])
      ∷ [];
}
