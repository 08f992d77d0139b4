-- ===== src/Marketing/VerifyTabs/NodeJs.antt =====
-- The snippet for Node.js of marketing/src/components/VerifyTabs.tsx.
use chis.Base.{[], ◌∷◌}
use chis.Marketing.Snippet.{Tab, segment, kw, str, fn, cm, num, dim, plain}

abbrev pub node_js : Tab
node_js = record {
  id = "nodejs";
  label = "Node.js";
  lines =
      (segment kw "const "
        ∷ segment plain "crypto "
        ∷ segment dim "= "
        ∷ segment fn "require"
        ∷ segment dim "("
        ∷ segment str "\"crypto\""
        ∷ segment dim ");"
        ∷ [])
      ∷ []
      ∷ (segment kw "function "
          ∷ segment fn "verify"
          ∷ segment dim "(body, secret, headers) {"
          ∷ [])
      ∷ (segment kw "  const "
          ∷ segment plain "msgId "
          ∷ segment dim "= headers["
          ∷ segment str "\"x-webhook-id\""
          ∷ segment dim "];"
          ∷ [])
      ∷ (segment kw "  const "
          ∷ segment plain "ts    "
          ∷ segment dim "= headers["
          ∷ segment str "\"x-webhook-timestamp\""
          ∷ segment dim "];"
          ∷ [])
      ∷ (segment kw "  const "
          ∷ segment plain "sig   "
          ∷ segment dim "= headers["
          ∷ segment str "\"x-webhook-signature\""
          ∷ segment dim "];"
          ∷ [])
      ∷ []
      ∷ (segment cm "  // Reject if older than 5 minutes" ∷ [])
      ∷ (segment kw "  if "
          ∷ segment plain "(Math."
          ∷ segment fn "abs"
          ∷ segment plain "(Date."
          ∷ segment fn "now"
          ∷ segment dim "() / "
          ∷ segment num "1000"
          ∷ segment dim " - ts) > "
          ∷ segment num "300"
          ∷ segment dim ") return "
          ∷ segment kw "false"
          ∷ segment dim ";"
          ∷ [])
      ∷ []
      ∷ (segment kw "  const "
          ∷ segment plain "signed "
          ∷ segment dim "= "
          ∷ segment str "`${msgId}.${ts}.${body}`"
          ∷ segment dim ";"
          ∷ [])
      ∷ (segment kw "  const "
          ∷ segment plain "key "
          ∷ segment plain "= Buffer."
          ∷ segment fn "from"
          ∷ segment dim "(secret."
          ∷ segment fn "replace"
          ∷ segment dim "("
          ∷ segment str "\"whsec_\""
          ∷ segment dim ", "
          ∷ segment str "\"\""
          ∷ segment dim "), "
          ∷ segment str "\"base64\""
          ∷ segment dim ");"
          ∷ [])
      ∷ (segment kw "  const "
          ∷ segment plain "expected "
          ∷ segment plain "= crypto."
          ∷ segment fn "createHmac"
          ∷ segment dim "("
          ∷ segment str "\"sha256\""
          ∷ segment dim ", key)."
          ∷ segment fn "update"
          ∷ segment dim "(signed)."
          ∷ segment fn "digest"
          ∷ segment dim "("
          ∷ segment str "\"base64\""
          ∷ segment dim ");"
          ∷ [])
      ∷ []
      ∷ (segment kw "  return "
          ∷ segment plain "sig."
          ∷ segment fn "split"
          ∷ segment dim "("
          ∷ segment str "\" \""
          ∷ segment dim ")."
          ∷ segment fn "some"
          ∷ segment dim "(s =>"
          ∷ [])
      ∷ (segment dim "    s === " ∷ segment str "`v1,${expected}`" ∷ [])
      ∷ (segment dim "  );" ∷ [])
      ∷ (segment dim "}" ∷ [])
      ∷ [];
}
