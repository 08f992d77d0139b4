-- ===== src/Marketing/VerifyTabs/Python.antt =====
-- The snippet for Python of marketing/src/components/VerifyTabs.tsx.
use chis.Base.{[], ◌∷◌}
use chis.Marketing.Snippet.{Tab, segment, kw, str, fn, num, dim, key, plain}

abbrev pub python : Tab
python = record {
  id = "python";
  label = "Python";
  lines =
      (segment kw "import " ∷ segment plain "hmac, hashlib, base64, time" ∷ [])
      ∷ []
      ∷ (segment kw "def " ∷ segment fn "verify" ∷ segment dim "(body, secret, headers):" ∷ [])
      ∷ (segment plain "    msg_id "
          ∷ segment dim "= headers["
          ∷ segment str "\"x-webhook-id\""
          ∷ segment dim "]"
          ∷ [])
      ∷ (segment plain "    ts     "
          ∷ segment dim "= headers["
          ∷ segment str "\"x-webhook-timestamp\""
          ∷ segment dim "]"
          ∷ [])
      ∷ (segment plain "    sig    "
          ∷ segment dim "= headers["
          ∷ segment str "\"x-webhook-signature\""
          ∷ segment dim "]"
          ∷ [])
      ∷ []
      ∷ (segment kw "    if "
          ∷ segment fn "abs"
          ∷ segment plain "(time."
          ∷ segment fn "time"
          ∷ segment dim "() - "
          ∷ segment fn "int"
          ∷ segment dim "(ts)) > "
          ∷ segment num "300"
          ∷ segment dim ":"
          ∷ [])
      ∷ (segment kw "        return " ∷ segment kw "False" ∷ [])
      ∷ []
      ∷ (segment plain "    key "
          ∷ segment plain "= base64."
          ∷ segment fn "b64decode"
          ∷ segment dim "(secret."
          ∷ segment fn "removeprefix"
          ∷ segment dim "("
          ∷ segment str "\"whsec_\""
          ∷ segment dim "))"
          ∷ [])
      ∷ (segment plain "    signed "
          ∷ segment dim "= "
          ∷ segment str "f\"{msg_id}.{ts}.{body}\""
          ∷ [])
      ∷ (segment plain "    expected "
          ∷ segment plain "= base64."
          ∷ segment fn "b64encode"
          ∷ segment dim "("
          ∷ [])
      ∷ (segment plain "        hmac."
          ∷ segment fn "new"
          ∷ segment dim "(key, signed."
          ∷ segment fn "encode"
          ∷ segment dim "(), hashlib."
          ∷ segment key "sha256"
          ∷ segment dim ")."
          ∷ segment fn "digest"
          ∷ segment dim "()"
          ∷ [])
      ∷ (segment dim "    )." ∷ segment fn "decode" ∷ segment dim "()" ∷ [])
      ∷ []
      ∷ (segment kw "    return "
          ∷ segment fn "any"
          ∷ segment dim "(hmac."
          ∷ segment fn "compare_digest"
          ∷ segment dim "(s, "
          ∷ segment str "f\"v1,{expected}\""
          ∷ segment dim ")"
          ∷ [])
      ∷ (segment kw "               for "
          ∷ segment plain "s "
          ∷ segment kw "in "
          ∷ segment dim "sig."
          ∷ segment fn "split"
          ∷ segment dim "("
          ∷ segment str "\" \""
          ∷ segment dim "))"
          ∷ [])
      ∷ [];
}
