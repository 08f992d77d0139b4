-- ===== src/Marketing/VerifyTabs/Php.antt =====
-- The snippet for PHP of marketing/src/components/VerifyTabs.tsx.
use chis.Base.{[], ◌∷◌}
use chis.Marketing.Snippet.{Tab, segment, kw, str, fn, num, dim, plain}

abbrev pub php : Tab
php = record {
  id = "php";
  label = "PHP";
  lines =
      (segment kw "function "
        ∷ segment fn "verify"
        ∷ segment dim "($body, $secret, $headers) {"
        ∷ [])
      ∷ (segment plain "    $msgId "
          ∷ segment dim "= $headers["
          ∷ segment str "'X-Webhook-Id'"
          ∷ segment dim "];"
          ∷ [])
      ∷ (segment plain "    $ts    "
          ∷ segment dim "= $headers["
          ∷ segment str "'X-Webhook-Timestamp'"
          ∷ segment dim "];"
          ∷ [])
      ∷ (segment plain "    $sig   "
          ∷ segment dim "= $headers["
          ∷ segment str "'X-Webhook-Signature'"
          ∷ segment dim "];"
          ∷ [])
      ∷ []
      ∷ (segment kw "    if "
          ∷ segment dim "("
          ∷ segment fn "abs"
          ∷ segment dim "("
          ∷ segment fn "time"
          ∷ segment dim "() - ("
          ∷ segment kw "int"
          ∷ segment dim ")$ts) > "
          ∷ segment num "300"
          ∷ segment dim ") return "
          ∷ segment kw "false"
          ∷ segment dim ";"
          ∷ [])
      ∷ []
      ∷ (segment plain "    $key "
          ∷ segment dim "= "
          ∷ segment fn "base64_decode"
          ∷ segment dim "("
          ∷ segment fn "str_replace"
          ∷ segment dim "("
          ∷ segment str "'whsec_'"
          ∷ segment dim ", "
          ∷ segment str "''"
          ∷ segment dim ", $secret));"
          ∷ [])
      ∷ (segment plain "    $signed "
          ∷ segment dim "= "
          ∷ segment str "\"$msgId.$ts.$body\""
          ∷ segment dim ";"
          ∷ [])
      ∷ (segment plain "    $expected "
          ∷ segment dim "= "
          ∷ segment str "'v1,' "
          ∷ segment dim ". "
          ∷ segment fn "base64_encode"
          ∷ segment dim "("
          ∷ [])
      ∷ (segment dim "        "
          ∷ segment fn "hash_hmac"
          ∷ segment dim "("
          ∷ segment str "'sha256'"
          ∷ segment dim ", $signed, $key, "
          ∷ segment kw "true"
          ∷ segment dim ")"
          ∷ [])
      ∷ (segment dim "    );" ∷ [])
      ∷ []
      ∷ (segment kw "    foreach "
          ∷ segment dim "("
          ∷ segment fn "explode"
          ∷ segment dim "("
          ∷ segment str "' '"
          ∷ segment dim ", $sig) "
          ∷ segment kw "as "
          ∷ segment dim "$s) {"
          ∷ [])
      ∷ (segment kw "        if "
          ∷ segment dim "("
          ∷ segment fn "hash_equals"
          ∷ segment dim "($expected, $s)) "
          ∷ segment kw "return "
          ∷ segment kw "true"
          ∷ segment dim ";"
          ∷ [])
      ∷ (segment dim "    }" ∷ [])
      ∷ (segment kw "    return " ∷ segment kw "false" ∷ segment dim ";" ∷ [])
      ∷ (segment dim "}" ∷ [])
      ∷ [];
}
