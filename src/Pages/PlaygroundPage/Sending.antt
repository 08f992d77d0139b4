-- ===== src/Pages/PlaygroundPage/Sending.antt =====
-- What the playground sends and shows.
use chis.Base.{
  String, ◌≡◌, ◌≢◌, ◌⊎◌, refl, true, false, Bool-cases, inl, inr, Option, none, some, Option-cases,
  arith, eq_iff, truthy,
}
use chis.Base.Text.{trim}
use chis.Api.Types.{SendWebhookResponse}
use chis.Net.{Settled, fulfilled, rejected, Failure}
use chis.Pages.PlaygroundPage.{PlaygroundState, Call, error_message, send_begin, send_settled}

blank : {x : String} → truthy x ≡ false → x ≡ ""
blank {x} h = ground (arith, eq_iff x "")

not_blank : {x : String} → truthy x ≡ true → x ≢ ""
not_blank {x} h = λ e. ground (arith, eq_iff x "")

module _ {J : Type 0} (parse : String → Option J) (pretty : J → String) where
  -- Why a click on the button sends nothing, the first reason that applies, or what it sends.
  pub data Sends (s : PlaygroundState) : Option (Call parse pretty) → Option String → Type 0 where
    no_key : trim s.api_key ≡ "" → Sends s none (some "API key is required.")
    no_url : trim s.api_key ≢ "" → trim s.url ≡ "" → Sends s none (some "URL is required.")
    no_json :
        trim s.api_key ≢ ""
        → trim s.url ≢ ""
        → parse s.payload ≡ none
        → Sends s none (some "Invalid JSON payload.")
    request :
        (j : J)
        → trim s.api_key ≢ ""
        → trim s.url ≢ ""
        → parse s.payload ≡ some j
        → Sends s
            (some (trim s.api_key, record { url = trim s.url; method = s.method; payload = j }))
            none

  -- A click sends the trimmed key and address with the parsed payload, if the key and the address are
  -- not blank and the payload is JSON, and shows no error; otherwise it sends nothing and shows the
  -- first of these that fails. The earlier response is gone either way.
  pub send_begin-Sends :
      (s : PlaygroundState)
      → Sends s (send_begin parse pretty s).1 (send_begin parse pretty s).0.error
        × ((send_begin parse pretty s).0.response ≡ none)
  unfolding send_begin
  send_begin-Sends s = elim (Bool-cases (truthy (trim s.api_key))) [
    | inr k ↦ rw k (no_key (blank k), refl)
    | inl k ↦ elim (Bool-cases (truthy (trim s.url))) [
      | inr u ↦ rw (k, u) (no_url (not_blank k) (blank u), refl)
      | inl u ↦
          rw (k, u)
            elim (Option-cases (parse s.payload)) [
              | inl e ↦ rw e (no_json (not_blank k) (not_blank u) e, refl)
              | inr (j, e) ↦ rw e (request j (not_blank k) (not_blank u) e, refl)
            ]
    ]
  ]

sent-no_error :
    {J : Type 0} (parse : String → Option J) (pretty : J → String) (s : PlaygroundState)
    (c : Call parse pretty)
    → (send_begin parse pretty s).1 ≡ some c
    → (send_begin parse pretty s).0.error ≡ none
sent-no_error parse pretty s c h = go (send_begin-Sends parse pretty s).0 h
  where
    go :
        {o : Option (Call parse pretty)} {e : Option String}
        → Sends parse pretty s o e
        → o ≡ some c
        → e ≡ none
    go (no_key _) h = ground arith
    go (no_url _ _) h = ground arith
    go (no_json _ _ _) h = ground arith
    go (request _ _ _ _) h = refl

-- A request that is answered leaves either a response or an error on display, never both, and the
-- button works again.
pub send_settled-one :
    {J : Type 0} (parse : String → Option J) (pretty : J → String) (s : PlaygroundState)
    (c : Call parse pretty) (r : Settled SendWebhookResponse)
    → (send_begin parse pretty s).1 ≡ some c
    → let t = send_settled r (send_begin parse pretty s).0 in
      (t.is_loading ≡ false)
      × (((a : SendWebhookResponse) × (t.response ≡ some a) × (t.error ≡ none))
          ⊎ ((e : Failure) × (t.response ≡ none) × (t.error ≡ some (error_message e))))
unfolding send_settled
send_settled-one parse pretty s c (fulfilled a) h =
    (refl, inl (a, refl, sent-no_error parse pretty s c h))
send_settled-one parse pretty s c (rejected e) h =
    (refl, inr (e, (send_begin-Sends parse pretty s).1, refl))
