-- ===== src/Api/Dashboard/Settling.antt =====
-- How the promise of `sendTestWebhook` settles, as a relation of its own.
use chis.Base.{
  ℕ, String, ◌≡◌, ◌↔◌, refl, Bool-cases, inl, inr, Option, none, some, arith, truthy, if◌then◌else◌,
}
use chis.Base.Text.{concat}
use chis.Net.{Settled, fulfilled, rejected, other_error, Body, ok, json, not_json}
use chis.Net.Laws.{IsOk}
use chis.Api.Types.{SendWebhookResponse}
use chis.Api.Dashboard.{
  SendResponse, SendFetched, send_answered, send_network_error, error_of, sent, settle_test_webhook,
}

-- The message that an error body has, if it is not empty.
abbrev pub named : Body (Option String) → Option String
named (json (some e)) = if truthy e then some e else none
named (json none) = none
named (not_json _) = none

abbrev pub or_status : (ℕ → String) → ℕ → Option String → String
or_status print status (some e) = e
or_status print status none = concat "Request failed with status " (print status)

-- How the promise may settle, by what the network answered.
pub data SendSettles (print : ℕ → String) : SendFetched → Settled SendWebhookResponse → Type 0 where
  offline : (e : String) → SendSettles print (send_network_error e) (rejected (other_error e))
  value :
      (r : SendResponse) (a : SendWebhookResponse)
      → IsOk r.response.status
      → r.response.payload ≡ json a
      → SendSettles print (send_answered r) (fulfilled a)
  garbled :
      (r : SendResponse) (e : String)
      → IsOk r.response.status
      → r.response.payload ≡ not_json e
      → SendSettles print (send_answered r) (rejected (other_error e))
  refused :
      (r : SendResponse)
      → (IsOk r.response.status → ⊥)
      → SendSettles print
          (send_answered r)
          (rejected (other_error (or_status print r.response.status (named r.error))))

module _ (print : ℕ → String) where
  error_of-named :
      (b : Body (Option String)) (status : ℕ)
      → error_of b (concat "Request failed with status " (print status))
        ≡ or_status print status (named b)
  unfolding error_of
  error_of-named (json (some e)) status = ground arith
  error_of-named (json none) status = refl
  error_of-named (not_json _) status = refl

  send_complete :
      (f : SendFetched) (s : Settled SendWebhookResponse)
      → SendSettles print f s
      → settle_test_webhook print f ≡ s
  unfolding settle_test_webhook sent
  send_complete _ _ (offline e) = refl
  send_complete _ _ (value r a k h) = ground arith
  send_complete _ _ (garbled r e k h) = ground arith
  send_complete _ _ (refused r k) = ground (arith, error_of-named r.error r.response.status)

  accepted :
      (r : SendResponse) (p : Body SendWebhookResponse)
      → IsOk r.response.status
      → r.response.payload ≡ p
      → SendSettles print (send_answered r) (sent p)
  unfolding sent
  accepted r (json a) k h = value r a k h
  accepted r (not_json e) k h = garbled r e k h

  send_sound : (f : SendFetched) → SendSettles print f (settle_test_webhook print f)
  unfolding settle_test_webhook
  send_sound (send_network_error e) = offline e
  send_sound (send_answered r) = elim (Bool-cases (ok r.response)) [
    | inl fine ↦ rw fine (accepted r r.response.payload (ground arith) refl)
    | inr bad ↦ rw (bad, error_of-named r.error r.response.status) (refused r (ground arith))
  ]

  -- The promise of a test webhook settles as the relation `SendSettles` allows, in one way for each
  -- answer: with the response that was sent, with what went wrong, or, for a status that is not from
  -- 200 to 299, with the message of the error body or one that names the status.
  pub settle_test_webhook_iff :
      (f : SendFetched) (s : Settled SendWebhookResponse)
      → (settle_test_webhook print f ≡ s) ↔ SendSettles print f s
  settle_test_webhook_iff f s = (λ e. rw e at (send_sound f), send_complete f s)
