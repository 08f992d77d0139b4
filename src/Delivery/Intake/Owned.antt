-- ===== src/Delivery/Intake/Owned.antt =====
-- Whose webhooks are taken.
use chis.Base.{String, Bool, true, false, ◌≡◌, ◌≢◌, some, List, if◌then◌else◌}
use chis.Delivery.{World}
use chis.Delivery.Messages.{create}
use chis.Delivery.Queue.{push}
use chis.Delivery.Intake.{
  ApiKey, Incoming, SendWebhookRequest, find_by_hashed_key, expired, method_or,
}

module _ (hash : String → String) (known : String → Bool) (is_id : String → Bool)
    (keys : List ApiKey) (i : Incoming) (w : World) where
  -- The tables and the queue after a message of a key.
  abbrev pub taken : ApiKey → SendWebhookRequest → String → World
  taken k req id = record w {
    messages = create id k.org_id (method_or req.method) req.url req.payload w.messages;
    queue = if i.calls.pushed then push id w.queue else w.queue;
  }

  -- What a request leaves behind: nothing, or the message of a key that is sent along, is on record and
  -- has not expired, under the organization of that key.
  pub data Takes : World → Type 0 where
    nothing : Takes w
    message :
        (k : ApiKey) (req : SendWebhookRequest) (id : String)
        → i.api_key ≢ ""
        → find_by_hashed_key (hash i.api_key) keys ≡ some k
        → expired i.now k ≡ false
        → i.body ≡ some req
        → known (method_or req.method) ≡ true
        → Takes (taken k req id)
