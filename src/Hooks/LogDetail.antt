-- ===== src/Hooks/LogDetail.antt =====
-- web/src/features/dashboard/hooks/use-webhook-log-detail.ts
pub mod Closed
use chis.Base.{
  ℕ, suc, String, ◌≡◌, refl, Bool, true, false, not, Option, none, some, List, [], ◌∷◌, ◌++◌, ◌==◌,
  if◌then◌else◌,
}
use chis.Base.Array
use chis.Net.{Settled, fulfilled, rejected}
use chis.Effect.{Loader}
use chis.Hooks.Message.{message_of}
use chis.Api.Types.{WebhookLogDetail}

-- `J` is the type of JSON values.
pub record DetailState (J : Type 0) : Type 0 where
  pub detail : Option (WebhookLogDetail J)
  pub is_loading : Bool
  pub error : Option String

abbrev pub initial : (J : Type 0) → DetailState J
initial J = record { detail = none; is_loading = false; error = none }

module _ {J : Type 0} where
  -- `if (!logId) { … }`
  unfoldable pub no_log : DetailState J → DetailState J
  no_log s = record s { detail = none; error = none }

  unfoldable pub load_begin : DetailState J → DetailState J
  load_begin s = record s { is_loading = true; error = none }

  load_outcome : Bool → Settled (WebhookLogDetail J) → DetailState J → DetailState J
  load_outcome cancelled (fulfilled answer) s =
      if not cancelled then record s { detail = some answer } else s
  load_outcome cancelled (rejected e) s =
      if not cancelled then record s { error = some (message_of e) } else s

  -- `finally`
  load_finally : Bool → DetailState J → DetailState J
  load_finally cancelled s = if not cancelled then record s { is_loading = false } else s

  unfoldable pub load_settled : Bool → Settled (WebhookLogDetail J) → DetailState J → DetailState J
  unfolding load_outcome load_finally
  load_settled cancelled r s = load_finally cancelled (load_outcome cancelled r s)

  pub load_stale :
      (r : Settled (WebhookLogDetail J)) (s : DetailState J) → load_settled true r s ≡ s
  unfolding load_settled
  load_stale (fulfilled _) s = refl
  load_stale (rejected _) s = refl

  -- The effect of the hook.
  abbrev pub loader : Loader (DetailState J) (WebhookLogDetail J)
  loader = record { absent = no_log; begin = load_begin; finish = load_settled; stale = load_stale }
