-- ===== src/Hooks/LogDetail/Closed.antt =====
-- What is left when the panel of a log is closed while its details load.
use chis.Base.{Bool, ◌≡◌, refl, true, false, none, [], ◌∷◌, arith}
use chis.Net.{Settled}
use chis.Api.Types.{WebhookLogDetail}
use chis.Effect.{Mounted, rerun, settled, step, run}
use chis.Hooks.LogDetail.{DetailState, loader, no_log, load_begin, load_settled, load_stale}

module _ {J : Type 0} where
  after_close :
      (cancelled : Bool) (r : Settled (WebhookLogDetail J)) (s : DetailState J)
      → cancelled ≡ true
      → let t = load_settled cancelled r (no_log (load_begin s)) in
        (t.is_loading ≡ true) × (t.detail ≡ none) × (t.error ≡ none)
  unfolding no_log load_begin
  after_close cancelled r s h = rw (h, load_stale) (refl, refl, refl)

  -- A panel that is closed while its details load stays in the loading state, with no detail and no
  -- error, also when the request has settled: the cancelled run does not reset `isLoading`.
  pub is_loading-closed :
      (m : Mounted (DetailState J)) (r : Settled (WebhookLogDetail J))
      → let s = (run loader (rerun true ∷ rerun false ∷ settled m.started r ∷ []) m).state in
        (s.is_loading ≡ true) × (s.detail ≡ none) × (s.error ≡ none)
  unfolding run step no_log load_begin
  is_loading-closed m r = after_close _ r m.state (ground arith)
