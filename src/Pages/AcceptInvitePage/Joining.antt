-- ===== src/Pages/AcceptInvitePage/Joining.antt =====
-- What an accepted invitation does, whatever order the answers come in.
use Prim.Native.Nat.{◌<◌}
use chis.Base.{ℕ, ◌≡◌, refl, true, false, none, some, List, [], ◌∷◌, ◌++◌, All}
use chis.Net.{Settled, fulfilled}
use chis.Api.Types.{AcceptInvitationResponse}
use chis.Orgs.{add_org}
use chis.Effect.{Mounted, rerun, settled, run}
use chis.Effect.Fresh.{IsFresh, settlements, state-latest}
use chis.Pages.AcceptInvitePage.{AcceptState, loader, joined, accept_begin, accept_settled}

-- An accepted invitation joins its organization once, whatever the requests of earlier runs of the
-- effect answer before or after it: the organization is the last of the list, and is selected,
-- if no run was live but the newest.
pub accepted_once :
    (m : Mounted AcceptState) (d : AcceptInvitationResponse)
    (before after : List (ℕ × Settled AcceptInvitationResponse))
    → IsFresh m
    → All (λ a. a.0 < m.started) before
    → All (λ a. a.0 < m.started) after
    → let s =
        (run loader
          (rerun true ∷ settlements loader before
            ++ settled m.started (fulfilled d) ∷ settlements loader after)
          m).state in
      (s.organizations ≡ m.state.organizations ++ joined d ∷ [])
      × (s.current_org ≡ some (joined d))
      × (s.result ≡ some d)
      × (s.error ≡ none)
      × (s.is_loading ≡ false)
unfolding accept_begin accept_settled add_org
accepted_once m d before after h b a =
    rw (state-latest loader m (fulfilled d) before after h b a) (refl, refl, refl, refl, refl)
