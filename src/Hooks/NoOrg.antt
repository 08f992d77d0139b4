-- ===== src/Hooks/NoOrg.antt =====
-- The hooks of a user who has no organization.
use chis.Base.{ℕ, zero, suc, ◌≡◌, refl, ap, ◌∙◌, true, false, List, [], ◌∷◌}
use chis.Effect.{Loader, Mounted, Event, mount, rerun, step, run}
use chis.Hooks.ApiKeys
use chis.Hooks.DashboardStats
use chis.Hooks.Invitations
use chis.Hooks.SigningSecret

-- The effect runs some times, and never has an organization to load for.
abbrev pub no_org : {S D : Type 0} → ℕ → List (Event S D)
no_org zero = []
no_org (suc n) = rerun false ∷ no_org n

state-no_org :
    {S D : Type 0} (L : Loader S D)
    → ((s : S) → Loader.absent L s ≡ s)
    → (n : ℕ) (m : Mounted S) → (run L (no_org n) m).state ≡ m.state
unfolding run step
state-no_org L h zero m = refl
state-no_org L h (suc n) m = state-no_org L h n (step L (rerun false) m) ∙ h m.state

-- With no organization to load for, the pages of keys, statistics, invitations and the secret stay in
-- the loading state that they start in, however often their effect runs.
pub is_loading-no_org :
    (N : Type 0) (n : ℕ)
    → ((run ApiKeys.loader (no_org n) (mount ApiKeys.initial)).state.is_loading ≡ true)
      × ((run
            (DashboardStats.loader {N = N})
            (no_org n)
            (mount (DashboardStats.initial N))).state.is_loading
          ≡ true)
      × ((run Invitations.loader (no_org n) (mount Invitations.initial)).state.is_loading ≡ true)
      × ((run SigningSecret.loader (no_org n) (mount SigningSecret.initial)).state.is_loading
          ≡ true)
is_loading-no_org N n = (
  ap (λ (s : ApiKeys.ApiKeysState). s.is_loading) (state-no_org ApiKeys.loader (λ s. refl) n _),
  ap (λ (s : DashboardStats.StatsState N). s.is_loading)
      (state-no_org DashboardStats.loader (λ s. refl) n _),
  ap (λ (s : Invitations.InvitationsState). s.is_loading)
      (state-no_org Invitations.loader (λ s. refl) n _),
  ap (λ (s : SigningSecret.SecretState). s.is_loading)
      (state-no_org SigningSecret.loader (λ s. refl) n _),
)
