-- ===== src/Hooks/DashboardStats.antt =====
-- web/src/features/dashboard/hooks/use-dashboard-stats.ts
use chis.Base.{String, ◌≡◌, refl, Bool, true, false, not, Option, none, some, if◌then◌else◌}
use chis.Net.{Settled, fulfilled, rejected}
use chis.Effect.{Loader}
use chis.Hooks.Message.{message_of}
use chis.Api.Types

-- `N` is the type of the statistics' numbers.
pub record StatsState (N : Type 0) : Type 0 where
  pub stats : Option (Types.DashboardStats N)
  pub is_loading : Bool
  pub error : Option String

abbrev pub initial : (N : Type 0) → StatsState N
initial N = record { stats = none; is_loading = true; error = none }

module _ {N : Type 0} where
  unfoldable pub load_begin : StatsState N → StatsState N
  load_begin s = record s { is_loading = true; error = none }

  load_outcome : Bool → Settled (Types.DashboardStats N) → StatsState N → StatsState N
  load_outcome cancelled (fulfilled answer) s =
      if not cancelled then record s { stats = some answer } else s
  load_outcome cancelled (rejected e) s =
      if not cancelled then record s { error = some (message_of e) } else s

  -- `finally`
  load_finally : Bool → StatsState N → StatsState N
  load_finally cancelled s = if not cancelled then record s { is_loading = false } else s

  unfoldable pub load_settled :
      Bool → Settled (Types.DashboardStats N) → StatsState N → StatsState N
  unfolding load_outcome load_finally
  load_settled cancelled r s = load_finally cancelled (load_outcome cancelled r s)

  pub load_stale :
      (r : Settled (Types.DashboardStats N)) (s : StatsState N) → load_settled true r s ≡ s
  unfolding load_settled
  load_stale (fulfilled _) s = refl
  load_stale (rejected _) s = refl

  -- The effect of the hook; with no organization it does nothing.
  abbrev pub loader : Loader (StatsState N) (Types.DashboardStats N)
  loader = record { absent = λ s. s; begin = load_begin; finish = load_settled; stale = load_stale }
