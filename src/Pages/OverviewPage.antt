-- ===== src/Pages/OverviewPage.antt =====
-- web/src/features/dashboard/pages/overview-page.tsx. `show` prints a number in a template, and
-- `locale` is `toLocaleString`.
use chis.Base.{String, Option, none, some, List, [], ◌∷◌, ◌++◌, truthy, if◌then◌else◌}
use chis.Base.Text.{concat}
use chis.Api.Types
use chis.Hooks.DashboardStats.{StatsState}
use chis.View.{View, heading, text, banner, skeleton, when, each}

-- The keys of `DashboardStats` that have a card.
pub data StatKey : Type 0 where
  total_webhooks_sent total_webhooks_failed total_webhooks_queued success_rate : StatKey

pub record StatCard : Type 0 where
  pub key : StatKey
  pub label : String
  pub description : String

unfoldable pub stat_cards : List StatCard
stat_cards =
    record { key = total_webhooks_sent; label = "Webhooks sent"; description = "Total deliveries" }
    ∷ record { key = total_webhooks_failed; label = "Failed"; description = "Requires attention" }
    ∷ record { key = total_webhooks_queued; label = "Queued"; description = "Pending delivery" }
    ∷ record { key = success_rate; label = "Success rate"; description = "Last 30 days" }
    ∷ []

module _ {N : Type 0} where
  -- stats[card.key]
  abbrev pub stat : Types.DashboardStats N → StatKey → N
  stat s total_webhooks_sent = s.total_webhooks_sent
  stat s total_webhooks_failed = s.total_webhooks_failed
  stat s total_webhooks_queued = s.total_webhooks_queued
  stat s success_rate = s.success_rate

  module _ (show locale : N → String) where
    unfoldable pub format_value : StatKey → N → String
    format_value success_rate value = concat (show value) "%"
    format_value _ value = locale value

    -- `stats ? formatValue(…) : "—"`
    shown : Option (Types.DashboardStats N) → StatKey → String
    shown none key = "—"
    shown (some s) key = format_value key (stat s key)

    card_view : StatsState N → StatCard → View (Unit {0})
    unfolding shown format_value
    card_view s card =
        text card.label
        ∷ (if s.is_loading
            then skeleton ∷ []
            else text (shown s.stats card.key) ∷ text card.description ∷ [])

    error_banner : Option String → View (Unit {0})
    error_banner none = []
    error_banner (some e) = when (truthy e) (banner e ∷ [])

    unfoldable pub view : StatsState N → View (Unit {0})
    unfolding card_view error_banner stat_cards
    view s =
        heading "Overview"
          ∷ text "Key metrics for your webhook delivery and API usage."
          ∷ error_banner s.error
        ++ each (card_view s) stat_cards
