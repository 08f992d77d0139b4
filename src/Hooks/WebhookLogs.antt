-- ===== src/Hooks/WebhookLogs.antt =====
-- web/src/features/dashboard/hooks/use-webhook-logs.ts. The component compares the dependencies of its
-- three effects with those of the commit before; `org` is `currentOrg?.id`. `requests` is the log of
-- what was asked for, the newest first, and `timer` the text that the pending timeout closes over.
pub mod Requests
pub mod Paging
pub mod Debounce
use chis.Base.{
  ℕ, suc, String, ◌≡◌, refl, Bool, true, false, not, ◌&&◌, Option, none, some, is_some, List, [],
  ◌∷◌, ◌==◌, nat_eq, truthy, if◌then◌else◌,
}
use chis.Net.{Settled, fulfilled, rejected}
use chis.Api.Types.{WebhookLog, WebhookLogsParams, PaginatedResponse}
use chis.Effect.{Loader, Mounted, mount, rerun, step}
use chis.Hooks.Message.{message_of}

pub record LogsState : Type 0 where
  pub logs : List WebhookLog
  pub is_loading : Bool
  pub error : Option String
  pub page : ℕ
  pub total_pages : ℕ
  pub status_filter : String
  pub search : String
  pub debounced_search : String

abbrev pub initial_state : LogsState
initial_state = record {
  logs = [];
  is_loading = true;
  error = none;
  page = 1;
  total_pages = 1;
  status_filter = "";
  search = "";
  debounced_search = "";
}

unfoldable pub load_begin : LogsState → LogsState
load_begin s = record s { is_loading = true; error = none }

load_outcome : Bool → Settled (PaginatedResponse WebhookLog) → LogsState → LogsState
load_outcome cancelled (fulfilled response) s =
    if not cancelled
    then record s { logs = response.items; total_pages = response.total_pages }
    else s
load_outcome cancelled (rejected e) s =
    if not cancelled then record s { error = some (message_of e) } else s

-- `finally`
load_finally : Bool → LogsState → LogsState
load_finally cancelled s = if not cancelled then record s { is_loading = false } else s

unfoldable pub load_settled : Bool → Settled (PaginatedResponse WebhookLog) → LogsState → LogsState
unfolding load_outcome load_finally
load_settled cancelled r s = load_finally cancelled (load_outcome cancelled r s)

pub load_stale :
    (r : Settled (PaginatedResponse WebhookLog)) (s : LogsState) → load_settled true r s ≡ s
unfolding load_settled
load_stale (fulfilled _) s = refl
load_stale (rejected _) s = refl

-- The third effect of the hook.
abbrev pub loader : Loader LogsState (PaginatedResponse WebhookLog)
loader = record { absent = λ s. s; begin = load_begin; finish = load_settled; stale = load_stale }

-- What the effects depend on.
pub record Deps : Type 0 where
  pub page : ℕ
  pub status_filter : String
  pub search : String
  pub debounced_search : String
  pub org : Option String

pub record Component : Type 0 where
  pub mounted : Mounted LogsState
  pub open mounted use {state, started, cancelled}
  pub first_render : Bool
  pub timer : Option String
  pub seen : Option Deps
  pub requests : List WebhookLogsParams

abbrev pub initial : Component
initial = record {
  mounted = mount initial_state;
  first_render = true;
  timer = none;
  seen = none;
  requests = [];
}

abbrev pub deps_of : Option String → LogsState → Deps
deps_of org s = record {
  page = s.page;
  status_filter = s.status_filter;
  search = s.search;
  debounced_search = s.debounced_search;
  org = org;
}

-- The argument of `fetchWebhookLogs`.
abbrev pub params_of : Deps → WebhookLogsParams
params_of d = record {
  page = some d.page;
  limit = some 20;
  status = if truthy d.status_filter then some d.status_filter else none;
  search = if truthy d.debounced_search then some d.debounced_search else none;
}

abbrev pub same_org : Option String → Option String → Bool
same_org none none = true
same_org (some a) (some b) = a == b
same_org _ _ = false

-- Whether an effect runs: at the first commit, or when one of its dependencies changed.
abbrev pub search_changed : Option Deps → Deps → Bool
search_changed none d = true
search_changed (some e) d = not (e.search == d.search)

abbrev pub filters_changed : Option Deps → Deps → Bool
filters_changed none d = true
filters_changed (some e) d =
    not (e.status_filter == d.status_filter && e.debounced_search == d.debounced_search)

abbrev pub fetch_changed : Option Deps → Deps → Bool
fetch_changed none d = true
fetch_changed (some e) d = not (
    nat_eq e.page d.page
    && e.status_filter == d.status_filter
    && e.debounced_search == d.debounced_search
    && same_org e.org d.org)

-- The debounce: the cleanup clears the timer that is pending.
pub debounce : Bool → Component → Component
debounce changed c = if changed then record c { timer = some c.state.search } else c

set_page : ℕ → Component → Component
set_page p c = record c { mounted = record c.mounted { state = record c.state { page = p } } }

pub reset_page : Bool → Component → Component
unfolding set_page
reset_page changed c =
    if changed
    then (if c.first_render then record c { first_render = false } else set_page 1 c)
    else c

fetch : Bool → Deps → Component → Component
fetch changed d c =
    if changed
    then record c {
      mounted = step loader (rerun (is_some d.org)) c.mounted;
      requests = if is_some d.org then params_of d ∷ c.requests else c.requests;
    }
    else c

-- One render and its effects, in their order, with the values of that render.
unfoldable pub commit : Option String → Component → Component
unfolding debounce reset_page fetch
commit org c =
    let d = deps_of org c.state in
    let c' =
      fetch (fetch_changed c.seen d) d
        (reset_page (filters_changed c.seen d) (debounce (search_changed c.seen d) c)) in
    record c' { seen = some d }

-- The renders after an event: the setter in an effect asks for one more.
unfoldable pub render : Option String → Component → Component
unfolding commit
render org c = commit org (commit org c)

pub data LogsEvent : Type 0 where
  filter_chosen searched : String → LogsEvent
  timer_fired : LogsEvent
  page_chosen : ℕ → LogsEvent
  org_changed : LogsEvent
  response : ℕ → Settled (PaginatedResponse WebhookLog) → LogsEvent

abbrev set_state : (LogsState → LogsState) → Component → Component
set_state f c = record c { mounted = record c.mounted { state = f c.state } }

fire : Option String → Component → Component
fire none c = c
fire (some text) c = record (set_state (λ s. record s { debounced_search = text }) c) {
  timer = none;
}

-- What an event writes before the next render.
unfoldable pub handle : LogsEvent → Component → Component
unfolding fire set_page
handle (filter_chosen v) c = set_state (λ s. record s { status_filter = v }) c
handle (searched text) c = set_state (λ s. record s { search = text }) c
handle timer_fired c = fire c.timer c
handle (page_chosen p) c = set_page p c
handle org_changed c = c
handle (response k r) c = set_state (load_settled (c.cancelled k) r) c

-- Each event comes with the organization that is current at the render after it.
unfoldable pub run : List (LogsEvent × Option String) → Component → Component
unfolding handle render
run [] c = c
run ((e, org) ∷ es) c = run es (render org (handle e c))
