-- ===== src/Dashboard/Live.antt =====
-- apps/restaurant/src/lib/dashboard-events.ts and the message handler of
-- apps/restaurant/src/components/dashboard-live.tsx: how the dashboard follows the gateway's notices.
use raise.Dashboard.{DashboardVisitDto}
use raise.Realtime.Gateway.{
  Notice, confirmed_notice, table_reassigned_notice, timing_recomputed_notice,
  kitchen_accepted_notice,
}
use raise.Store.{Key}
use raise.Schema.{Instant, kitchen_started}
use raise.Prelude.{Option, none, some, List, [], ◌∷◌, Bool, true, false, ◌==◌, if◌then◌else◌, any}
pub mod Faithful
pub mod Unseen

-- The four events that the dashboard knows.
pub data DashboardSocketEvent : Type 0 where
  on_confirmed : (visit_id : Key) → DashboardSocketEvent
  on_table_reassigned : (visit_id previous_table_id new_table_id : Key) → DashboardSocketEvent
  on_recomputed :
      (visit_id : Key) (kitchen_start_target food_out_target : Instant) → DashboardSocketEvent
  on_accepted : (visit_id : Key) (accepted_at : Instant) → DashboardSocketEvent

-- `none` in place of a notice is a payload that is not an object with a name and data.
abbrev known : Notice → Option DashboardSocketEvent
known (confirmed_notice v) = some (on_confirmed v)
known (table_reassigned_notice v old new) = some (on_table_reassigned v old new)
known (timing_recomputed_notice v start out) = some (on_recomputed v start out)
known (kitchen_accepted_notice v at) = some (on_accepted v at)
known _ = none

abbrev pub parse_dashboard_event : Option Notice → Option DashboardSocketEvent
parse_dashboard_event none = none
parse_dashboard_event (some n) = known n

abbrev has_id : Key → DashboardVisitDto → Bool
has_id i d = d.id == i

abbrev consed {ℓ} : {A : Type ℓ} → A → Option (List A) → Option (List A)
consed a none = none
consed a (some ls) = some (a ∷ ls)

-- `findIndex` by the identifier, and the copy with that entry changed.
unfoldable pub patch :
    Key
    → (DashboardVisitDto → DashboardVisitDto)
    → List DashboardVisitDto
    → Option (List DashboardVisitDto)
patch i change [] = none
patch i change (d ∷ ds) =
    let rest = patch i change ds in if d.id == i then some (change d ∷ ds) else consed d rest

abbrev pub retimed : Instant → Instant → DashboardVisitDto → DashboardVisitDto
retimed start out d = record d { kitchen_start_target = some start; food_out_target = some out }

abbrev pub started_dto : DashboardVisitDto → DashboardVisitDto
started_dto d = record d { status = kitchen_started }

-- `none` asks for a refetch.
unfoldable pub apply_dashboard_event :
    List DashboardVisitDto → DashboardSocketEvent → Option (List DashboardVisitDto)
apply_dashboard_event visits (on_confirmed v) =
    if any (λ d. d.id == v) visits then some visits else none
apply_dashboard_event visits (on_recomputed v start out) = patch v (retimed start out) visits
apply_dashboard_event visits (on_accepted v at) = patch v started_dto visits
apply_dashboard_event visits (on_table_reassigned v old new) = none

-- What is on the screen, and whether `resync` is under way.
pub record Screen : Type 0 where
  pub visits : List DashboardVisitDto
  pub resyncing : Bool

abbrev pub followed : Screen → Option (List DashboardVisitDto) → Screen
followed s none = record s { resyncing = true }
followed s (some next) = record s { visits = next }

abbrev handled : Screen → Option DashboardSocketEvent → Screen
handled s none = s
handled s (some message) = followed s (apply_dashboard_event s.visits message)

unfoldable pub on_message : Screen → Option Notice → Screen
on_message s raw = handled s (parse_dashboard_event raw)

-- The end of `resync`: the list of a response that is `ok`; otherwise the screen stays.
abbrev resynced : Option (List DashboardVisitDto) → Screen → Screen
resynced none s = record s { resyncing = false }
resynced (some visits) s = record { visits = visits; resyncing = false }
