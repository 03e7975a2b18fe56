-- ===== src/Examples/Dashboard.antt =====
-- The dashboard at concrete worlds.
use raise.Dashboard.Entries.{Listed, list_inbound_visits-Listed}
use raise.Realtime.Gateway.{timing_recomputed_notice}
use raise.Examples.{evening, now, rows, blank_visit, later, eta}
use raise.World.{World, ok}
use raise.Kitchen.{mark_food_out, served_now, serve, food_out_gate}
use raise.Schema.{Visit, visit_food_out, visit_kitchen_accepted, kitchen_started, confirmed}
use raise.Timing.Service.{accept_kitchen_start, accepted_at}
use raise.Dashboard.Live.{Screen, on_message, apply_dashboard_event, patch}
use raise.Dashboard.Live.Unseen.{arrival_of, served_dto, on_message-arrival, mark_food_out-unseen}
use raise.Dashboard.Live.Faithful.{Follows, notice_sent, on_message-Follows, accepted}
use raise.Dashboard.{list_inbound_visits, DashboardVisitDto, collect, to_visit_dto}
use raise.Dashboard.Listing.{Rearranges, IsKeyed, Shows, list_inbound_visits-Shows, find_dto, shown}
use mathlib.Core.Option
use raise.Prelude.{
  Option, Bool-cases, ◌==◌, arith, ◌≡◌, some, none, refl, inl, inr, List, ◌∷◌, [], map, false,
}
use raise.Store.{documented, documented-IsDocumented}

run : Unit {0}
unfolding list_inbound_visits collect to_visit_dto shown on_message apply_dashboard_event patch
    accept_kitchen_start mark_food_out serve food_out_gate
run = tt

abbrev as_stored : List Visit → List Visit
as_stored vs = vs

stored-Rearranges : Rearranges as_stored
stored-Rearranges vs v = (λ m. m, λ m. m)

-- The evening with the visits that are inbound and nothing else.
abbrev tonight : World
tonight = record evening {
  db = record (evening.db) {
    visits = rows ((12, blank_visit 12 confirmed) ∷ (14, blank_visit 14 kitchen_started) ∷ []);
  };
}

abbrev loaded_or_empty : Option (List DashboardVisitDto) → List DashboardVisitDto
loaded_or_empty none = []
loaded_or_empty (some ds) = ds

abbrev first_list : List DashboardVisitDto
first_list = loaded_or_empty (list_inbound_visits documented as_stored 1 tonight)

tonight-IsKeyed : IsKeyed tonight
tonight-IsKeyed i v h = elim (Bool-cases (12 == i)) [
  | inl y ↦ (ground arith, inl (ground arith))
  | inr n ↦ elim (Bool-cases (14 == i)) [
    | inl y ↦ (ground arith, inr (inl (ground arith)))
    | inr m ↦ absurd (ground arith)
  ]
]

loads : list_inbound_visits documented as_stored 1 tonight ≡ some first_list
unfolding run
loads = refl

list_inbound_visits-Listed_example : Listed documented 1 tonight 12 (find_dto 12 first_list)
list_inbound_visits-Listed_example =
    list_inbound_visits-Listed documented documented-IsDocumented as_stored stored-Rearranges 1
      tonight tonight-IsKeyed first_list loads 12

first_shown : Shows documented 1 tonight first_list
first_shown =
    list_inbound_visits-Shows documented documented-IsDocumented as_stored stored-Rearranges 1
      tonight tonight-IsKeyed first_list loads

abbrev screen : Screen
screen = record { visits = first_list; resyncing = false }

abbrev accepted_world : World
accepted_world = (accept_kitchen_start documented now 1 12 40 tonight).1

accepts :
    accept_kitchen_start documented now 1 12 40 tonight ≡ (ok (accepted_at now), accepted_world)
unfolding run
accepts = refl

follows_accept :
    map
      (λ d. d.status)
      (on_message screen (notice_sent (visit_kitchen_accepted 1 12 now 40))).visits
    ≡ kitchen_started ∷ kitchen_started ∷ []
unfolding run
follows_accept = refl

on_message-Follows_example :
    Follows documented 1 accepted_world
      (on_message screen (notice_sent (visit_kitchen_accepted 1 12 now 40)))
on_message-Follows_example =
    on_message-Follows documented documented-IsDocumented 1 tonight accepted_world
      (visit_kitchen_accepted 1 12 now 40) screen (accepted now 12 40 accepts) first_shown

abbrev still : World → World
still w = w

abbrev served_world : World
served_world = (mark_food_out documented still now 1 14 40 tonight).1

serves : mark_food_out documented still now 1 14 40 tonight ≡ (ok (served_now now), served_world)
unfolding run
serves = refl

mark_food_out-unseen_example :
    (on_message screen (notice_sent (visit_food_out 1 14 now 40)) ≡ screen)
    × (shown documented 1 served_world 14 ≡ Option.map served_dto (find_dto 14 first_list))
mark_food_out-unseen_example =
    mark_food_out-unseen documented documented-IsDocumented still now now 1 14 40 tonight
      served_world screen serves first_shown

on_message-arrival_example :
    arrival_of
      (find_dto 12 (on_message screen (some (timing_recomputed_notice 12 later eta))).visits)
    ≡ arrival_of (find_dto 12 first_list)
on_message-arrival_example =
    on_message-arrival screen (some (timing_recomputed_notice 12 later eta)) 12
