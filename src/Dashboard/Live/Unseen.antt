-- ===== src/Dashboard/Live/Unseen.antt =====
-- What the screen does not follow: service, and a new arrival time.
use raise.Kitchen.Gate.{served_row, mark_food_out-Served}
use raise.Dashboard.Live.Faithful.{find_dto-patch, notice_sent, shown_here}
use raise.Dashboard.Listing.{find_dto, Shows, shown}
use raise.Kitchen.{mark_food_out, served_now}
use raise.Realtime.Gateway.{Notice}
use raise.World.{World, ok, table_of}
use raise.Schema.{Instant, food_out, Visit, visit_food_out}
use raise.Dashboard.{DashboardVisitDto, to_visit_dto}
use raise.Store.{Client, Key, IsDocumented, documented, client-eq, documented-IsDocumented}
use raise.Dashboard.Live.{
  on_message, apply_dashboard_event, Screen, DashboardSocketEvent, followed, parse_dashboard_event,
  patch, on_confirmed, on_recomputed, retimed, on_accepted, started_dto, on_table_reassigned,
}
use mathlib.Core.Option
use raise.Prelude.{◌≡◌, Option, Option-cases, Bool-cases, inl, inr, refl, ◌==◌, any}

abbrev pub arrival_of : Option DashboardVisitDto → Option Instant
arrival_of o = Option.map (λ d. d.arrival_eta) o

abbrev pub served_dto : DashboardVisitDto → DashboardVisitDto
served_dto d = record d { status = food_out }

to_visit_dto-served :
    (w : World) (now : Instant) (row : Visit)
    → to_visit_dto documented w (served_row now row)
      ≡ Option.map served_dto (to_visit_dto documented w row)
unfolding to_visit_dto
to_visit_dto-served w now row = elim (Option-cases row.arrival_eta) [
  | inl e ↦ rw e refl
  | inr (eta, e) ↦ elim (Option-cases (table_of documented row.table_id w.db.tables)) [
    | inl n ↦ rw (e, n) refl
    | inr (t, q) ↦ rw (e, q) refl
  ]
]

served_unseen :
    (meanwhile : World → World) (now t : Instant) (r v staff : Key) (w w' : World) (s : Screen)
    → mark_food_out documented meanwhile now r v staff w ≡ (ok (served_now t), w')
    → Shows documented r (meanwhile w) s.visits
    → (on_message s (notice_sent (visit_food_out r v now staff)) ≡ s)
      × (shown documented r w' v ≡ Option.map served_dto (find_dto v s.visits))
unfolding on_message
served_unseen meanwhile now t r v staff w w' s h shows =
    let done =
      mark_food_out-Served documented documented-IsDocumented meanwhile now t r v staff w w' h in
    (
      refl,
      rw (shows v) (
          shown_here (meanwhile w) w' done.rest_kept r v done.visit (served_row now done.visit)
            served_dto done.found done.left done.visits_else (rw done.was_started refl)
            (to_visit_dto-served (meanwhile w) now done.visit)),
    )

-- When an order goes out, the screen is left as it was: the notice of it is none that the dashboard
-- knows. If the screen showed the database before, the database now has the visit as the screen
-- shows it, but with its food out.
pub mark_food_out-unseen :
    (c : Client)
    → IsDocumented c
    → (meanwhile : World → World) (now t : Instant) (r v staff : Key) (w w' : World) (s : Screen)
    → mark_food_out c meanwhile now r v staff w ≡ (ok (served_now t), w')
    → Shows c r (meanwhile w) s.visits
    → (on_message s (notice_sent (visit_food_out r v now staff)) ≡ s)
      × (shown c r w' v ≡ Option.map served_dto (find_dto v s.visits))
mark_food_out-unseen c l = rw (client-eq c l) served_unseen

module _ (i : Key) (change : DashboardVisitDto → DashboardVisitDto)
    (same_id : (d : DashboardVisitDto) → (change d).id ≡ d.id)
    (same_eta : (d : DashboardVisitDto) → (change d).arrival_eta ≡ d.arrival_eta) where
  patch-arrival :
      (s : Screen) (j : Key)
      → arrival_of (find_dto j (followed s (patch i change s.visits)).visits)
        ≡ arrival_of (find_dto j s.visits)
  patch-arrival s j = elim (Option-cases (patch i change s.visits)) [
    | inl n ↦ rw n refl
    | inr (ds, q) ↦
        rw (q, find_dto-patch i change same_id j s.visits ds q)
          (elim (Bool-cases (i == j)) [
            | inr n ↦ rw n refl
            | inl y ↦ rw y (elim (Option-cases (find_dto j s.visits)) [
              | inl e ↦ rw e refl
              | inr (d, e) ↦ rw (e, same_eta d) refl
            ])
          ])
  ]

known-arrival :
    (s : Screen) (m : DashboardSocketEvent) (j : Key)
    → arrival_of (find_dto j (followed s (apply_dashboard_event s.visits m)).visits)
      ≡ arrival_of (find_dto j s.visits)
unfolding apply_dashboard_event
known-arrival s (on_confirmed v) j = elim (Bool-cases (any (λ d. d.id == v) s.visits)) [
  | inl y ↦ rw y refl
  | inr n ↦ rw n refl
]
known-arrival s (on_recomputed v start out) j =
    patch-arrival v (retimed start out) (λ d. refl) (λ d. refl) s j
known-arrival s (on_accepted v at) j = patch-arrival v started_dto (λ d. refl) (λ d. refl) s j
known-arrival s (on_table_reassigned v old new) j = refl

-- No message changes the arrival time that the screen shows for a visit, not even the one that a
-- changed arrival time gives rise to: only a refetch does.
pub on_message-arrival :
    (s : Screen) (raw : Option Notice) (j : Key)
    → arrival_of (find_dto j (on_message s raw).visits) ≡ arrival_of (find_dto j s.visits)
unfolding on_message
on_message-arrival s raw j = elim (Option-cases (parse_dashboard_event raw)) [
  | inl e ↦ rw e refl
  | inr (m, e) ↦ rw e (known-arrival s m j)
]
