-- ===== src/Dashboard/Live/Faithful.antt =====
-- The screen of the dashboard follows the database: what the server's updates do to the abstract
-- dashboard, what their notices do to the screen, and that the two agree.
use raise.Visits.Claims.{Claimed, confirm_tx-Claimed}
use raise.Timing.Service.Recompute.{targeted_row, Retargeted, recompute-Retargeted}
use raise.Reassignment.{reassign_tx}
use raise.Visits.{VisitWithItemsAndTable, confirm_tx}
use raise.Timing.Engine.{TimingTargets}
use raise.Timing.Service.Accept.{Started, started_row, accept_kitchen_start-branches}
use raise.Timing.Service.{accept_kitchen_start, accepted_at, recompute, applied}
use raise.Realtime.Gateway.{Notice, notice_of}
use mathlib.Core.Option
use mathlib.Core.Path.{subst}
use raise.Visits.Stages.{visit_at}
use raise.Dashboard.Listing.{find_dto, shown, Shows}
use raise.Dashboard.Live.{
  patch, on_message, Screen, followed, apply_dashboard_event, started_dto, retimed,
}
use raise.Schema.{
  Visit, DomainEvent, Instant, visit_kitchen_accepted, Reason, visit_timing_recomputed,
  visit_confirmed, visit_table_reassigned, draft,
}
use raise.Dashboard.{DashboardVisitDto, to_visit_dto, is_listed}
use raise.Store.{Key, documented, Client, IsDocumented, documented-IsDocumented, client-eq}
use raise.World.{World, SameButVisits, ok, table_of}
use raise.Prelude.{
  ◌≡◌, Option, some, List, [], ◌∷◌, inl, inr, Option-cases, Bool-cases, arith, ◌==◌, if◌then◌else◌,
  ap, none, ◌∙◌, refl, sym, true, ◌⊎◌, any, false,
}

abbrev patched {ℓ} : {A : Type ℓ} → Key → (A → A) → Key → Option A → Option A
patched i change j o = if i == j then Option.map change o else o

module _ (i : Key) (change : DashboardVisitDto → DashboardVisitDto)
    (same_id : (d : DashboardVisitDto) → (change d).id ≡ d.id) (j : Key) where
  pub find_dto-patch :
      (ds ds' : List DashboardVisitDto)
      → patch i change ds ≡ some ds'
      → find_dto j ds' ≡ patched i change j (find_dto j ds)
  unfolding patch
  find_dto-patch [] ds' h = absurd (ground arith)
  find_dto-patch (d ∷ ds) ds' h = elim (Bool-cases (d.id == i)) [
    | inl y ↦
        let k = same_id d in let e : change d ∷ ds ≡ ds' = ground arith in rw (← e) (ground arith)
    | inr n ↦ elim (Option-cases (patch i change ds)) [
      | inl e ↦ absurd (ground arith)
      | inr (rest, e) ↦ let ih = find_dto-patch ds rest e in ground arith
    ]
  ]

row_at :
    (r v : Key) (w : World) (row : Visit) → visit_at r v w ≡ some row → w.db.visits.at v ≡ some row
row_at r v w row e = ground arith

shown_row :
    (r : Key) (w : World) (j : Key) (x : Visit)
    → w.db.visits.at j ≡ some x
    → shown documented r w j ≡ (if is_listed r x then to_visit_dto documented w x else none)
unfolding shown
shown_row r w j x e = elim (Bool-cases (is_listed r x)) [
  | inl y ↦ rw (e, y) refl
  | inr n ↦ rw (e, n) refl
]

shown-none :
    (r : Key) (w : World) (j : Key) → w.db.visits.at j ≡ none → shown documented r w j ≡ none
unfolding shown
shown-none r w j e = rw e refl

module _ (w w' : World) (same : SameButVisits w w') where
  to_visit_dto-kept : (x : Visit) → to_visit_dto documented w' x ≡ to_visit_dto documented w x
  unfolding to_visit_dto
  to_visit_dto-kept x =
      let tables_kept : w'.db.tables ≡ w.db.tables = ap (λ d. d.tables) same in
      let items_kept : w'.db.visit_items ≡ w.db.visit_items = ap (λ d. d.visit_items) same in
      let menu_kept : w'.db.menu_items ≡ w.db.menu_items = ap (λ d. d.menu_items) same in
      ground arith

  module _ (r v : Key) (row row' : Visit) (change : DashboardVisitDto → DashboardVisitDto)
      (found : visit_at r v w ≡ some row) (left : w'.db.visits.at v ≡ some row')
      (visits_else : (i : Key) → (v ≡ i → ⊥) → w'.db.visits.at i ≡ w.db.visits.at i)
      (same_listed : is_listed r row' ≡ is_listed r row)
      (changed : to_visit_dto documented w row'
        ≡ Option.map change (to_visit_dto documented w row)) where
    pub shown_here : shown documented r w' v ≡ Option.map change (shown documented r w v)
    shown_here =
        rw
          (
            shown_row r w v row (row_at r v w row found),
            shown_row r w' v row' left,
            same_listed,
            to_visit_dto-kept row',
            changed,
          )
          (elim (Bool-cases (is_listed r row)) [ inl y ↦ rw y refl | inr n ↦ rw n refl ])

    shown_else : (j : Key) → (v ≡ j → ⊥) → shown documented r w' j ≡ shown documented r w j
    shown_else j n = elim (Option-cases (w.db.visits.at j)) [
      | inl e ↦ shown-none r w' j (visits_else j n ∙ e) ∙ sym (shown-none r w j e)
      | inr (x, e) ↦
          rw (shown_row r w j x e, shown_row r w' j x (visits_else j n ∙ e), to_visit_dto-kept x)
            refl
    ]

    shown-patched :
        (j : Key) → shown documented r w' j ≡ patched v change j (shown documented r w j)
    shown-patched j = elim (Bool-cases (v == j)) [
      | inl y ↦ let k = shown_here in ground arith
      | inr n ↦ let k = shown_else j (λ s. ground arith) in ground arith
    ]

-- The updates whose events the dashboard knows: the world before, the world after, and the event.
pub data Update (c : Client) (r : Key) (w w' : World) : DomainEvent → Type 0 where
  accepted :
      (now : Instant) (v staff : Key)
      → accept_kitchen_start c now r v staff w ≡ (ok (accepted_at now), w')
      → Update c r w w' (visit_kitchen_accepted r v now staff)
  -- `w` is the world in which it writes.
  recomputed :
      (meanwhile : World → World) (now : Instant) (v : Key) (reason : Reason) (t : TimingTargets)
      (read : World) (previous : Option Instant)
      → recompute c meanwhile now r v reason read ≡ (ok (applied t), w')
      → meanwhile read ≡ w
      → Update c r w w'
          (visit_timing_recomputed r v t.kitchen_start_target t.food_out_target previous reason)
  -- the transaction of `confirm`
  booked :
      (now : Instant) (v cust : Key) (t : Option Key) (x : VisitWithItemsAndTable)
      → confirm_tx c now r v cust t w ≡ (ok x, w')
      → Update c r w w' (visit_confirmed r v)
  -- the transaction of `reassignTable`
  reassigned :
      (now : Instant) (v old new staff : Key)
      → reassign_tx c now r v old new w ≡ (ok tt, w')
      → Update c r w w' (visit_table_reassigned r v old new staff)

-- What the screen owes the database: it shows it, or a refetch is under way.
abbrev pub Follows : Client → Key → World → Screen → Type 0
Follows c r w s = (s.resyncing ≡ true) ⊎ Shows c r w s.visits

abbrev pub notice_sent : DomainEvent → Option Notice
notice_sent e = some (notice_of e).1

patch-Follows :
    (r v : Key) (w' : World) (s s' : Screen) (change : DashboardVisitDto → DashboardVisitDto)
    → ((d : DashboardVisitDto) → (change d).id ≡ d.id)
    → ((j : Key) → shown documented r w' j ≡ patched v change j (find_dto j s.visits))
    → s' ≡ followed s (patch v change s.visits)
    → Follows documented r w' s'
patch-Follows r v w' s s' change same_id server e = elim (Option-cases (patch v change s.visits)) [
  | inl n ↦ inl (rw (e, n) refl)
  | inr (ds, q) ↦
      inr λ j. rw (e, q) (find_dto-patch v change same_id j s.visits ds q ∙ sym (server j))
]

to_visit_dto-started :
    (w : World) (now : Instant) (row : Visit)
    → to_visit_dto documented w (started_row now row)
      ≡ Option.map started_dto (to_visit_dto documented w row)
unfolding to_visit_dto
to_visit_dto-started w now row = elim (Option-cases row.arrival_eta) [
  | inl e ↦ rw e refl
  | inr (eta, e) ↦ elim (Option-cases (table_of documented row.table_id w.db.tables)) [
    | inl n ↦ rw (e, n) refl
    | inr (t, q) ↦ rw (e, q) refl
  ]
]

to_visit_dto-targeted :
    (w : World) (now : Instant) (t : TimingTargets) (row : Visit)
    → to_visit_dto documented w (targeted_row now t row)
      ≡ Option.map
          (retimed t.kitchen_start_target t.food_out_target)
          (to_visit_dto documented w row)
unfolding to_visit_dto
to_visit_dto-targeted w now t row = elim (Option-cases row.arrival_eta) [
  | inl e ↦ rw e refl
  | inr (eta, e) ↦ elim (Option-cases (table_of documented row.table_id w.db.tables)) [
    | inl n ↦ rw (e, n) refl
    | inr (table, q) ↦ rw (e, q) refl
  ]
]

accepted-Follows :
    (r : Key) (w w' : World) (s : Screen) (now : Instant) (v staff : Key)
    → Shows documented r w s.visits
    → Started now r v staff w w'
    → Follows documented r w' (on_message s (notice_sent (visit_kitchen_accepted r v now staff)))
unfolding on_message apply_dashboard_event
accepted-Follows r w w' s now v staff shows done =
    patch-Follows r v w' s _ started_dto (λ d. refl)
      (λ j. rw (shows j) (
        shown-patched w w' done.rest_kept r v done.visit (started_row now done.visit) started_dto
          done.found done.left done.visits_else (rw done.was_confirmed refl)
          (to_visit_dto-started w now done.visit) j))
      refl

recomputed-Follows :
    (r : Key) (read w w' : World) (s : Screen) (now : Instant) (v : Key) (reason : Reason)
    (t : TimingTargets) (previous : Option Instant)
    → Shows documented r w s.visits
    → Retargeted now r v reason t read w w'
    → Follows documented r w' (
        on_message s (
          notice_sent
            (visit_timing_recomputed r v t.kitchen_start_target t.food_out_target previous reason)))
unfolding on_message apply_dashboard_event
recomputed-Follows r read w w' s now v reason t previous shows done =
    patch-Follows r v w' s _ (retimed t.kitchen_start_target t.food_out_target) (λ d. refl)
      (λ j. rw (shows j) (
        shown-patched w w' done.rest_kept r v done.row (targeted_row now t done.row)
          (retimed t.kitchen_start_target t.food_out_target) done.row_found done.left
          done.visits_else refl (to_visit_dto-targeted w now t done.row) j))
      refl

draft_unshown :
    (r v : Key) (w : World) (row : Visit)
    → w.db.visits.at v ≡ some row
    → row.status ≡ draft
    → shown documented r w v ≡ none
draft_unshown r v w row e d = shown_row r w v row e ∙ ground arith

any_absent :
    (i : Key) (ds : List DashboardVisitDto) → find_dto i ds ≡ none → any (λ d. d.id == i) ds ≡ false
any_absent i [] h = refl
any_absent i (d ∷ ds) h = let ih = any_absent i ds in ground arith

booked-Follows :
    (r : Key) (w w' : World) (s : Screen) (now : Instant) (v cust : Key) (t : Option Key)
    → Shows documented r w s.visits
    → Claimed now r v cust t w w'
    → Follows documented r w' (on_message s (notice_sent (visit_confirmed r v)))
unfolding on_message apply_dashboard_event
booked-Follows r w w' s now v cust t shows done =
    let unknown =
      any_absent v s.visits
        (shows v ∙ draft_unshown r v w done.visit done.visit_found done.was_draft) in
    inl (rw unknown refl)

update-Follows :
    (r : Key) (w w' : World) (e : DomainEvent) (s : Screen)
    → Update documented r w w' e
    → Shows documented r w s.visits
    → Follows documented r w' (on_message s (notice_sent e))
unfolding on_message apply_dashboard_event
update-Follows r w w' e s (accepted now v staff h) shows =
    accepted-Follows r w w' s now v staff shows (
      (accept_kitchen_start-branches documented documented-IsDocumented now r v staff w w' _ h).1
        refl)
update-Follows r w w' e s (recomputed meanwhile now v reason t read previous h at_write) shows =
    recomputed-Follows r read w w' s now v reason t previous shows (
      subst (λ m. Retargeted now r v reason t read m w') at_write
        (recompute-Retargeted documented documented-IsDocumented meanwhile now r v reason read w' t
          h))
update-Follows r w w' e s (booked now v cust t x h) shows =
    booked-Follows r w w' s now v cust t shows (confirm_tx-Claimed now r v cust t w w' x h)
update-Follows r w w' e s (reassigned now v old new staff h) shows = inl refl

-- The dashboard refines the database: if the screen shows what the database has, then after any
-- update that the kitchen's acceptance, a recompute, a confirmation or a reassignment commits, and the
-- notice that the gateway makes of its event, the screen shows the new database or a refetch is under
-- way.
pub on_message-Follows :
    (c : Client)
    → IsDocumented c
    → (r : Key) (w w' : World) (e : DomainEvent) (s : Screen) → Update c r w w' e
    → Shows c r w s.visits
    → Follows c r w' (on_message s (notice_sent e))
on_message-Follows c l = rw (client-eq c l) update-Follows
