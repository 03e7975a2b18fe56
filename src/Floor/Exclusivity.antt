-- ===== src/Floor/Exclusivity.antt =====
-- Tables are exclusive: each committed transaction keeps the floor so.
use raise.Reassignment.Commits.{tx_Moved}
use raise.Reassignment.Outcomes.{reassign_tx_only_db}
use raise.Timing.Service.Recompute.{Retargeted, recompute-Retargeted, targeted_row}
use raise.Kitchen.Gate.{Served, mark_food_out-Served, served_row}
use raise.Timing.Engine.{TimingTargets}
use raise.Kitchen.{mark_food_out, served_now}
use raise.Intake.Frame.{OwnWrite}
use raise.Timing.Service.Accept.{accept_kitchen_start-branches, started_row}
use raise.Floor.Seats.{sits-Exclusive, same_seats-Exclusive, same_row_seats}
use raise.Visits.Retabled.{some_inj}
use raise.Reassignment.Moves.{Moved}
use raise.Timing.Service.{KitchenAcceptResult, accept_kitchen_start, recompute, applied}
use raise.Visits.Claims.{Claimed, confirm_tx-Claimed}
use raise.Visits.Stages.{visit_at}
use raise.Dashboard.{is_inbound}
use raise.Floor.{
  Exclusive, seat_of, moves, seat, Reached, Step, then_step, confirms, begun, accepts, serves,
  retargets, drafts,
}
use raise.Reassignment.{is_active, reassign_tx}
use raise.World.{World, Result, SameButVisits, ok}
use raise.Store.{Key, documented, documented-IsDocumented, Client, IsDocumented, client-eq}
use raise.Schema.{VisitStatus, Visit, Instant, is_confirmed, Reason, visit_table_reassigned}
use mathlib.Core.Path.{subst}
use raise.Prelude.{
  ◌≡◌, some, none, Bool-cases, Option-cases, inl, inr, arith, sym, ◌∙◌, ap, true, refl, ◌==◌, ◌++◌,
  ◌∷◌, [],
}

visit_at_row :
    (r v : Key) (w : World) (row : Visit) → visit_at r v w ≡ some row → w.db.visits.at v ≡ some row
visit_at_row r v w row e = ground arith

inbound_of_active : (s : VisitStatus) → is_active s ≡ true → is_inbound s ≡ true
inbound_of_active s e = ground arith

-- A change of one visit that keeps its seat, and nothing else but the audit trail.
row-Exclusive :
    (w w' : World) (r v : Key) (row row' : Visit)
    → Exclusive w
    → visit_at r v w ≡ some row
    → w'.db.visits.at v ≡ some row'
    → ((i : Key) → (v ≡ i → ⊥) → w'.db.visits.at i ≡ w.db.visits.at i)
    → seat_of (some row') ≡ seat_of (some row)
    → SameButVisits w w'
    → Exclusive w'
row-Exclusive w w' r v row row' ex found left visits_else same rest =
    same_seats-Exclusive w w' ex
      (same_row_seats w w' v row row' (visit_at_row r v w row found) left visits_else same)
      (λ t. ap (λ d. d.tables.at t) rest)

moves-Exclusive :
    (w w' : World)
    → Exclusive w
    → (now : Instant) (r v old new staff : Key) → Moved now r v old new staff w w'
    → Exclusive w'
moves-Exclusive w w' ex now r v old new staff m =
    let inbound = inbound_of_active m.visit.status m.was_active in
    let was_there : seat w v ≡ some old = ap seat_of m.visit_found ∙ rw inbound m.was_at_old in
    sits-Exclusive w w' ex v new m.table (ap seat_of m.visit_left ∙ rw inbound refl)
      (λ i n. ap seat_of (m.visits_else i n)) m.table_found m.was_free m.new_left
      (λ u n not_left. m.tables_else u (λ s. not_left (was_there ∙ ap some s)) n)

module _ (w w' : World) (ex : Exclusive w) where
  confirms-Exclusive :
      (now : Instant) (r v cust t : Key) (row : Visit)
      → w.db.visits.at v ≡ some row
      → row.table_id ≡ some t
      → Claimed now r v cust (some t) w w'
      → Exclusive w'
  confirms-Exclusive now r v cust t row found at_t c =
      let same : c.visit ≡ row = some_inj (sym c.visit_found ∙ found) in
      let at_key : c.visit.table_id ≡ some c.table_key =
        ap (λ x. x.table_id) same ∙ at_t ∙ c.named in
      sits-Exclusive w w' ex v c.table_key c.table (ap seat_of c.visit_left ∙ at_key)
        (λ i n. ap seat_of (c.visits_else i n)) c.table_found c.was_free c.table_left
        (λ u n unseated. c.tables_else u n)

  -- The event that follows the transaction is no part of the floor.
  tx_moves-Exclusive :
      (now : Instant) (r v old new : Key)
      → (old ≡ new → ⊥)
      → reassign_tx documented now r v old new w ≡ (ok tt, w')
      → Exclusive w'
  tx_moves-Exclusive now r v old new n h =
      let silent : record w' { db = w.db } ≡ w =
        subst (λ o. record (o.1) { db = w.db } ≡ w) h (reassign_tx_only_db now r v old new w) in
      let told = record w' { emitted = w'.emitted ++ visit_table_reassigned r v old new v ∷ [] } in
      same_seats-Exclusive told w'
        (moves-Exclusive w told ex now r v old new v (tx_Moved now r v old new v w w' h n silent))
        (λ i. refl) (λ t. refl)

  accepts-Exclusive :
      (now : Instant) (r v staff : Key) (answer : Result KitchenAcceptResult)
      → accept_kitchen_start documented now r v staff w ≡ (answer, w')
      → Exclusive w'
  accepts-Exclusive now r v staff answer h =
      let (is_answer, fresh, quiet) =
        accept_kitchen_start-branches documented documented-IsDocumented now r v staff w w' answer
          h in
      elim (Option-cases (visit_at r v w)) [
        | inl e ↦ subst Exclusive (sym (quiet (λ q. ground arith))) ex
        | inr (row, e) ↦ elim (Bool-cases (is_confirmed row.status)) [
          | inl y ↦
              let s = fresh (is_answer ∙ rw (e, y) refl) in
              row-Exclusive w w' r v s.visit (started_row now s.visit) ex s.found s.left
                s.visits_else (rw s.was_confirmed refl) s.rest_kept
          | inr n ↦ subst Exclusive (sym (quiet (λ q. ground arith))) ex
        ]
      ]

  serves-Exclusive :
      (meanwhile : World → World) (read : World) (now t : Instant) (r v staff : Key)
      → mark_food_out documented meanwhile now r v staff read ≡ (ok (served_now t), w')
      → meanwhile read ≡ w
      → Exclusive w'
  serves-Exclusive meanwhile read now t r v staff h at_write =
      let s : Served now r v staff read w w' =
        subst (λ m. Served now r v staff read m w') at_write
          (mark_food_out-Served documented documented-IsDocumented meanwhile now t r v staff read w'
            h) in
      row-Exclusive w w' r v s.visit (served_row now s.visit) ex s.found s.left s.visits_else
        (rw s.was_started refl) s.rest_kept

  retargets-Exclusive :
      (meanwhile : World → World) (read : World) (now : Instant) (r v : Key) (reason : Reason)
      (t : TimingTargets)
      → recompute documented meanwhile now r v reason read ≡ (ok (applied t), w')
      → meanwhile read ≡ w
      → Exclusive w'
  retargets-Exclusive meanwhile read now r v reason t h at_write =
      let s : Retargeted now r v reason t read w w' =
        subst (λ m. Retargeted now r v reason t read m w') at_write
          (recompute-Retargeted documented documented-IsDocumented meanwhile now r v reason read w'
            t h) in
      row-Exclusive w w' r v s.row (targeted_row now t s.row) ex s.row_found s.left s.visits_else
        refl s.rest_kept

  drafts-Exclusive : (v : Key) → seat w v ≡ none → seat w' v ≡ none → OwnWrite v w w' → Exclusive w'
  drafts-Exclusive v before after write =
      same_seats-Exclusive w w' ex
        (λ i. elim (Bool-cases (v == i)) [
          | inl y ↦
              let here : v ≡ i = ground arith in
              subst (λ k. seat w' k ≡ seat w k) here (after ∙ sym before)
          | inr n ↦ ap seat_of (write.visits_else i (λ s. ground arith))
        ])
        (λ t. ap (λ o. o.db.tables.at t) write.rest_kept)

  Step-Exclusive : Step documented w w' → Exclusive w'
  Step-Exclusive (confirms now r v cust t x row found at_t h) =
      confirms-Exclusive now r v cust t row found at_t
        (confirm_tx-Claimed now r v cust (some t) w w' x h)
  Step-Exclusive (moves now r v old new n h) = tx_moves-Exclusive now r v old new n h
  Step-Exclusive (accepts now r v staff answer h) = accepts-Exclusive now r v staff answer h
  Step-Exclusive (serves meanwhile read now t r v staff h e) =
      serves-Exclusive meanwhile read now t r v staff h e
  Step-Exclusive (retargets meanwhile read now r v reason t h e) =
      retargets-Exclusive meanwhile read now r v reason t h e
  Step-Exclusive (drafts v before after write) = drafts-Exclusive v before after write

floor_documented : (start w : World) → Exclusive start → Reached documented start w → Exclusive w
floor_documented start w ex begun = ex
floor_documented start w ex (then_step m _ reached step) =
    Step-Exclusive m w (floor_documented start m ex reached) step

-- No table is double-booked: from a floor on which every seated visit has a table to itself that is
-- not free, every sequence of committed confirmations, reassignments, acceptances, services,
-- recomputes and tool writes for drafts leads to such a floor, if each confirmation meets the visit at
-- the table that it read.
pub Reached-Exclusive :
    (c : Client)
    → IsDocumented c
    → (start w : World) → Exclusive start
    → Reached c start w
    → Exclusive w
Reached-Exclusive c l = rw (client-eq c l) floor_documented
