-- ===== src/Timing/Service/Accept.antt =====
-- The accept step: the one write path to `kitchen_started`.
use raise.Schema.{confirmed, staff_actor, kitchen_accept_endpoint, visit_kitchen_accepted}
use raise.Store.{documented, Client, IsDocumented, client-eq}
use raise.Prelude.{
  ◌≡◌, Option-cases, ◌≢◌, inl, some, ◌++◌, inr, arith, ◌∷◌, [], if◌then◌else◌, Bool-cases, ◌==◌,
  none, ◌&&◌, ap, sym, ◌∙◌,
}
use raise.World.{Result, SameButVisits}
use raise.Timing.Service.{
  accept_kitchen_start, accepted_at, already_accepted, not_confirmed, KitchenAcceptResult,
  post_kitchen, Instant, Visit, Key, Option, kitchen_started, World, err, ok, is_confirmed,
  not_found,
}
use raise.Visits.Stages.{visit_at, visit_at_here}

abbrev pub started_row : Instant → Visit → Visit
started_row now v = record v { status = kitchen_started; updated_at = now }

-- The answer, from the row that the request meets.
abbrev pub accept_answer : Instant → Option Visit → Result KitchenAcceptResult
accept_answer now none = err not_found
accept_answer now (some v) =
    if is_confirmed v.status
    then ok (accepted_at now)
    else if post_kitchen v.status
    then ok already_accepted
    else ok not_confirmed

-- What acceptance leaves: the visit started, all else as it was, one audit event and one domain event.
pub record Started (now : Instant) (r v staff : Key) (w w' : World) : Type 0 where
  pub visit : Visit
  pub was_confirmed : visit.status ≡ confirmed
  pub found : visit_at r v w ≡ some visit
  pub left : w'.db.visits.at v ≡ some (started_row now visit)
  pub visits_else : (i : Key) → (v ≡ i → ⊥) → w'.db.visits.at i ≡ w.db.visits.at i
  pub tables_kept : w'.db.tables ≡ w.db.tables
  pub rest_kept : SameButVisits w w'
  pub audited :
      w'.db.status_events
      ≡ w.db.status_events
        ++ record {
          restaurant_id = r;
          visit_id = v;
          status = kitchen_started;
          occurred_at = now;
          actor_type = staff_actor;
          actor_id = staff;
          mechanism = kitchen_accept_endpoint;
        }
          ∷ []
  pub told : w'.emitted ≡ w.emitted ++ visit_kitchen_accepted r v now staff ∷ []

accept-answer_documented :
    (now : Instant) (r v staff : Key) (w : World)
    → (accept_kitchen_start documented now r v staff w).0 ≡ accept_answer now (visit_at r v w)
unfolding accept_kitchen_start
accept-answer_documented now r v staff w = elim (Option-cases (w.db.visits.at v)) [
  | inl e ↦ ground arith
  | inr (row, e) ↦ ground arith
]

accept_effects :
    (now : Instant) (r v staff : Key) (w w' : World)
    → accept_kitchen_start documented now r v staff w ≡ (ok (accepted_at now), w')
    → Started now r v staff w w'
unfolding accept_kitchen_start
accept_effects now r v staff w w' h = elim (Option-cases (w.db.visits.at v)) [
  | inl e ↦ ground arith
  | inr (row, e) ↦ record {
    visit = row;
    was_confirmed = ground arith;
    found = ground arith;
    left = ground arith;
    visits_else = λ i n. ground arith;
    tables_kept = ground arith;
    rest_kept = ground arith;
    audited = ground arith;
    told = ground arith;
  }
]

accept-quiet_documented :
    (now : Instant) (r v staff : Key) (w w' : World) (answer : Result KitchenAcceptResult)
    → accept_kitchen_start documented now r v staff w ≡ (answer, w')
    → answer ≢ ok (accepted_at now)
    → w' ≡ w
unfolding accept_kitchen_start
accept-quiet_documented now r v staff w w' answer h quiet = elim (Option-cases (w.db.visits.at v)) [
  | inl e ↦ ground arith
  | inr (row, e) ↦ elim (Bool-cases (row.restaurant_id == r && is_confirmed row.status)) [
    | inl y ↦ absurd (quiet (ground arith))
    | inr n ↦ ground arith
  ]
]

-- `acceptKitchenStart` on every branch: the answer is decided by the row that it meets, and an answer
-- other than a fresh acceptance leaves the world as it was.
pub accept_kitchen_start-branches :
    (c : Client)
    → IsDocumented c
    → (now : Instant) (r v staff : Key) (w w' : World) (answer : Result KitchenAcceptResult)
    → accept_kitchen_start c now r v staff w ≡ (answer, w')
    → (answer ≡ accept_answer now (visit_at r v w))
      × ((answer ≡ ok (accepted_at now)) → Started now r v staff w w')
      × (((answer ≡ ok (accepted_at now)) → ⊥) → w' ≡ w)
accept_kitchen_start-branches c l = rw (client-eq c l) λ now r v staff w w' answer h. (
  ap (λ o. o.0) (sym h) ∙ accept-answer_documented now r v staff w,
  λ e. accept_effects now r v staff w w' (rw (← e) h),
  accept-quiet_documented now r v staff w w' answer h,
)

accept_after :
    (now later : Instant) (r v staff : Key) (row : Visit) (w' : World)
    → row.restaurant_id ≡ r
    → w'.db.visits.at v ≡ some (started_row now row)
    → accept_kitchen_start documented later r v staff w' ≡ (ok already_accepted, w')
unfolding accept_kitchen_start
accept_after now later r v staff row w' here left = ground arith

accept_twice_documented :
    (now later : Instant) (r v first second : Key) (w w' : World)
    → accept_kitchen_start documented now r v first w ≡ (ok (accepted_at now), w')
    → accept_kitchen_start documented later r v second w' ≡ (ok already_accepted, w')
accept_twice_documented now later r v first second w w' h =
    let s = accept_effects now r v first w w' h in
    accept_after now later r v second s.visit w' (visit_at_here r v w s.visit s.found) s.left

-- A double accept, by the same or another member of staff, is answered as accepted already and
-- writes nothing: one audit event and one domain event stay one.
accept_kitchen_start_twice :
    (c : Client)
    → IsDocumented c
    → (now later : Instant) (r v first second : Key) (w w' : World)
    → accept_kitchen_start c now r v first w ≡ (ok (accepted_at now), w')
    → accept_kitchen_start c later r v second w' ≡ (ok already_accepted, w')
accept_kitchen_start_twice c l = rw (client-eq c l) accept_twice_documented
