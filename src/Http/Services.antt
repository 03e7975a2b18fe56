-- ===== src/Http/Services.antt =====
-- The timing and the kitchen services leave other restaurants alone.
use mathlib.Core.Path.{subst}
use raise.Timing.Service.Recompute.{write_targets-applied, targeted_row}
use raise.Timing.Engine.{TimingTargets}
use raise.Kitchen.Gate.{served_row}
use raise.Kitchen.{serve, mark_food_out, is_flagged, is_some}
use raise.Timing.Service.Accept.{accept_kitchen_start-branches, started_row}
use raise.Visits.Stages.{visit_at, visit_at_here}
use raise.Timing.Service.{
  accept_kitchen_start, write_targets, applied, recompute, recompute_targets, compute_and_write,
}
use raise.Http.Tenants.{Apart, Apart-same, none_kept, Apart-trans, Isolates, Isolates-transaction}
use raise.World.{World, SameButVisits, Result-cases, ok, items_of}
use raise.Schema.{
  Instant, Visit, VisitStatusEvent, is_confirmed, kitchen_started, is_kitchen_started, food_out,
  Reason, staff_actor, kitchen_food_out_endpoint, Restaurant,
}
use raise.Store.{Key, documented, select, documented-IsDocumented}
use mathlib.Core.List.{append-nil}
use raise.Prelude.{
  ◌≡◌, some, ◌==◌, Option-cases, Bool-cases, inl, inr, arith, refl, List, keep, ◌++◌, ◌∷◌, ap, [],
  keep-append, ◌∙◌, Option, ◌&&◌, none, ◌⊎◌, not, any, ◌||◌, true, sym,
}

found_here :
    (r v : Key) (w : World) (row : Visit)
    → w.db.visits.at v ≡ some row
    → row.restaurant_id ≡ r
    → visit_at r v w ≡ some row
found_here r v w row e here = ground arith

module _ (q r : Key) (apart : r ≡ q → ⊥) where
  -- A row of the restaurant is replaced, and the audit trail grows by an entry of the restaurant.
  row_Apart :
      (w w' : World) (v : Key) (row row' : Visit)
      → visit_at r v w ≡ some row
      → w'.db.visits.at v ≡ some row'
      → row'.restaurant_id ≡ r
      → ((i : Key) → (v ≡ i → ⊥) → w'.db.visits.at i ≡ w.db.visits.at i)
      → SameButVisits w w'
      → keep (λ e. e.restaurant_id == q) w'.db.status_events
        ≡ keep (λ e. e.restaurant_id == q) w.db.status_events
      → Apart q w w'
  row_Apart w w' v row row' found left here visits_else rest audit = record {
    visits = λ i. elim (Bool-cases (v == i)) [
      | inl y ↦ let same : v ≡ i = ground arith in ground arith
      | inr n ↦ ap (select (λ x. x.restaurant_id == q)) (visits_else i (λ s. ground arith))
    ];
    tables = λ i. ap (λ d. select (λ x. x.restaurant_id == q) (d.tables.at i)) rest;
    menu_items = λ i. ap (λ d. select (λ x. x.restaurant_id == q) (d.menu_items.at i)) rest;
    visit_items = λ i. ap (λ d. select (λ x. x.restaurant_id == q) (d.visit_items.at i)) rest;
    acks = λ i. ap (λ d. select (λ x. x.restaurant_id == q) (d.allergy_acks.at i)) rest;
    audit = audit;
  }

  audit_grows :
      (es : List VisitStatusEvent) (e : VisitStatusEvent)
      → e.restaurant_id ≡ r
      → keep (λ x. x.restaurant_id == q) (es ++ e ∷ []) ≡ keep (λ x. x.restaurant_id == q) es
  audit_grows es e here =
      keep-append (λ x. x.restaurant_id == q) es (e ∷ [])
      ∙ (ap (λ l. keep (λ x. x.restaurant_id == q) es ++ l) (none_kept q r apart e here)
          ∙ append-nil _)

  pub accept-Apart :
      (now : Instant) (v staff : Key) (w : World)
      → Apart q w (accept_kitchen_start documented now r v staff w).1
  accept-Apart now v staff w =
      let w' = (accept_kitchen_start documented now r v staff w).1 in
      let (is_answer, fresh, quiet) =
        accept_kitchen_start-branches documented documented-IsDocumented now r v staff w w' _
          refl in
      elim (Option-cases (visit_at r v w)) [
        | inl e ↦ Apart-same q w w' (ap (λ o. o.db) (quiet (λ h. ground arith)))
        | inr (row, e) ↦ elim (Bool-cases (is_confirmed row.status)) [
          | inl y ↦
              let s = fresh (is_answer ∙ rw (e, y) refl) in
              row_Apart w w' v s.visit (started_row now s.visit) s.found s.left
                (visit_at_here r v w s.visit s.found) s.visits_else s.rest_kept
                (ap (keep (λ x. x.restaurant_id == q)) s.audited
                  ∙ audit_grows w.db.status_events _ refl)
          | inr n ↦ Apart-same q w w' (ap (λ o. o.db) (quiet (λ h. ground arith)))
        ]
      ]

  serve_quiet :
      (now : Instant) (v staff : Key) (w : World)
      → select (λ x. x.restaurant_id == r && is_kitchen_started x.status) (w.db.visits.at v) ≡ none
      → (serve documented now r v staff w).1 ≡ w
  unfolding serve
  serve_quiet now v staff w e = elim (Option-cases (w.db.visits.at v)) [
    | inl f ↦ ground arith
    | inr (row, f) ↦ ground arith
  ]

  module _ (now : Instant) (v staff : Key) (w : World) (row : Visit)
      (found : w.db.visits.at v ≡ some row) (here : row.restaurant_id ≡ r)
      (started : row.status ≡ kitchen_started) where
    serve_left : (serve documented now r v staff w).1.db.visits.at v ≡ some (served_row now row)
    unfolding serve
    serve_left = ground arith

    serve_else :
        (i : Key)
        → (v ≡ i → ⊥)
        → (serve documented now r v staff w).1.db.visits.at i ≡ w.db.visits.at i
    unfolding serve
    serve_else i n = ground arith

    serve_rest : SameButVisits w (serve documented now r v staff w).1
    unfolding serve
    serve_rest = ground arith

    serve_audited :
        (serve documented now r v staff w).1.db.status_events
        ≡ w.db.status_events
          ++ record {
            restaurant_id = r;
            visit_id = v;
            status = food_out;
            occurred_at = now;
            actor_type = staff_actor;
            actor_id = staff;
            mechanism = kitchen_food_out_endpoint;
          }
            ∷ []
    unfolding serve
    serve_audited = ground arith

  selected_started :
      (o : Option Visit) (row : Visit)
      → select (λ x. x.restaurant_id == r && is_kitchen_started x.status) o ≡ some row
      → (o ≡ some row) × (row.restaurant_id ≡ r) × (row.status ≡ kitchen_started)
  selected_started none row e = absurd (ground arith)
  selected_started (some x) row e = (ground arith, ground arith, ground arith)

  serve-Apart :
      (now : Instant) (v staff : Key) (w : World) → Apart q w (serve documented now r v staff w).1
  serve-Apart now v staff w =
      elim (Option-cases
        (select (λ x. x.restaurant_id == r && is_kitchen_started x.status) (w.db.visits.at v))) [
          | inl e ↦ Apart-same q w _ (ap (λ o. o.db) (serve_quiet now v staff w e))
          | inr (row, e) ↦
              let (found, here, started) = selected_started (w.db.visits.at v) row e in
              row_Apart w _ v row (served_row now row) (found_here r v w row found here)
                (serve_left now v staff w row found here started) here
                (serve_else now v staff w row found here started)
                (serve_rest now v staff w row found here started)
                (ap (keep (λ x. x.restaurant_id == q))
                    (serve_audited now v staff w row found here started)
                  ∙ audit_grows w.db.status_events _ refl)
        ]

  module _ (others : World → World) (others_apart : (w : World) → Apart q w (others w)) where
    food_out_settles :
        (now : Instant) (v staff : Key) (w : World)
        → ((mark_food_out documented others now r v staff w).1.db ≡ w.db)
          ⊎ ((mark_food_out documented others now r v staff w).1
              ≡ (serve documented now r v staff (others w)).1)
    unfolding mark_food_out
    food_out_settles now v staff w = elim (Option-cases (visit_at r v w)) [
      | inl e ↦ inl (ground arith)
      | inr (row, e) ↦
          elim (Bool-cases (
            not (any is_flagged (items_of documented v w))
            || is_some (select (λ _. true) (w.db.allergy_acks.at v)))) [
              | inr n ↦ inl (rw (e, n) refl)
              | inl y ↦ elim (Result-cases (serve documented now r v staff (others w)).0) [
                | inl (x, f) ↦ inr (rw (e, y, f) refl)
                | inr (x, f) ↦ inl (rw (e, y, f) refl)
              ]
            ]
    ]

    pub food_out-Apart :
        (now : Instant) (v staff : Key) (w : World)
        → Apart q w (mark_food_out documented others now r v staff w).1
    food_out-Apart now v staff w = elim (food_out_settles now v staff w) [
      | inl e ↦ Apart-same q w _ e
      | inr e ↦
          Apart-trans q w (others w) _ (others_apart w)
            (subst (Apart q (others w)) (sym e) (serve-Apart now v staff (others w)))
    ]

    module _ (now : Instant) (v : Key) (reason : Reason) (read : Visit) where
      targets_quiet :
          (t : TimingTargets) (w : World)
          → select (λ x. x.restaurant_id == r && is_confirmed x.status) ((others w).db.visits.at v)
            ≡ none
          → (write_targets documented others now r v reason read (some t) w).1 ≡ others w
      unfolding write_targets
      targets_quiet t w e = elim (Option-cases ((others w).db.visits.at v)) [
        | inl f ↦ ground arith
        | inr (row, f) ↦ ground arith
      ]

      targets_written :
          (t : TimingTargets) (w : World) (row : Visit)
          → select (λ x. x.restaurant_id == r && is_confirmed x.status) ((others w).db.visits.at v)
            ≡ some row
          → write_targets documented others now r v reason read (some t) w
            ≡ (ok (applied t), (write_targets documented others now r v reason read (some t) w).1)
      unfolding write_targets
      targets_written t w row e = rw e refl

      targets_unaudited :
          (t : TimingTargets) (w : World) (row : Visit)
          → select (λ x. x.restaurant_id == r && is_confirmed x.status) ((others w).db.visits.at v)
            ≡ some row
          → (write_targets documented others now r v reason read (some t) w).1.db.status_events
            ≡ (others w).db.status_events
      unfolding write_targets
      targets_unaudited t w row e = rw e refl

      write_targets-Apart :
          (t : Option TimingTargets) (w : World)
          → Apart q w (write_targets documented others now r v reason read t w).1
      unfolding write_targets
      write_targets-Apart none w = Apart-same q w w refl
      write_targets-Apart (some t) w =
          Apart-trans q w (others w) _ (others_apart w)
            (elim (Option-cases (
              select (λ x. x.restaurant_id == r && is_confirmed x.status)
                ((others w).db.visits.at v))) [
                  | inl e ↦ Apart-same q (others w) _ (ap (λ o. o.db) (targets_quiet t w e))
                  | inr (row, e) ↦
                      let (same, x, found, still, left, else_, rest, told) =
                        write_targets-applied others now r v reason w _ read t t
                          (targets_written t w row e) in
                      row_Apart (others w) _ v x (targeted_row now t x) found left
                        (visit_at_here r v (others w) x found) else_ rest
                        (ap (keep (λ x. x.restaurant_id == q)) (targets_unaudited t w row e))
                ])

    compute_and_write-Apart :
        (now : Instant) (v : Key) (reason : Reason) (read : Visit) (o : Option Restaurant)
        (w : World)
        → Apart q w (compute_and_write documented others now r v reason read o w).1
    compute_and_write-Apart now v reason read none w = Apart-same q w w refl
    compute_and_write-Apart now v reason read (some place) w =
        elim (Bool-cases (is_confirmed read.status)) [
          | inl y ↦ rw y (write_targets-Apart now v reason read _ w)
          | inr n ↦ rw n (Apart-same q w w refl)
        ]

    recompute_targets-Apart :
        (now : Instant) (v : Key) (reason : Reason) (w : World)
        → Apart q w (recompute_targets documented others now r v reason w).1
    unfolding recompute_targets
    recompute_targets-Apart now v reason w = elim (Option-cases (visit_at r v w)) [
      | inl e ↦ rw e (Apart-same q w w refl)
      | inr (row, e) ↦ rw e (compute_and_write-Apart now v reason row _ w)
    ]

    pub recompute-Apart :
        (now : Instant) (v : Key) (reason : Reason)
        → Isolates q (recompute documented others now r v reason)
    unfolding recompute
    recompute-Apart now v reason =
        Isolates-transaction q (recompute_targets documented others now r v reason)
          (recompute_targets-Apart now v reason)
