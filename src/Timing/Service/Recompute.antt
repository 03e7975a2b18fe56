-- ===== src/Timing/Service/Recompute.antt =====
-- Recomputing targets: what a write needs, and what a stale request cannot do.
use raise.World.{SameButVisits}
use raise.Schema.{confirmed, visit_timing_recomputed, eta_changed, is_confirmed}
use raise.Prelude.{
  ◌≡◌, arith, ◌++◌, none, ◌∷◌, [], Option-cases, inl, ◌≢◌, inr, Bool-cases, refl, ◌∙◌, ap, ◌==◌,
  ◌&&◌,
}
use raise.Store.{documented, Client, IsDocumented, client-eq}
use raise.Timing.Service.{
  recompute, recompute_targets, recompute_for_eta_change, write_targets, applied, rejected, Instant,
  World, Key, TimingTargets, Visit, Reason, Restaurant, some, Option, ok, targets_of, lines_of,
  stale_update, eq_ℤ,
}
use raise.Visits.Stages.{visit_at, visit_at_here}

abbrev pub targeted_row : Instant → TimingTargets → Visit → Visit
targeted_row now t v = record v {
  kitchen_start_target = some t.kitchen_start_target;
  food_out_target = some t.food_out_target;
  updated_at = now;
}

-- What an applied recompute read in `w`, found again in `m`, the world at the write, and left in `w'`.
pub record Retargeted (now : Instant) (r v : Key) (reason : Reason) (t : TimingTargets)
    (w m w' : World) : Type 0 where
  pub read : Visit
  pub place : Restaurant
  pub read_found : visit_at r v w ≡ some read
  pub place_found : w.db.restaurants.at read.restaurant_id ≡ some place
  pub computed : targets_of read (lines_of documented read.id w) place ≡ some t
  pub row : Visit
  pub row_found : visit_at r v m ≡ some row
  pub still_confirmed : row.status ≡ confirmed
  pub left : w'.db.visits.at v ≡ some (targeted_row now t row)
  pub visits_else : (i : Key) → (v ≡ i → ⊥) → w'.db.visits.at i ≡ m.db.visits.at i
  pub rest_kept : SameButVisits m w'
  pub told :
      w'.emitted
      ≡ m.emitted
        ++ visit_timing_recomputed r v t.kitchen_start_target t.food_out_target
            read.kitchen_start_target reason
          ∷ []

module _ (meanwhile : World → World) (now : Instant) (r v : Key) (reason : Reason)
    (w w' : World) where
  pub write_targets-applied :
      (read : Visit) (t t' : TimingTargets)
      → write_targets documented meanwhile now r v reason read (some t) w ≡ (ok (applied t'), w')
      → (t ≡ t')
        × (row : Visit) × (visit_at r v (meanwhile w) ≡ some row)
        × (row.status ≡ confirmed)
        × (w'.db.visits.at v ≡ some (targeted_row now t' row))
        × ((i : Key) → (v ≡ i → ⊥) → w'.db.visits.at i ≡ (meanwhile w).db.visits.at i)
        × SameButVisits (meanwhile w) w'
        × (w'.emitted
            ≡ (meanwhile w).emitted
              ++ visit_timing_recomputed r v t'.kitchen_start_target t'.food_out_target
                  read.kitchen_start_target reason
                ∷ [])
  unfolding write_targets
  write_targets-applied read t t' h = elim (Option-cases ((meanwhile w).db.visits.at v)) [
    | inl e ↦ ground arith
    | inr (row, e) ↦ (
      ground arith,
      row,
      ground arith,
      ground arith,
      ground arith,
      λ i n. ground arith,
      ground arith,
      ground arith,
    )
  ]

  write_none :
      (t : TimingTargets) (read : Visit)
      → write_targets documented meanwhile now r v reason read none w ≡ (ok (applied t), w')
      → ⊥
  unfolding write_targets
  write_none t read h = cc

  reaches_write :
      (t : TimingTargets) (read : Visit) (place : Restaurant)
      → visit_at r v w ≡ some read
      → w.db.restaurants.at read.restaurant_id ≡ some place
      → recompute_targets documented meanwhile now r v reason w ≡ (ok (applied t), w')
      → write_targets documented meanwhile now r v reason read
          (targets_of read (lines_of documented read.id w) place)
          w
        ≡ (ok (applied t), w')
  unfolding recompute_targets
  reaches_write t read place e f h = ground arith

  from_read :
      (t : TimingTargets) (read : Visit) (place : Restaurant)
      → visit_at r v w ≡ some read
      → w.db.restaurants.at read.restaurant_id ≡ some place
      → write_targets documented meanwhile now r v reason read
          (targets_of read (lines_of documented read.id w) place)
          w
        ≡ (ok (applied t), w')
      → (computed : Option TimingTargets)
      → targets_of read (lines_of documented read.id w) place ≡ computed
      → Retargeted now r v reason t w (meanwhile w) w'
  from_read t read place e f h none c = absurd (write_none t read (rw c at h))
  from_read t read place e f h (some t0) c =
      let (same, row, found, confirmed_still, left, else_, rest, told) =
        write_targets-applied read t0 t (rw c at h) in
      record {
        read = read;
        place = place;
        read_found = e;
        place_found = f;
        computed = c ∙ ap some same;
        row = row;
        row_found = found;
        still_confirmed = confirmed_still;
        left = left;
        visits_else = else_;
        rest_kept = rest;
        told = told;
      }

  recompute_targets-applied :
      (t : TimingTargets)
      → recompute_targets documented meanwhile now r v reason w ≡ (ok (applied t), w')
      → Retargeted now r v reason t w (meanwhile w) w'
  unfolding recompute_targets
  recompute_targets-applied t h = elim (Option-cases (visit_at r v w)) [
    | inl e ↦ ground arith
    | inr (read, e) ↦ elim (Option-cases (w.db.restaurants.at read.restaurant_id)) [
      | inl f ↦ ground arith
      | inr (place, f) ↦ from_read t read place e f (reaches_write t read place e f h) _ refl
    ]
  ]

in_transaction :
    (meanwhile : World → World) (now : Instant) (r v : Key) (reason : Reason) (w w' : World)
    (t : TimingTargets)
    → recompute documented meanwhile now r v reason w ≡ (ok (applied t), w')
    → recompute_targets documented meanwhile now r v reason w ≡ (ok (applied t), w')
unfolding recompute
in_transaction meanwhile now r v reason w w' t h = ground arith

recompute-applied_documented :
    (meanwhile : World → World) (now : Instant) (r v : Key) (reason : Reason) (w w' : World)
    (t : TimingTargets)
    → recompute documented meanwhile now r v reason w ≡ (ok (applied t), w')
    → Retargeted now r v reason t w (meanwhile w) w'
recompute-applied_documented meanwhile now r v reason w w' t h =
    recompute_targets-applied meanwhile now r v reason w w' t
      (in_transaction meanwhile now r v reason w w' t h)

-- An applied recompute found the visit confirmed at the moment of its write, not only when it was
-- read, computed from what was read, changed the two targets of that visit and no other visit, and
-- emitted one event, with the target that the read saw before.
pub recompute-Retargeted :
    (c : Client)
    → IsDocumented c
    → (meanwhile : World → World) (now : Instant) (r v : Key) (reason : Reason) (w w' : World)
      (t : TimingTargets)
    → recompute c meanwhile now r v reason w ≡ (ok (applied t), w')
    → Retargeted now r v reason t w (meanwhile w) w'
recompute-Retargeted c l = rw (client-eq c l) recompute-applied_documented

-- The first update has moved `updatedAt`, so the token that both callers read fits no more.
stale_documented :
    (meanwhile : World → World) (later : Instant) (r v : Key) (eta expected : Instant) (w : World)
    (row : Visit)
    → visit_at r v w ≡ some row
    → row.status ≡ confirmed
    → row.updated_at ≢ expected
    → recompute_for_eta_change documented meanwhile later r v eta expected w
      ≡ (ok (rejected stale_update), w)
unfolding recompute_for_eta_change
stale_documented meanwhile later r v eta expected w row e s n =
    elim (Bool-cases (eq_ℤ row.updated_at expected)) [
      | inl y ↦ absurd (n (ground arith))
      | inr y ↦ ground arith
    ]

eta_reaches_recompute :
    (meanwhile : World → World) (now : Instant) (r v : Key) (eta expected : Instant) (w w' : World)
    (t : TimingTargets)
    → recompute_for_eta_change documented meanwhile now r v eta expected w ≡ (ok (applied t), w')
    → (w0 : World) × (recompute_targets documented meanwhile now r v eta_changed w0
        ≡ (ok (applied t), w'))
unfolding recompute_for_eta_change
eta_reaches_recompute meanwhile now r v eta expected w w' t h =
    elim (Option-cases (w.db.visits.at v)) [
      | inl e ↦ absurd (ground arith)
      | inr (row, e) ↦ (
        record w {
          db = record (w.db) {
            visits =
                (documented.update_many w.db.visits v
                  (λ x.
                    x.restaurant_id == r && (is_confirmed x.status && eq_ℤ x.updated_at expected))
                  (λ x. record x { arrival_eta = some eta; updated_at = now })).1;
          };
        },
        ground arith,
      )
    ]

row_here :
    (now : Instant) (r v : Key) (t : TimingTargets) (row : Visit) (w : World)
    → row.restaurant_id ≡ r
    → w.db.visits.at v ≡ some (targeted_row now t row)
    → visit_at r v w ≡ some (targeted_row now t row)
row_here now r v t row w here left = ground arith

eta_race_documented :
    (first second : World → World) (now later : Instant) (r v : Key) (eta1 eta2 expected : Instant)
    (w w' : World) (t : TimingTargets)
    → now ≢ expected
    → recompute_for_eta_change documented first now r v eta1 expected w ≡ (ok (applied t), w')
    → recompute_for_eta_change documented second later r v eta2 expected w'
      ≡ (ok (rejected stale_update), w')
eta_race_documented first second now later r v eta1 eta2 expected w w' t n h =
    let (w0, reached) = eta_reaches_recompute first now r v eta1 expected w w' t h in
    let done = recompute_targets-applied first now r v eta_changed w0 w' t reached in
    stale_documented second later r v eta2 expected w' (targeted_row now t done.row)
      (row_here now r v t done.row w' (visit_at_here r v (first w0) done.row done.row_found)
        done.left)
      done.still_confirmed n

-- Two ETA changes that were read at the same `updatedAt`: once the first is applied, at an instant
-- other than that one, the second is refused as stale and writes nothing.
recompute_for_eta_change_race :
    (c : Client)
    → IsDocumented c
    → (first second : World → World) (now later : Instant) (r v : Key)
      (eta1 eta2 expected : Instant) (w w' : World) (t : TimingTargets)
    → now ≢ expected
    → recompute_for_eta_change c first now r v eta1 expected w ≡ (ok (applied t), w')
    → recompute_for_eta_change c second later r v eta2 expected w'
      ≡ (ok (rejected stale_update), w')
recompute_for_eta_change_race c l = rw (client-eq c l) eta_race_documented
