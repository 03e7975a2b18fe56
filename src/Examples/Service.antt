-- ===== src/Examples/Service.antt =====
-- The timing service and the kitchen at concrete worlds.
use raise.Kitchen.Acks.{AckAnswer, acknowledge_allergies-AckAnswer}
use raise.Kitchen.Queue.{to_ticket-allergy_flags}
use raise.Timing.Engine.Targets.{compute_timing_targets-formula}
use raise.Visits.Stages.{visit_at}
use raise.Timing.Service.Accept.{accept_answer, Started, accept_kitchen_start-branches}
use raise.Store.{documented, documented-IsDocumented}
use raise.Schema.{dairy, initial, finite, kitchen_started}
use raise.World.{ok, World, items_of, err, internal_error}
use raise.Prelude.{ℤ, pos, false, Any, ◌∷◌, ◌≡◌, [], some, All, ◌≤ℤ◌, any, refl, ◌+ℤ◌, ◌*ℤ◌, ◌-ℤ◌}
use raise.Timing.Service.{
  accept_kitchen_start, recompute_for_eta_change, recompute, recompute_targets, accepted_at,
  write_targets, targets_of, applied,
}
use raise.Timing.Service.Recompute.{Retargeted, recompute-Retargeted}
use raise.Kitchen.Gate.{Served, mark_food_out-Served}
use raise.Timing.Engine.{
  compute_timing_targets, TimingTargets, RestaurantTimingSettings, minutes_of,
}
use raise.Kitchen.{
  AcknowledgeResult, has_tag, mark_food_out, acknowledge_allergies, to_ticket, served_now, serve,
  food_out_gate,
}
use raise.Examples.{evening, now, eta, blank_visit, later}

run : Unit {0}
unfolding compute_timing_targets recompute recompute_targets write_targets targets_of
    recompute_for_eta_change accept_kitchen_start mark_food_out serve food_out_gate
    acknowledge_allergies ◌+ℤ◌ ◌-ℤ◌ ◌*ℤ◌
run = tt

abbrev settings : RestaurantTimingSettings
settings = record { avg_prep_buffer_minutes = pos 5; expo_buffer_minutes = pos 8 }

abbrev targets : TimingTargets
targets = record { kitchen_start_target = pos 1002100000; food_out_target = pos 1003780000 }

engine_runs :
    compute_timing_targets eta (finite (pos 20) ∷ finite (pos 12) ∷ []) settings ≡ some targets
unfolding run
engine_runs = refl

compute_timing_targets-formula_example :
    (longest : ℤ) × Any (λ m. minutes_of m ≡ longest) (finite (pos 20) ∷ finite (pos 12) ∷ [])
    × All (λ m. minutes_of m ≤ℤ longest) (finite (pos 20) ∷ finite (pos 12) ∷ [])
    × (pos 1002100000 +ℤ (longest +ℤ pos 5) *ℤ pos 60000 ≡ eta)
    × (pos 1003780000 ≡ eta +ℤ (pos 8 -ℤ pos 5) *ℤ pos 60000)
compute_timing_targets-formula_example =
    compute_timing_targets-formula eta (finite (pos 20) ∷ finite (pos 12) ∷ []) settings targets
      engine_runs

abbrev accepted : World
accepted = (accept_kitchen_start documented now 1 12 40 evening).1

accept_runs : accept_kitchen_start documented now 1 12 40 evening ≡ (ok (accepted_at now), accepted)
unfolding run
accept_runs = refl

accept_kitchen_start-branches_example :
    (ok (accepted_at now) ≡ accept_answer now (visit_at 1 12 evening))
    × ((ok (accepted_at now) ≡ ok (accepted_at now)) → Started now 1 12 40 evening accepted)
    × (((ok (accepted_at now) ≡ ok (accepted_at now)) → ⊥) → accepted ≡ evening)
accept_kitchen_start-branches_example =
    accept_kitchen_start-branches documented documented-IsDocumented now 1 12 40 evening accepted
      (ok (accepted_at now)) accept_runs

abbrev still : World → World
still w = w

abbrev retargeted : World
retargeted = (recompute documented still now 1 12 initial evening).1

recompute_runs :
    recompute documented still now 1 12 initial evening ≡ (ok (applied targets), retargeted)
unfolding run
recompute_runs = refl

recompute-Retargeted_example : Retargeted now 1 12 initial targets evening evening retargeted
recompute-Retargeted_example =
    recompute-Retargeted documented documented-IsDocumented still now 1 12 initial evening
      retargeted targets recompute_runs

abbrev eta_moved : World
eta_moved = (recompute_for_eta_change documented still now 1 12 eta (pos 500) evening).1

eta_runs :
    recompute_for_eta_change documented still now 1 12 eta (pos 500) evening
    ≡ (ok (applied targets), eta_moved)
unfolding run
eta_runs = refl

abbrev out : World
out = (mark_food_out documented still now 1 14 40 evening).1

serve_runs : mark_food_out documented still now 1 14 40 evening ≡ (ok (served_now now), out)
unfolding run
serve_runs = refl

mark_food_out-Served_example : Served now 1 14 40 evening evening out
mark_food_out-Served_example =
    mark_food_out-Served documented documented-IsDocumented still now now 1 14 40 evening out
      serve_runs

abbrev seen : World
seen = (acknowledge_allergies documented still now 1 13 40 evening).1

abbrev fresh_ack : AcknowledgeResult
fresh_ack = record { acknowledged_at = now; already_acknowledged = false }

acknowledge_runs : acknowledge_allergies documented still now 1 13 40 evening ≡ (ok fresh_ack, seen)
unfolding run
acknowledge_runs = refl

-- A cook at the other pass acknowledges between the read and the insert.
abbrev overtaking : World → World
overtaking w = (acknowledge_allergies documented still later 1 13 41 w).1

acknowledge_allergies-AckAnswer_example :
    AckAnswer now 1 13 40 evening
      (overtaking evening)
      (acknowledge_allergies documented overtaking now 1 13 40 evening).1
      (acknowledge_allergies documented overtaking now 1 13 40 evening).0
acknowledge_allergies-AckAnswer_example =
    acknowledge_allergies-AckAnswer documented documented-IsDocumented overtaking now 1 13 40
      evening

overtaken_fails :
    (acknowledge_allergies documented overtaking now 1 13 40 evening).0 ≡ err internal_error
unfolding acknowledge_allergies ◌+ℤ◌ ◌-ℤ◌ ◌*ℤ◌
overtaken_fails = refl

to_ticket-allergy_flags_example :
    has_tag dairy (to_ticket documented evening (blank_visit 13 kitchen_started)).allergy_flags
    ≡ any (λ i. has_tag dairy i.allergy_flags) (items_of documented 13 evening)
to_ticket-allergy_flags_example =
    to_ticket-allergy_flags documented evening (blank_visit 13 kitchen_started) dairy
