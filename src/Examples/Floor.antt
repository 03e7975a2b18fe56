-- ===== src/Examples/Floor.antt =====
-- One evening on the floor: visit 10 is confirmed at table 5, its order is accepted, and it is moved
-- to table 6.
use raise.Schema.{free, draft}
use raise.Timing.Service.{accept_kitchen_start}
use raise.Floor.Exclusivity.{Reached-Exclusive}
use raise.Examples.{now, evening, rows, dining_table, blank_visit}
use raise.World.{World, ok}
use raise.Reassignment.{reassign_tx}
use raise.Floor.{Reached, Exclusive, seat, then_step, begun, confirms, accepts, moves}
use raise.Visits.{VisitWithItemsAndTable, confirm_tx}
use raise.Prelude.{◌≡◌, some, Bool-cases, ◌==◌, inl, inr, arith, refl, [], ◌∷◌}
use raise.Store.{documented, documented-IsDocumented, Key}

run : Unit {0}
unfolding confirm_tx reassign_tx accept_kitchen_start
run = tt

abbrev opening : World
opening = record evening {
  db = record (evening.db) {
    tables = rows ((5, dining_table 5 free) ∷ (6, dining_table 6 free) ∷ []);
    visits = rows ((10, blank_visit 10 draft) ∷ (11, blank_visit 11 draft) ∷ []);
  };
}

none_seated : (i t : Key) → seat opening i ≡ some t → ⊥
none_seated i t e = elim (Bool-cases (10 == i)) [
  | inl y ↦ ground arith
  | inr n ↦ elim (Bool-cases (11 == i)) [ inl y ↦ ground arith | inr m ↦ ground arith ]
]

opening-Exclusive : Exclusive opening
opening-Exclusive = record {
  taken = λ i t e. absurd (none_seated i t e);
  alone = λ i j t e f. absurd (none_seated i t e);
}

abbrev after_confirm : World
after_confirm = (confirm_tx documented now 1 10 7 (some 5) opening).1

confirmed_there :
    (x : VisitWithItemsAndTable) × (confirm_tx documented now 1 10 7 (some 5) opening
      ≡ (ok x, after_confirm))
unfolding run
confirmed_there = (_, refl)

abbrev after_accept : World
after_accept = (accept_kitchen_start documented now 1 10 40 after_confirm).1

abbrev after_move : World
after_move = (reassign_tx documented now 1 10 5 6 after_accept).1

moved : reassign_tx documented now 1 10 5 6 after_accept ≡ (ok tt, after_move)
unfolding run
moved = refl

ends_at_six : seat after_move 10 ≡ some 6
unfolding run
ends_at_six = refl

evening_runs : Reached documented opening after_move
evening_runs =
    then_step after_accept after_move
      (then_step after_confirm after_accept
        (then_step opening after_confirm begun (
          confirms now 1 10 7 5 confirmed_there.0 (blank_visit 10 draft) refl refl
            confirmed_there.1))
        (accepts now 1 10 40 _ refl))
      (moves now 1 10 5 6 (λ e. ground arith) moved)

Reached-Exclusive_example : Exclusive after_move
Reached-Exclusive_example =
    Reached-Exclusive documented documented-IsDocumented opening after_move opening-Exclusive
      evening_runs
