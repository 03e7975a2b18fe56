-- ===== src/Examples/Booking.antt =====
-- `confirm` at concrete worlds.
use raise.Schema.{free, draft}
use raise.Visits.Retabled.{Split, confirm-Split}
use raise.Intake.Tools.{ToolExecutionContext}
use raise.Visits.Races.{confirm_race}
use raise.Intake.Tools.{propose_table}
use raise.Prelude.{some, false, ◌≡◌, [], ◌∷◌, true, refl, arith, none}
use raise.World.{World, ok, err, confirm_conflict, ConfirmRejectionReason}
use raise.Store.{documented, documented-IsDocumented}
use raise.Visits.NoTrace.{Untouched, confirm-Untouched}
use raise.Visits.Booking.{FreshlyConfirmed, confirm-FreshlyConfirmed}
use raise.Visits.{
  confirm, confirm_claim, confirm_recover, confirm_tx, confirm_checks, to_confirmed_dto,
  get_visit_or_throw, Others, ConfirmVisitResponse, ConfirmedVisitDto,
}
use raise.Examples.{evening, now, later, alone, eta, rows, dining_table, blank_visit}

run : Unit {0}
unfolding confirm confirm_claim confirm_recover confirm_tx confirm_checks to_confirmed_dto
    get_visit_or_throw
run = tt

abbrev pub booking : ConfirmedVisitDto
booking = record {
  id = 10;
  restaurant_id = 1;
  party_size = some 2;
  arrival_eta = eta;
  arrival_confirmed_at = now;
  table_id = 5;
  table_label = "T1";
  items =
      record {
        id = 20;
        menu_item_id = 3;
        name = "Dal";
        price = "9.50";
        quantity = 1;
        modifications = [];
        allergy_flags = [];
      }
      ∷ [];
}

abbrev pub answer : ConfirmVisitResponse
answer = record { visit = booking; already_confirmed = false }

abbrev booked : World
booked = (confirm documented alone now 1 10 7 evening).1

confirm_books : confirm documented alone now 1 10 7 evening ≡ (ok answer, booked)
unfolding run
confirm_books = refl

confirm-FreshlyConfirmed_example :
    FreshlyConfirmed documented alone now 1 10 7 evening booked booking
confirm-FreshlyConfirmed_example =
    confirm-FreshlyConfirmed documented documented-IsDocumented alone now 1 10 7 evening booked
      answer confirm_books refl

-- The second guest read the table as free, and claims it after the first.
abbrev beaten : Others
beaten = record { before_claim = λ w. booked; before_reread = λ w. w }

second_guest_refused :
    confirm documented beaten later 1 11 8 evening
    ≡ (err (confirm_conflict ConfirmRejectionReason.table_taken []), booked)
unfolding run
second_guest_refused = refl

confirm-Untouched_example : Untouched beaten evening booked
confirm-Untouched_example =
    confirm-Untouched documented documented-IsDocumented beaten later 1 11 8 evening booked
      (err (confirm_conflict ConfirmRejectionReason.table_taken [])) second_guest_refused (λ e. cc)

-- The same guest taps twice, and both requests read the draft.
confirm_double_tap :
    confirm documented beaten later 1 10 7 evening
    ≡ (ok (record answer { already_confirmed = true }), booked)
unfolding run
confirm_double_tap = refl

confirm_race_example : true ≡ true
confirm_race_example =
    confirm_race documented documented-IsDocumented alone beaten now later 1 10 10 7 7 evening
      booked evening booked answer (record answer { already_confirmed = true }) confirm_books refl
      confirm_double_tap refl refl

-- The dialogue proposes another table, which is free too, between the read and the transaction.
abbrev roomy : World
roomy = record evening {
  db = record (evening.db) {
    tables = rows ((5, dining_table 5 free) ∷ (6, dining_table 6 free) ∷ []);
  };
}

abbrev proposing : ToolExecutionContext
proposing = record {
  restaurant_id = 1;
  visit_id = 10;
  now = now;
  others = λ w. w;
  new_id = λ w. 90;
  order_menu = λ ms. ms;
  order_tables = λ ts. ts;
  parse_date = λ s. none;
}

abbrev meanwhile_proposed : Others
meanwhile_proposed = record {
  before_claim = λ w. (propose_table documented proposing 6 w).1;
  before_reread = λ w. w;
}

abbrev split_world : World
split_world = (confirm documented meanwhile_proposed now 1 10 7 roomy).1

abbrev split_booking : ConfirmedVisitDto
split_booking = record booking { table_id = 6 }

abbrev split_answer : ConfirmVisitResponse
split_answer = record { visit = split_booking; already_confirmed = false }

splits : confirm documented meanwhile_proposed now 1 10 7 roomy ≡ (ok split_answer, split_world)
unfolding run propose_table
splits = refl

moved_in :
    (propose_table documented proposing 6 roomy).1.db.visits.at 10
    ≡ some (record (blank_visit 10 draft) { table_id = some 6; updated_at = now })
unfolding propose_table
moved_in = refl

confirm-Split_example : Split 10 6 5 (propose_table documented proposing 6 roomy).1 split_world
confirm-Split_example =
    confirm-Split documented documented-IsDocumented meanwhile_proposed now 1 10 7 roomy split_world
      split_answer (blank_visit 10 draft)
      (record (blank_visit 10 draft) { table_id = some 6; updated_at = now }) 6 5 splits refl refl
      refl moved_in refl (λ e. ground arith)
