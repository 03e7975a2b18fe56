-- ===== src/Examples.antt =====
-- A restaurant with two tables, a dish, and visits in four states; the examples below it apply the
-- theorems at these worlds.
mod Auth
mod Login
mod Booking
mod Service
mod Socket
mod Http
mod Drafts
mod Floor
mod Dashboard
mod Turns
mod Intake
mod Notifications
mod Realtime
mod Reassignment
mod Panel
mod Chat
use raise.World.{World}
use raise.Store.{Key, Rows, put}
use raise.Prelude.{List, pos, ◌∷◌, none, [], true, some, false}
use raise.Schema.{
  StaffRole, StaffMembership, MenuItem, Instant, Restaurant, TableStatus, AllergenTag, VisitStatus,
  number, dairy, Visit, finite, VisitItem, Table, free, held, draft, confirmed, kitchen_started,
}
use raise.Visits.{Others}

abbrev pub now : Instant
now = pos 1000000000

abbrev pub later : Instant
later = pos 1000060000

abbrev pub eta : Instant
eta = pos 1003600000

abbrev pub blank_visit : Key → VisitStatus → Visit
blank_visit i s = record {
  id = i;
  restaurant_id = 1;
  customer_id = none;
  party_size = some 2;
  has_child = false;
  special_needs = [];
  arrival_eta = some eta;
  arrival_confirmed_at = none;
  table_id = some 5;
  table_assigned_at = none;
  kitchen_start_target = none;
  food_out_target = none;
  draft_expires_at = none;
  status = s;
  updated_at = pos 500;
}

abbrev pub rows : {R : Type 0} → List (Key × R) → Rows R
rows [] = record { keys = []; at = λ i. none }
rows ((k, r) ∷ rs) = let t = rows rs in record { keys = k ∷ t.keys; at = put t.at k (some r) }

abbrev pub dining_table : Key → TableStatus → Table
dining_table i s = record {
  id = i;
  restaurant_id = 1;
  label = "T1";
  seats_min = 1;
  seats_max = 4;
  status = s;
  features = [];
}

abbrev pub restaurant : Restaurant
restaurant = record {
  id = 1;
  name = "Raise";
  timezone = "UTC";
  avg_prep_buffer_minutes = number (finite (pos 5));
  expo_buffer_minutes = number (finite (pos 8));
}

abbrev pub dish : MenuItem
dish = record {
  id = 3;
  restaurant_id = 1;
  name = "Dal";
  description = none;
  price = "9.50";
  prep_time_minutes = pos 20;
  category = "Main";
  allergens = dairy ∷ [];
  modifiable_options = [];
  available = true;
}

abbrev pub ordered : Key → Key → List AllergenTag → VisitItem
ordered i v flags = record {
  id = i;
  restaurant_id = 1;
  visit_id = v;
  menu_item_id = 3;
  quantity = 1;
  modifications = [];
  allergy_flags = flags;
}

-- Visits 10 and 11 are drafts for table 5, visit 12 is confirmed, visits 13 and 14 are with the kitchen and
-- 13 carries an allergy flag.
abbrev pub evening : World
evening = record {
  db = record {
    restaurants = rows ((1, restaurant) ∷ []);
    customers = rows ((7, record { id = 7; phone = "+15550100" }) ∷ []);
    tables = rows ((5, dining_table 5 free) ∷ (6, dining_table 6 held) ∷ []);
    visits = rows (
        (10, blank_visit 10 draft)
        ∷ (11, blank_visit 11 draft)
        ∷ (12, blank_visit 12 confirmed)
        ∷ (13, blank_visit 13 kitchen_started)
        ∷ (14, blank_visit 14 kitchen_started)
        ∷ []);
    menu_items = rows ((3, dish) ∷ []);
    visit_items =
        rows
          ((20, ordered 20 10 []) ∷ (22, ordered 22 12 []) ∷ (23, ordered 23 13 (dairy ∷ [])) ∷ []);
    allergy_acks = rows [];
    status_events = [];
    conversation_turns = [];
    notification_logs = λ t. rows [];
    staff_memberships =
        λ r. rows ((6, record { user_id = 6; restaurant_id = r; role = StaffRole.kitchen }) ∷ []);
  };
  emitted = [];
  texted = [];
}

-- Nobody else is there.
abbrev pub alone : Others
alone = record { before_claim = λ w. w; before_reread = λ w. w }
