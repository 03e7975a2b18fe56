-- ===== src/Dashboard.antt =====
-- apps/api/src/dashboard/dashboard.service.ts: the lists that the dashboard loads over HTTP.
use raise.World.{World, lines_of, table_of}
use raise.Visits.{VisitItemDto, to_item_dto}
use raise.Kitchen.{is_some}
use raise.Store.{Key, Client}
use raise.Schema.{
  Visit, VisitStatus, Table, Instant, confirmed, kitchen_started, table_set, guest_arrived,
  food_out, TableStatus,
}
use raise.Prelude.{Option, none, some, List, [], ◌∷◌, Bool, true, false, map, ◌==◌, ◌&&◌, ℕ, String}
pub mod Listing
pub mod Entries
pub mod Live
pub mod Socket

pub record DashboardTableDto : Type 0 where
  pub id : Key
  pub label : String

pub record DashboardVisitDto : Type 0 where
  pub id : Key
  pub status : VisitStatus
  pub party_size : Option ℕ  -- `visit.partySize!` is not checked at run time
  pub arrival_eta : Instant
  pub table : DashboardTableDto
  pub items : List VisitItemDto
  pub kitchen_start_target : Option Instant
  pub food_out_target : Option Instant

pub record DashboardTableSummaryDto : Type 0 where
  pub id : Key
  pub label : String
  pub seats_min : ℕ
  pub seats_max : ℕ
  pub status : TableStatus

abbrev to_table_summary : Table → DashboardTableSummaryDto
to_table_summary t = record {
  id = t.id;
  label = t.label;
  seats_min = t.seats_min;
  seats_max = t.seats_max;
  status = t.status;
}

-- INBOUND_STATUSES
abbrev pub is_inbound : VisitStatus → Bool
is_inbound confirmed = true
is_inbound kitchen_started = true
is_inbound table_set = true
is_inbound guest_arrived = true
is_inbound food_out = true
is_inbound _ = false

-- The `where` of the list.
abbrev pub is_listed : Key → Visit → Bool
is_listed r v = v.restaurant_id == r && (is_inbound v.status && is_some v.table_id)

-- A missing arrival time or table is a `TypeError`.
abbrev dto_from :
    Visit → List VisitItemDto → Option Instant → Option Table → Option DashboardVisitDto
dto_from v items none t = none
dto_from v items (some eta) none = none
dto_from v items (some eta) (some t) = some (record {
  id = v.id;
  status = v.status;
  party_size = v.party_size;
  arrival_eta = eta;
  table = record { id = t.id; label = t.label };
  items = items;
  kitchen_start_target = v.kitchen_start_target;
  food_out_target = v.food_out_target;
})

abbrev both {ℓ} : {A : Type ℓ} → Option A → Option (List A) → Option (List A)
both none ls = none
both (some a) none = none
both (some a) (some ls) = some (a ∷ ls)

-- `visits.map`, whose function may throw.
unfoldable pub collect :
    (Visit → Option DashboardVisitDto) → List Visit → Option (List DashboardVisitDto)
collect f [] = some []
collect f (v ∷ vs) = both (f v) (collect f vs)

module _ (c : Client) where
  unfoldable pub to_visit_dto : World → Visit → Option DashboardVisitDto
  to_visit_dto w v =
      dto_from v (map to_item_dto (lines_of c v.id w)) v.arrival_eta
        (table_of c v.table_id w.db.tables)

  -- `order_by` is the database's ORDER BY arrival_eta ASC; `none` is the error.
  unfoldable pub list_inbound_visits :
      (List Visit → List Visit) → Key → World → Option (List DashboardVisitDto)
  list_inbound_visits order_by r w =
      collect (to_visit_dto w) (order_by (c.find_many w.db.visits (is_listed r)))

  -- `order_by` is ORDER BY label ASC.
  unfoldable pub list_tables :
      (List Table → List Table) → Key → World → List DashboardTableSummaryDto
  list_tables order_by r w =
      map to_table_summary (order_by (c.find_many w.db.tables (λ t. t.restaurant_id == r)))
