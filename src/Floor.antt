-- ===== src/Floor.antt =====
-- The floor of the restaurants over every service that seats a guest: the confirmation of
-- apps/api/src/visits, the reassignment of apps/api/src/dashboard, the acceptance and the recompute of
-- apps/api/src/timing, the service of apps/api/src/kitchen and the tools of apps/api/src/intake, one
-- committed transaction at a time.
use raise.Intake.Frame.{OwnWrite}
use raise.Timing.Engine.{TimingTargets}
use raise.Kitchen.{mark_food_out, served_now}
use raise.Timing.Service.{KitchenAcceptResult, accept_kitchen_start, recompute, applied}
use raise.Reassignment.{reassign_tx}
use raise.Dashboard.{is_inbound}
use raise.Visits.{VisitWithItemsAndTable, confirm_tx}
use raise.World.{World, ok, Result}
use raise.Store.{Client, Key}
use raise.Schema.{Visit, Instant, Table, is_free, Reason}
use raise.Prelude.{Option, none, some, ◌≡◌, Bool, false, if◌then◌else◌}
pub mod Seats
pub mod Exclusivity

-- The table that a visit occupies: a draft only names one, and a finished visit has left it.
abbrev pub seat_of : Option Visit → Option Key
seat_of none = none
seat_of (some x) = if is_inbound x.status then x.table_id else none

abbrev pub seat : World → Key → Option Key
seat w i = seat_of (w.db.visits.at i)

-- No visit sits at a table that is free or missing, and no two visits sit at one table.
pub record Exclusive (w : World) : Type 0 where
  pub taken :
      (i t : Key)
      → seat w i ≡ some t
      → (row : Table) × (w.db.tables.at t ≡ some row) × (is_free row.status ≡ false)
  pub alone : (i j t : Key) → seat w i ≡ some t → seat w j ≡ some t → i ≡ j

-- The transactions that commit.
pub data Step (c : Client) (w w' : World) : Type 0 where
  -- `confirm`, whose claim meets the visit at the table that was read
  confirms :
      (now : Instant) (r v cust t : Key) (x : VisitWithItemsAndTable) (row : Visit)
      → w.db.visits.at v ≡ some row
      → row.table_id ≡ some t
      → confirm_tx c now r v cust (some t) w ≡ (ok x, w')
      → Step c w w'
  -- `reassign`, which answers at once when the tables are the same
  moves :
      (now : Instant) (r v old new : Key)
      → (old ≡ new → ⊥)
      → reassign_tx c now r v old new w ≡ (ok tt, w')
      → Step c w w'
  accepts :
      (now : Instant) (r v staff : Key) (answer : Result KitchenAcceptResult)
      → accept_kitchen_start c now r v staff w ≡ (answer, w')
      → Step c w w'
  -- `meanwhile read` is the world in which the handler writes
  serves :
      (meanwhile : World → World) (read : World) (now t : Instant) (r v staff : Key)
      → mark_food_out c meanwhile now r v staff read ≡ (ok (served_now t), w')
      → meanwhile read ≡ w
      → Step c w w'
  retargets :
      (meanwhile : World → World) (read : World) (now : Instant) (r v : Key) (reason : Reason)
      (t : TimingTargets)
      → recompute c meanwhile now r v reason read ≡ (ok (applied t), w')
      → meanwhile read ≡ w
      → Step c w w'
  -- a write of a tool, for a draft
  drafts : (v : Key) → seat w v ≡ none → seat w' v ≡ none → OwnWrite v w w' → Step c w w'

pub data Reached (c : Client) (start : World) : World → Type 0 where
  begun : Reached c start start
  then_step : (w w' : World) → Reached c start w → Step c w w' → Reached c start w'
