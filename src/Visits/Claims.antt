-- ===== src/Visits/Claims.antt =====
-- The confirm transaction: what a commit found and what it wrote.
use raise.Prelude.{Option, none, some, ◌≡◌, refl, arith, ◌++◌, ◌∷◌, [], Option-cases}
use raise.Prelude.{inl, inr}
use raise.Store.{Key, documented}
use raise.Schema.{
  Instant, Visit, Table, VisitStatusEvent, draft, confirmed, free, held, customer_actor,
  explicit_confirm_endpoint,
}
use raise.World.{World, ok}
use raise.Visits.{confirm_tx, VisitWithItemsAndTable, with_items_and_table}

abbrev pub confirmed_row : Instant → Key → Visit → Visit
confirmed_row now customer_id v = record v {
  status = confirmed;
  arrival_confirmed_at = some now;
  customer_id = some customer_id;
  table_assigned_at = some now;
  updated_at = now;
}

abbrev confirmed_event : Instant → Key → Key → Key → VisitStatusEvent
confirmed_event now restaurant_id visit_id customer_id = record {
  restaurant_id = restaurant_id;
  visit_id = visit_id;
  status = confirmed;
  occurred_at = now;
  actor_type = customer_actor;
  actor_id = customer_id;
  mechanism = explicit_confirm_endpoint;
}

-- What a committed confirmation found, and left.
pub record Claimed (now : Instant) (restaurant_id visit_id customer_id : Key)
    (table_id : Option Key) (w w' : World) : Type 0 where
  pub visit : Visit
  pub table : Table
  pub table_key : Key
  pub named : table_id ≡ some table_key
  pub visit_found : w.db.visits.at visit_id ≡ some visit
  pub visit_here : visit.restaurant_id ≡ restaurant_id
  pub was_draft : visit.status ≡ draft
  pub table_found : w.db.tables.at table_key ≡ some table
  pub table_here : table.restaurant_id ≡ restaurant_id
  pub was_free : table.status ≡ free
  pub visit_left : w'.db.visits.at visit_id ≡ some (confirmed_row now customer_id visit)
  pub visits_else : (i : Key) → (visit_id ≡ i → ⊥) → w'.db.visits.at i ≡ w.db.visits.at i
  pub table_left : w'.db.tables.at table_key ≡ some (record table { status = held })
  pub tables_else : (i : Key) → (table_key ≡ i → ⊥) → w'.db.tables.at i ≡ w.db.tables.at i
  pub audited :
      w'.db.status_events
      ≡ w.db.status_events ++ confirmed_event now restaurant_id visit_id customer_id ∷ []
  pub silent : w'.emitted ≡ w.emitted

pub confirm_tx-Claimed :
    (now : Instant) (restaurant_id visit_id customer_id : Key) (table_id : Option Key)
    (w w' : World) (x : VisitWithItemsAndTable)
    → confirm_tx documented now restaurant_id visit_id customer_id table_id w ≡ (ok x, w')
    → Claimed now restaurant_id visit_id customer_id table_id w w'
unfolding confirm_tx
confirm_tx-Claimed now r v cust none w w' x h = elim (Option-cases (w.db.visits.at v)) [
  | inl e ↦ ground arith
  | inr (row, e) ↦ ground arith
]
confirm_tx-Claimed now r v cust (some t) w w' x h = elim (Option-cases (w.db.visits.at v)) [
  | inl e ↦ ground arith
  | inr (row, e) ↦ elim (Option-cases (w.db.tables.at t)) [
    | inl f ↦ ground arith
    | inr (table, f) ↦ record {
      visit = row;
      table = table;
      table_key = t;
      named = refl;
      visit_found = e;
      visit_here = ground arith;
      was_draft = ground arith;
      table_found = f;
      table_here = ground arith;
      was_free = ground arith;
      visit_left = ground arith;
      visits_else = λ i n. ground arith;
      table_left = ground arith;
      tables_else = λ i n. ground arith;
      audited = ground arith;
      silent = ground arith;
    }
  ]
]

-- The transaction returns the row that it left.
pub confirm_tx-read_back :
    (now : Instant) (restaurant_id visit_id customer_id : Key) (table_id : Option Key)
    (w w' : World) (x : VisitWithItemsAndTable)
    → confirm_tx documented now restaurant_id visit_id customer_id table_id w ≡ (ok x, w')
    → (row : Visit) → w.db.visits.at visit_id ≡ some row
    → x ≡ with_items_and_table documented (confirmed_row now customer_id row) w'
unfolding confirm_tx
confirm_tx-read_back now r v cust none w w' x h row e = ground arith
confirm_tx-read_back now r v cust (some t) w w' x h row e = elim (Option-cases (w.db.tables.at t)) [
  | inl f ↦ ground arith
  | inr (table, f) ↦ ground arith
]
