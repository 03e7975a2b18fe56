-- ===== src/Reassignment/Moves.antt =====
-- What a committed reassignment found, and what it left.
use raise.Prelude.{
  some, ◌≡◌, Option-cases, true, inl, inr, arith, ◌++◌, ◌==◌, ◌∷◌, ◌&&◌, [], Bool, Option, none,
  refl,
}
use raise.World.{World, ok}
use raise.Schema.{held, Instant, Visit, Table, free, is_held, visit_table_reassigned, is_free}
use raise.Store.{Key, documented, Rows, change, select}
use raise.Reassignment.{reassign_tx, is_active, is_at}

abbrev pub moved_row : Instant → Key → Visit → Visit
moved_row now t v = record v { table_id = some t; table_assigned_at = some now; updated_at = now }

-- `m` is the world that the transaction meets, `w'` the one that the request leaves.
pub record Moved (now : Instant) (r v old new staff : Key) (m w' : World) : Type 0 where
  pub visit : Visit
  pub visit_found : m.db.visits.at v ≡ some visit
  pub visit_here : visit.restaurant_id ≡ r
  pub was_at_old : visit.table_id ≡ some old
  pub was_active : is_active visit.status ≡ true
  pub table : Table
  pub table_found : m.db.tables.at new ≡ some table
  pub table_here : table.restaurant_id ≡ r
  pub was_free : table.status ≡ free
  pub visit_left : w'.db.visits.at v ≡ some (moved_row now new visit)
  pub visits_else : (i : Key) → (v ≡ i → ⊥) → w'.db.visits.at i ≡ m.db.visits.at i
  pub new_left : w'.db.tables.at new ≡ some (record table { status = held })
  pub tables_else : (i : Key) → (old ≡ i → ⊥) → (new ≡ i → ⊥) → w'.db.tables.at i ≡ m.db.tables.at i
  pub old_left :
      w'.db.tables.at old
      ≡ change
          (λ t. t.restaurant_id == r && is_held t.status)
          (λ t. record t { status = free })
          (m.db.tables.at old)
  pub told : w'.emitted ≡ m.emitted ++ visit_table_reassigned r v old new staff ∷ []

abbrev visits_after : Instant → Key → Key → Key → Key → Rows Visit → Rows Visit
visits_after now r v old new rows =
    (documented.update_many rows v
      (λ x. x.restaurant_id == r && (is_at old x.table_id && is_active x.status))
      (moved_row now new)).1

abbrev tables_after : Key → Key → Key → Rows Table → Rows Table
tables_after r old new rows =
    (documented.update_many
      (documented.update_many rows new (λ t. t.restaurant_id == r && is_free t.status)
        λ t. record t { status = held }).1
      old (λ t. t.restaurant_id == r && is_held t.status) λ t. record t { status = free }).1

-- The condition on the visit.
abbrev is_movable : Key → Key → Visit → Bool
is_movable r old x = x.restaurant_id == r && (is_at old x.table_id && is_active x.status)

movable_found :
    (r old : Key) (o : Option Visit) (visit : Visit)
    → select (is_movable r old) o ≡ some visit
    → (found : Visit) × (o ≡ some found)
      × (found.restaurant_id ≡ r)
      × (found.table_id ≡ some old)
      × (is_active found.status ≡ true)
movable_found r old none visit f = absurd (ground arith)
movable_found r old (some x) visit f = elim (Option-cases x.table_id) [
  | inl t ↦ absurd (ground arith)
  | inr (t, e) ↦ (x, refl, ground arith, ground arith, ground arith)
]

module _ (now : Instant) (r v old new : Key) (w w' : World)
    (h : reassign_tx documented now r v old new w ≡ (ok tt, w')) where
  pub tx_table_found :
      (table : Table) × (w.db.tables.at new ≡ some table)
      × (table.restaurant_id ≡ r)
      × (table.status ≡ free)
  unfolding reassign_tx
  tx_table_found = elim (Option-cases (w.db.tables.at new)) [
    | inl f ↦ absurd (ground arith)
    | inr (table, f) ↦ (table, f, ground arith, ground arith)
  ]

  tx_visit_selected : (visit : Visit) × (select (is_movable r old) (w.db.visits.at v) ≡ some visit)
  unfolding reassign_tx
  tx_visit_selected = elim (Option-cases (select (is_movable r old) (w.db.visits.at v))) [
    | inl f ↦ let (table, e, here, is_free_) = tx_table_found in absurd (ground arith)
    | inr (visit, f) ↦ (visit, f)
  ]

  pub tx_visit_found :
      (visit : Visit) × (w.db.visits.at v ≡ some visit)
      × (visit.restaurant_id ≡ r)
      × (visit.table_id ≡ some old)
      × (is_active visit.status ≡ true)
  tx_visit_found =
      let (visit, f) = tx_visit_selected in movable_found r old (w.db.visits.at v) visit f

  pub tx_visits : w'.db.visits ≡ visits_after now r v old new w.db.visits
  unfolding reassign_tx
  tx_visits = ground arith

  pub tx_tables : w'.db.tables ≡ tables_after r old new w.db.tables
  unfolding reassign_tx
  tx_tables = ground arith

  pub tx_rest : w'.db ≡ record (w.db) { visits = w'.db.visits; tables = w'.db.tables }
  unfolding reassign_tx
  tx_rest = ground arith
