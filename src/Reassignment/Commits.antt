-- ===== src/Reassignment/Commits.antt =====
-- A reassignment that `reassignTable` reports as done has moved the visit, and nothing else.
use raise.Visits.Stages.{visit_at}
use raise.Reassignment.Outcomes.{
  reassign_tx_only_db, tx_eq, reassign_move-committed, reassign_move-refused,
}
use raise.Reassignment.Moves.{
  Moved, tx_tables, tx_visits, moved_row, tx_visit_found, tx_table_found,
}
use raise.Reassignment.{reassign_tx, ReassignTableResponse, reassign_move, reassign, is_active}
use raise.Schema.{Instant, Table, Visit, free, visit_table_reassigned, held, is_held}
use raise.Store.{Client, Key, IsDocumented, documented, client-eq, change}
use raise.World.{World, ok, Result-cases}
use mathlib.Core.Path.{subst}
use raise.Prelude.{
  ◌≡◌, some, Option-cases, Bool-cases, inl, inr, arith, true, false, ◌==◌, ◌++◌, ◌∷◌, [], ap, ◌∙◌,
  sym, ◌&&◌,
}

module _ (now : Instant) (r v old new staff : Key) (m w1 : World)
    (h : reassign_tx documented now r v old new m ≡ (ok tt, w1)) where
  tx_visit_left :
      (visit : Visit)
      → m.db.visits.at v ≡ some visit
      → visit.restaurant_id ≡ r
      → visit.table_id ≡ some old
      → is_active visit.status ≡ true
      → w1.db.visits.at v ≡ some (moved_row now new visit)
  tx_visit_left visit e here t a =
      ap (λ rows. rows.at v) (tx_visits now r v old new m w1 h) ∙ ground arith

  tx_visits_else : (i : Key) → (v ≡ i → ⊥) → w1.db.visits.at i ≡ m.db.visits.at i
  tx_visits_else i n = ap (λ rows. rows.at i) (tx_visits now r v old new m w1 h) ∙ ground arith

  tx_new_left :
      (table : Table)
      → m.db.tables.at new ≡ some table
      → table.restaurant_id ≡ r
      → table.status ≡ free
      → (old ≡ new → ⊥)
      → w1.db.tables.at new ≡ some (record table { status = held })
  tx_new_left table e here f n =
      ap (λ rows. rows.at new) (tx_tables now r v old new m w1 h) ∙ ground arith

  tx_tables_else : (i : Key) → (old ≡ i → ⊥) → (new ≡ i → ⊥) → w1.db.tables.at i ≡ m.db.tables.at i
  tx_tables_else i n k = ap (λ rows. rows.at i) (tx_tables now r v old new m w1 h) ∙ ground arith

  tx_old_left :
      (old ≡ new → ⊥)
      → w1.db.tables.at old
        ≡ change
            (λ t. t.restaurant_id == r && is_held t.status)
            (λ t. record t { status = free })
            (m.db.tables.at old)
  tx_old_left n = ap (λ rows. rows.at old) (tx_tables now r v old new m w1 h) ∙ ground arith

  pub tx_Moved :
      (old ≡ new → ⊥)
      → record w1 { db = m.db } ≡ m
      → Moved now r v old new staff m
          (record w1 { emitted = w1.emitted ++ visit_table_reassigned r v old new staff ∷ [] })
  tx_Moved n silent =
      let (visit, e, here, t, a) = tx_visit_found now r v old new m w1 h in
      let (table, f, at_r, free_) = tx_table_found now r v old new m w1 h in
      record {
        visit = visit;
        visit_found = e;
        visit_here = here;
        was_at_old = t;
        was_active = a;
        table = table;
        table_found = f;
        table_here = at_r;
        was_free = free_;
        visit_left = tx_visit_left visit e here t a;
        visits_else = tx_visits_else;
        new_left = tx_new_left table f at_r free_ n;
        tables_else = tx_tables_else;
        old_left = tx_old_left n;
        told = ap (λ x. x.emitted ++ visit_table_reassigned r v old new staff ∷ []) silent;
      }

module _ (others : World → World) (now : Instant) (r v new staff : Key) (w w' : World)
    (x : ReassignTableResponse) where
  reassign_moves :
      reassign documented others now r v new staff w ≡ (ok x, w')
      → x.already_assigned ≡ false
      → (old : Key) × (old ≡ new → ⊥)
        × (reassign_move documented others now r v old new staff w ≡ (ok x, w'))
  unfolding reassign
  reassign_moves h fresh = elim (Option-cases (visit_at r v w)) [
    | inl e ↦ absurd (ground arith)
    | inr (row, e) ↦ elim (Bool-cases (is_active row.status)) [
      | inr a ↦ absurd (ground arith)
      | inl a ↦ elim (Option-cases row.table_id) [
        | inl t ↦ absurd (ground arith)
        | inr (old, t) ↦ elim (Bool-cases (old == new)) [
          | inl same ↦ absurd (ground arith)
          | inr differ ↦ (old, (λ s. ground arith), ground arith)
        ]
      ]
    ]
  ]

  move_committed :
      (old : Key)
      → (old ≡ new → ⊥)
      → reassign_move documented others now r v old new staff w ≡ (ok x, w')
      → Moved now r v old new staff (others w) w'
  move_committed old n h =
      let silent = reassign_tx_only_db now r v old new (others w) in
      elim (Result-cases (reassign_tx documented now r v old new (others w)).0) [
        | inl (u, e) ↦
            let q = tx_eq (reassign_tx documented now r v old new (others w)) (ok u) e in
            let c = reassign_move-committed others now r v new staff w old _ q in
            let same : w' ≡ _ = ap (λ o. o.1) (sym h ∙ c) in
            subst (Moved now r v old new staff (others w)) (sym same)
              (tx_Moved now r v old new staff (others w) _ q n silent)
        | inr (g, e) ↦
            let (q, m) =
              reassign_move-refused others now r v new staff w old g _ (tx_eq _ _ e) silent in
            absurd (ground arith)
      ]

reassigned_documented :
    (others : World → World) (now : Instant) (r v new staff : Key) (w w' : World)
    (x : ReassignTableResponse)
    → reassign documented others now r v new staff w ≡ (ok x, w')
    → x.already_assigned ≡ false
    → (old : Key) × Moved now r v old new staff (others w) w'
reassigned_documented others now r v new staff w w' x h fresh =
    let (old, n, m) = reassign_moves others now r v new staff w w' x h fresh in
    (old, move_committed others now r v new staff w w' x old n m)

-- A reassignment that is reported as new found the visit, at its write, active and at its old table,
-- and the new table free, both of the restaurant. It leaves the visit at the new table, which is held,
-- every other visit as it was, every table but the two as it was, and one event more, whatever other
-- requests commit between its read and its transaction.
pub reassign-Moved :
    (c : Client)
    → IsDocumented c
    → (others : World → World) (now : Instant) (r v new staff : Key) (w w' : World)
      (x : ReassignTableResponse)
    → reassign c others now r v new staff w ≡ (ok x, w')
    → x.already_assigned ≡ false
    → (old : Key) × Moved now r v old new staff (others w) w'
reassign-Moved c l = rw (client-eq c l) reassigned_documented
