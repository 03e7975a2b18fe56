-- ===== src/Examples/Reassignment.antt =====
-- A reassignment to a table that someone else took first.
use raise.Reassignment.Commits.{reassign-Moved}
use raise.Reassignment.Moves.{Moved}
use raise.Examples.{evening, now, dining_table, rows}
use raise.World.{err, World, reassign_conflict, ReassignTableRejectionReason, ok}
use raise.Prelude.{◌≡◌, refl, ◌∷◌, [], false}
use raise.Schema.{held, free}
use raise.Store.{documented, documented-IsDocumented, Key}
use raise.Reassignment.{
  reassign, reassign_tx, reassign_move, reassign_recover, ReassignTableResponse,
}

abbrev crowded : World → World
crowded w = record w {
  db = record (w.db) { tables = rows ((5, dining_table 5 held) ∷ (6, dining_table 6 held) ∷ []) };
}

too_late :
    reassign documented crowded now 1 12 6 30 evening
    ≡ (err (reassign_conflict ReassignTableRejectionReason.table_taken), crowded evening)
unfolding reassign reassign_tx reassign_move reassign_recover
too_late = refl

-- Visit 12 moves from table 5, which is held for it, to table 6.
abbrev settled : World
settled = record evening {
  db = record (evening.db) {
    tables = rows ((5, dining_table 5 held) ∷ (6, dining_table 6 free) ∷ []);
  };
}

abbrev quiet : World → World
quiet w = w

abbrev moved_answer : ReassignTableResponse
moved_answer = record { visit_id = 12; table_id = 6; already_assigned = false }

abbrev moved_world : World
moved_world = (reassign documented quiet now 1 12 6 30 settled).1

moves : reassign documented quiet now 1 12 6 30 settled ≡ (ok moved_answer, moved_world)
unfolding reassign reassign_tx reassign_move reassign_recover
moves = refl

reassign-Moved_example : (old : Key) × Moved now 1 12 old 6 30 settled moved_world
reassign-Moved_example =
    reassign-Moved documented documented-IsDocumented quiet now 1 12 6 30 settled moved_world
      moved_answer moves refl
