-- ===== src/Reassignment.antt =====
-- apps/api/src/dashboard/table-reassignment.service.ts
pub mod Outcomes
pub mod Moves
pub mod Commits
use raise.Visits.{claim_or}
use raise.Prelude.{Bool, Option, false, true, some, ◌==◌, if◌then◌else◌, not, ◌&&◌, none}
use raise.World.{
  Failure, World, M, ◌>>=◌, ◌>>◌, err, throw, update_tables, for_restaurant, catch,
  reassign_conflict, find_visit, visit_not_active, ReassignTableRejectionReason, elsewhere,
  stale_update, or_throw, emit, not_found, table_taken_error, ok, pure, stale_visit_table_error,
  update_visits,
}
use raise.Schema.{
  VisitStatus, Instant, confirmed, kitchen_started, is_free, table_set, held, guest_arrived,
  visit_table_reassigned, is_held, free,
}
use raise.Store.{Key, Client}

pub record ReassignTableResponse : Type 0 where
  pub visit_id : Key
  pub table_id : Key
  pub already_assigned : Bool

-- ACTIVE_STATUSES
abbrev pub is_active : VisitStatus → Bool
is_active confirmed = true
is_active kitchen_started = true
is_active table_set = true
is_active guest_arrived = true
is_active _ = false

abbrev pub is_at : Key → Option Key → Bool
is_at t none = false
is_at t (some u) = u == t

module _ (c : Client) where
  -- Claim the new table, move the visit if it is where it was read, release the old table.
  unfoldable pub reassign_tx : Instant → Key → Key → Key → Key → M (Unit {0})
  reassign_tx now restaurant_id visit_id previous_table_id new_table_id = do
    claimed ←
        update_tables c restaurant_id new_table_id (λ t. is_free t.status)
          λ t. record t { status = held }
    claim_or claimed table_taken_error
    moved ←
        update_visits c restaurant_id visit_id
          (λ v. is_at previous_table_id v.table_id && is_active v.status)
          λ v. record v {
            table_id = some new_table_id;
            table_assigned_at = some now;
            updated_at = now;
          }
    claim_or moved stale_visit_table_error
    update_tables c restaurant_id previous_table_id (λ t. is_held t.status)
        λ t. record t { status = free }
    pure tt

  -- The `catch`: the two errors of the transaction become conflicts.
  unfoldable pub reassign_recover : Failure → M (Unit {0})
  reassign_recover table_taken_error =
      throw (reassign_conflict ReassignTableRejectionReason.table_taken)
  reassign_recover stale_visit_table_error = throw (reassign_conflict stale_update)
  reassign_recover e = throw e

  unfoldable pub reassign_move :
      (World → World) → Instant → Key → Key → Key → Key → Key → M ReassignTableResponse
  reassign_move others now restaurant_id visit_id previous_table_id new_table_id staff_user_id = do
    catch
        (do
          elsewhere others
          for_restaurant (reassign_tx now restaurant_id visit_id previous_table_id new_table_id))
        reassign_recover
    emit
        (visit_table_reassigned restaurant_id visit_id previous_table_id new_table_id staff_user_id)
    pure (record { visit_id = visit_id; table_id = new_table_id; already_assigned = false })

  -- The table at which the visit was read.
  abbrev pub reassign_from :
      (World → World) → Instant → Key → Key → Key → Key → Option Key → M ReassignTableResponse
  reassign_from others now restaurant_id visit_id new_table_id staff_user_id none w =
      (err (reassign_conflict visit_not_active), w)
  reassign_from others now restaurant_id visit_id new_table_id staff_user_id (some previous) w =
      if previous == new_table_id
      then (
        ok (record { visit_id = visit_id; table_id = new_table_id; already_assigned = true }),
        w,
      )
      else reassign_move others now restaurant_id visit_id previous new_table_id staff_user_id w

  -- `others` is what other requests commit between the read and the transaction.
  unfoldable pub reassign :
      (World → World) → Instant → Key → Key → Key → Key → M ReassignTableResponse
  reassign others now restaurant_id visit_id new_table_id staff_user_id = do
    found ← for_restaurant (find_visit c restaurant_id visit_id)
    v ← or_throw found not_found
    if not (is_active v.status)
        then throw (reassign_conflict visit_not_active)
        else reassign_from others now restaurant_id visit_id new_table_id staff_user_id v.table_id
