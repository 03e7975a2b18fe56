-- ===== src/Visits/Retabled.antt =====
-- What `confirm` leaves when the draft is given another table between its read and its transaction.
use raise.Visits.Claims.{confirmed_row}
use raise.Visits.Booking.{FreshlyConfirmed, confirm-FreshlyConfirmed}
use raise.Visits.Stages.{visit_at}
use raise.World.{World, ok}
use raise.Schema.{Instant, Visit, confirmed, Table, held}
use raise.Visits.{Others, ConfirmVisitResponse, confirm}
use raise.Store.{Key, Client, IsDocumented, documented, documented-IsDocumented, client-eq}
use mathlib.Core.Path.{subst}
use raise.Prelude.{refl, ◌≡◌, some, arith, sym, ◌∙◌, ap, false, refl}

pub some_inj : {A : Type 0} {a b : A} → some a ≡ some b → a ≡ b
some_inj h = ground arith

-- The visit is confirmed at one table, and another is held.
pub record Split (v other held_key : Key) (m w' : World) : Type 0 where
  pub visit : Visit
  pub confirmed_there : w'.db.visits.at v ≡ some visit
  pub is_confirmed_now : visit.status ≡ confirmed
  pub placed : visit.table_id ≡ some other
  pub table : Table
  pub taken : w'.db.tables.at held_key ≡ some table
  pub is_held_now : table.status ≡ held
  pub other_kept : w'.db.tables.at other ≡ m.db.tables.at other

module _ (others : Others) (now : Instant) (r v cust : Key) (w w' : World)
    (x : ConfirmVisitResponse) (read row : Visit) (other t : Key) where
  retabled_documented :
      visit_at r v w ≡ some read
      → read.table_id ≡ some t
      → (others.before_claim w).db.visits.at v ≡ some row
      → row.table_id ≡ some other
      → (t ≡ other → ⊥)
      → FreshlyConfirmed documented others now r v cust w w' x.visit
      → Split v other t (others.before_claim w) w'
  retabled_documented found at_t later at_other differ f =
      let claimed = f.claimed in
      let db_kept : w'.db ≡ f.committed.db = ap (λ o. o.db) f.told in
      let read_same : f.read ≡ read = some_inj (sym f.read_found ∙ found) in
      let key_same : claimed.table_key ≡ t =
        some_inj (sym claimed.named ∙ ap (λ o. o.table_id) read_same ∙ at_t) in
      let row_same : claimed.visit ≡ row = some_inj (sym claimed.visit_found ∙ later) in
      record {
        visit = confirmed_row now cust claimed.visit;
        confirmed_there = ap (λ d. d.visits.at v) db_kept ∙ claimed.visit_left;
        is_confirmed_now = refl;
        placed = ap (λ o. o.table_id) row_same ∙ at_other;
        table = record claimed.table { status = held };
        taken =
            ap (λ d. d.tables.at t) db_kept
            ∙ (ap f.committed.db.tables.at (sym key_same) ∙ claimed.table_left);
        is_held_now = refl;
        other_kept =
            ap (λ d. d.tables.at other) db_kept
            ∙ claimed.tables_else other (λ e. differ (sym key_same ∙ e));
      }

-- If the draft was read with one table and has another when the transaction of `confirm` begins, a
-- confirmation that is reported as new leaves the visit confirmed at the other table, whose row is as
-- it was, and holds the table that was read.
pub confirm-Split :
    (c : Client)
    → IsDocumented c
    → (others : Others) (now : Instant) (r v cust : Key) (w w' : World) (x : ConfirmVisitResponse)
      (read row : Visit) (other t : Key)
    → confirm c others now r v cust w ≡ (ok x, w')
    → x.already_confirmed ≡ false
    → visit_at r v w ≡ some read
    → read.table_id ≡ some t
    → (others.before_claim w).db.visits.at v ≡ some row
    → row.table_id ≡ some other
    → (t ≡ other → ⊥)
    → Split v other t (others.before_claim w) w'
confirm-Split c l others now r v cust w w' x read row other t h fresh found at_t later at_other
      differ =
    retabled_documented others now r v cust w w' x read row other t found at_t later at_other differ
      (confirm-FreshlyConfirmed documented documented-IsDocumented others now r v cust w w' x
        (subst (λ d. confirm d others now r v cust w ≡ (ok x, w')) (client-eq c l) h) fresh)
