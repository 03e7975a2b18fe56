-- ===== src/Visits/Races.antt =====
-- Two requests: a repeat of the same one, and a race for the same table.
use raise.Visits.Claims.{confirmed_row}
use raise.Visits.Stages.{visit_at, confirm_present}
use mathlib.Core.Option
use raise.Visits.{
  Others, World, ConfirmVisitResponse, confirm, ok, confirm_checks, ConfirmedVisitDto,
  with_items_and_table, to_confirmed_dto, respond,
}
use raise.Prelude.{some, ◌≡◌, arith, false, true, ap, Bool-cases, inl, inr, ◌==◌, ◌∙◌}
use raise.Store.{Client, IsDocumented, Key, client-eq, documented, select, documented-IsDocumented}
use raise.Schema.{Table, held, free, Instant, Visit}
use raise.Visits.Booking.{FreshlyConfirmed, confirm-FreshlyConfirmed}

held_not_free :
    (t : Table) {u : Table} → some (record t { status = held }) ≡ some u → u.status ≡ free → ⊥
held_not_free t e f = ground arith

-- Two requests that read the same table cannot both report a new booking when the second claims in
-- the world that the first left: exactly one of two guests gets the table.
pub confirm_race :
    (c : Client)
    → IsDocumented c
    → (first second : Others) (now later : Instant) (r v1 v2 cust1 cust2 : Key)
      (w1 w1' w2 w2' : World) (x1 x2 : ConfirmVisitResponse)
    → confirm c first now r v1 cust1 w1 ≡ (ok x1, w1')
    → x1.already_confirmed ≡ false
    → confirm c second later r v2 cust2 w2 ≡ (ok x2, w2')
    → second.before_claim w2 ≡ w1'
    → Option.map (λ v. v.table_id) (visit_at r v1 w1)
      ≡ Option.map (λ v. v.table_id) (visit_at r v2 w2)
    → x2.already_confirmed ≡ true
confirm_race c l first second now later r v1 v2 cust1 cust2 w1 w1' w2 w2' x1 x2 h1 f1 h2 meets
      same =
    elim (Bool-cases x2.already_confirmed) [
      | inl e ↦ e
      | inr f2 ↦ absurd (
          clash (confirm-FreshlyConfirmed c l first now r v1 cust1 w1 w1' x1 h1 f1)
            (confirm-FreshlyConfirmed c l second later r v2 cust2 w2 w2' x2 h2 f2))
    ]
  where
    clash :
        FreshlyConfirmed c first now r v1 cust1 w1 w1' x1.visit
        → FreshlyConfirmed c second later r v2 cust2 w2 w2' x2.visit
        → ⊥
    clash a b =
        let key : a.claimed.table_key ≡ b.claimed.table_key =
          ground (arith, a.read_found, b.read_found, a.claimed.named, b.claimed.named, same) in
        let world : (second.before_claim w2).db ≡ a.committed.db = ground (arith, meets, a.told) in
        ground (
          arith,
          key,
          ap (λ d. d.tables.at b.claimed.table_key) world,
          a.claimed.table_left,
          b.claimed.table_found,
          b.claimed.was_free,
        )

here_again :
    (now : Instant) (cust r : Key) (row : Visit)
    → row.restaurant_id ≡ r
    → select (λ v. v.restaurant_id == r) (some (confirmed_row now cust row))
      ≡ some (confirmed_row now cust row)
here_again now cust r row e = ground arith

passes_again :
    (now : Instant) (cust : Key) (row : Visit) (w : World)
    → confirm_checks (with_items_and_table documented (confirmed_row now cust row) w) cust ≡ ok true
unfolding confirm_checks
passes_again now cust row w = ground arith

answers_again :
    (row : Visit) (w : World) (booking : ConfirmedVisitDto)
    → to_confirmed_dto (with_items_and_table documented row w) ≡ ok booking
    → respond documented (with_items_and_table documented row w) true w
      ≡ (ok (record { visit = booking; already_confirmed = true }), w)
answers_again row w booking e = rw e

confirm_repeat_documented :
    (first second : Others) (now later : Instant) (r v cust : Key) (w w' : World)
    (x : ConfirmVisitResponse)
    → confirm documented first now r v cust w ≡ (ok x, w')
    → x.already_confirmed ≡ false
    → confirm documented second later r v cust w' ≡ (ok (record x { already_confirmed = true }), w')
confirm_repeat_documented first second now later r v cust w w' x h fresh =
    let f =
      confirm-FreshlyConfirmed documented documented-IsDocumented first now r v cust w w' x h
        fresh in
    let row = confirmed_row now cust f.claimed.visit in
    let found : visit_at r v w' ≡ some row =
      rw f.told
        (rw f.claimed.visit_left (here_again now cust r f.claimed.visit f.claimed.visit_here)) in
    confirm_present second later r v cust w' row found
    ∙ rw (passes_again now cust f.claimed.visit w')
        (answers_again row w' x.visit (rw f.told f.answered))

-- A double tap: after a booking, the same customer's next `confirm` of that visit answers with the
-- same booking, flagged as there already, and changes nothing.
confirm_repeat :
    (c : Client)
    → IsDocumented c
    → (first second : Others) (now later : Instant) (r v cust : Key) (w w' : World)
      (x : ConfirmVisitResponse)
    → confirm c first now r v cust w ≡ (ok x, w')
    → x.already_confirmed ≡ false
    → confirm c second later r v cust w' ≡ (ok (record x { already_confirmed = true }), w')
confirm_repeat c l = rw (client-eq c l) confirm_repeat_documented
