-- ===== src/Dashboard/Entries.antt =====
-- The loaded list against the database, entry by entry.
use raise.Visits.Retabled.{some_inj}
use raise.Schema.{
  Visit, Table, VisitStatus, confirmed, kitchen_started, table_set, guest_arrived, food_out, draft,
  completed, cancelled, no_show,
}
use raise.Visits.{to_item_dto}
use raise.Dashboard.{DashboardVisitDto, to_visit_dto, is_listed, is_inbound, list_inbound_visits}
use raise.Dashboard.Listing.{shown, find_dto, Rearranges, IsKeyed, list_inbound_visits-Shows}
use raise.Store.{Key, Client, IsDocumented, documented, documented-IsDocumented, client-eq, select}
use raise.World.{World, lines_of}
use mathlib.Core.Path.{subst}
use raise.Prelude.{
  Option, none, some, List, map, ◌≡◌, refl, sym, Option-cases, inl, inr, arith, true, ◌∙◌,
}

-- A visit that the restaurant waits for or has at a table.
pub data Inbound : VisitStatus → Type 0 where
  is_confirmed : Inbound confirmed
  is_started : Inbound kitchen_started
  is_set : Inbound table_set
  has_arrived : Inbound guest_arrived
  has_food : Inbound food_out

-- What the entry of a visit says.
pub record Entry (c : Client) (r : Key) (w : World) (i : Key) (d : DashboardVisitDto) : Type 0 where
  pub visit : Visit
  pub table_key : Key
  pub table : Table
  pub row : w.db.visits.at i ≡ some visit
  pub own : visit.restaurant_id ≡ r
  pub inbound : Inbound visit.status
  pub seated : visit.table_id ≡ some table_key
  pub table_row : w.db.tables.at table_key ≡ some table
  pub id : d.id ≡ visit.id
  pub status : d.status ≡ visit.status
  pub party : d.party_size ≡ visit.party_size
  pub arrival : visit.arrival_eta ≡ some d.arrival_eta
  pub at_table : d.table ≡ record { id = table.id; label = table.label }
  pub order : d.items ≡ map to_item_dto (lines_of c visit.id w)
  pub start : d.kitchen_start_target ≡ visit.kitchen_start_target
  pub out : d.food_out_target ≡ visit.food_out_target

pub data Listed (c : Client) (r : Key) (w : World) (i : Key)
    : Option DashboardVisitDto → Type 0 where
  listed : (d : DashboardVisitDto) → Entry c r w i d → Listed c r w i (some d)
  absent : ¬ ((d : DashboardVisitDto) × Entry c r w i d) → Listed c r w i none

inbound_test : (s : VisitStatus) → Inbound s → is_inbound s ≡ true
inbound_test _ is_confirmed = refl
inbound_test _ is_started = refl
inbound_test _ is_set = refl
inbound_test _ has_arrived = refl
inbound_test _ has_food = refl

inbound_of_test : (s : VisitStatus) → is_inbound s ≡ true → Inbound s
inbound_of_test confirmed h = is_confirmed
inbound_of_test kitchen_started h = is_started
inbound_of_test table_set h = is_set
inbound_of_test guest_arrived h = has_arrived
inbound_of_test food_out h = has_food
inbound_of_test draft h = absurd (ground arith)
inbound_of_test completed h = absurd (ground arith)
inbound_of_test cancelled h = absurd (ground arith)
inbound_of_test no_show h = absurd (ground arith)

module _ (r : Key) (w : World) (i : Key) where
  Entry-selected :
      (d : DashboardVisitDto) (e : Entry documented r w i d)
      → select (is_listed r) (w.db.visits.at i) ≡ some e.visit
  Entry-selected d e =
      let row = e.row in
      let own = e.own in
      let seated = e.seated in let inbound = inbound_test e.visit.status e.inbound in ground arith

  Entry-told :
      (d : DashboardVisitDto) (e : Entry documented r w i d)
      → (x : DashboardVisitDto) × (to_visit_dto documented w e.visit ≡ some x)
  unfolding to_visit_dto
  Entry-told d e =
      let arrival = e.arrival in
      let seated = e.seated in
      let there = e.table_row in
      elim (Option-cases (to_visit_dto documented w e.visit)) [
        | inl n ↦ absurd (ground arith)
        | inr p ↦ p
      ]

  told-Entry :
      (v : Visit) (d : DashboardVisitDto)
      → select (is_listed r) (w.db.visits.at i) ≡ some v
      → to_visit_dto documented w v ≡ some d
      → Entry documented r w i d
  unfolding to_visit_dto
  told-Entry v d at_i told = elim (Option-cases v.arrival_eta) [
    | inl n ↦ absurd (ground arith)
    | inr (eta, a) ↦ elim (Option-cases v.table_id) [
      | inl n ↦ absurd (ground arith)
      | inr (k, t) ↦ elim (Option-cases (w.db.tables.at k)) [
        | inl n ↦ absurd (ground arith)
        | inr (table, q) ↦ record {
          visit = v;
          table_key = k;
          table = table;
          row = ground arith;
          own = ground arith;
          inbound = inbound_of_test v.status (ground arith);
          seated = t;
          table_row = q;
          id = ground arith;
          status = ground arith;
          party = ground arith;
          arrival = ground arith;
          at_table = ground arith;
          order = ground arith;
          start = ground arith;
          out = ground arith;
        }
      ]
    ]
  ]

  shown-Listed : Listed documented r w i (shown documented r w i)
  unfolding shown
  shown-Listed = elim (Option-cases (select (is_listed r) (w.db.visits.at i))) [
    | inl n ↦ rw n (absent λ (d, e). let there = Entry-selected d e in absurd (ground arith))
    | inr (v, at_i) ↦ elim (Option-cases (to_visit_dto documented w v)) [
      | inl n ↦ rw at_i (
          rw n (
            absent λ (d, e).
              let same = some_inj (sym at_i ∙ Entry-selected d e) in
              let (x, told) = Entry-told d e in
              let untold = subst (λ y. to_visit_dto documented w y ≡ none) same n in
              absurd (ground arith)))
      | inr (d, told) ↦ rw at_i (rw told (listed d (told-Entry v d at_i told)))
    ]
  ]

-- The list that the dashboard loads, looked up by an identifier, gives an entry exactly if that visit is
-- the restaurant's, is inbound, has an arrival time and a table of the database. The entry then has the
-- visit's own status, party, arrival time and two targets, its order lines, and that table's label. This
-- holds if each visit stands at its own identifier and ORDER BY only rearranges.
pub list_inbound_visits-Listed :
    (c : Client)
    → IsDocumented c
    → (order_by : List Visit → List Visit) → Rearranges order_by
    → (r : Key) (w : World) → IsKeyed w
    → (ds : List DashboardVisitDto) → list_inbound_visits c order_by r w ≡ some ds
    → (i : Key) → Listed c r w i (find_dto i ds)
list_inbound_visits-Listed c l = rw (client-eq c l) λ order_by rearranges r w keyed ds loaded i.
    subst (Listed documented r w i)
      (sym (
        list_inbound_visits-Shows documented documented-IsDocumented order_by rearranges r w keyed
          ds loaded i))
      (shown-Listed r w i)
