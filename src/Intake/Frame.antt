-- ===== src/Intake/Frame.antt =====
-- What a tool call can reach: the draft that it is bound to, and its items.
use raise.Intake.Registry.{Schemas, execute_tool, ToolName, run_named, InputOf, run_parsed, handler}
use raise.Intake.Tools.{
  ToolExecutionContext, PartyDetails, own_item, NewItem, add_found, propose_found, write_party,
  write_party_at, set_party, item_row, created_item, changed_item, is_int, fits_column, or_overflow,
}
use raise.Prelude.{
  Option, ◌≡◌, refl, true, ◌==◌, Option-cases, inl, arith, inr, some, String, none, Bool-cases,
  Bool, false,
}
use raise.Schema.{Visit, VisitStatus, Instant, VisitItem, Table, MenuItem}
use raise.World.{World, update_visits, for_restaurant, Result-cases, M}
use raise.Store.{Key, Rows, documented, discard, Client, IsDocumented, client-eq}
use mathlib.Core.Option
use raise.Intake.Tools.{
  list_available_menu_items, get_menu_item_details, list_open_tables, set_party_details,
  add_order_item, update_order_item, remove_order_item, propose_table,
}

-- What a tool never changes in its own visit.
abbrev pub settled : Visit → Key × VisitStatus × Option Key × Option Instant
settled v = (v.restaurant_id, v.status, v.customer_id, v.arrival_confirmed_at)

abbrev items_else : Key → Option VisitItem → Option VisitItem
items_else v i = discard (λ j. j.visit_id == v) i

-- One write of a tool that is bound to visit `v`.
pub record OwnWrite (v : Key) (w w' : World) : Type 0 where
  pub visits_else : (i : Key) → (v ≡ i → ⊥) → w'.db.visits.at i ≡ w.db.visits.at i
  pub settled_kept : Option.map settled (w'.db.visits.at v) ≡ Option.map settled (w.db.visits.at v)
  pub items_else_kept :
      (i : Key) → items_else v (w'.db.visit_items.at i) ≡ items_else v (w.db.visit_items.at i)
  -- Everything but the visits and the items is as it was: tables, menu, audit, events, texts.
  pub rest_kept :
      record w' { db = record (w'.db) { visits = w.db.visits; visit_items = w.db.visit_items } } ≡ w

-- What is done while tools run: their own writes, and what other requests commit between.
pub data OwnSteps (others : World → World) (v : Key) : World → World → Type 0 where
  done : {w : World} → OwnSteps others v w w
  waited : {w w' : World} → OwnSteps others v (others w) w' → OwnSteps others v w w'
  wrote : {w m w' : World} → OwnWrite v w m → OwnSteps others v m w' → OwnSteps others v w w'

pub OwnSteps-trans :
    {others : World → World} {v : Key} {w m w' : World}
    → OwnSteps others v w m
    → OwnSteps others v m w'
    → OwnSteps others v w w'
OwnSteps-trans done t = t
OwnSteps-trans (waited s) t = waited (OwnSteps-trans s t)
OwnSteps-trans (wrote p s) t = wrote p (OwnSteps-trans s t)

visits-OwnWrite :
    (r v : Key) (change_row : Visit → Visit) (w : World)
    → ((row : Visit) → settled (change_row row) ≡ settled row)
    → OwnWrite v w (update_visits documented r v (λ row. true) change_row w).1
visits-OwnWrite r v change_row w same = elim (Option-cases (w.db.visits.at v)) [
  | inl e ↦ record {
    visits_else = λ i n. ground arith;
    settled_kept = ground arith;
    items_else_kept = λ i. refl;
    rest_kept = refl;
  }
  | inr (row, e) ↦
      let s = same row in
      record {
        visits_else = λ i n. ground arith;
        settled_kept = ground arith;
        items_else_kept = λ i. refl;
        rest_kept = refl;
      }
]

items-OwnWrite :
    (v : Key) (rows : Rows VisitItem) (w : World)
    → ((i : Key) → items_else v (rows.at i) ≡ items_else v (w.db.visit_items.at i))
    → OwnWrite v w (record w { db = record (w.db) { visit_items = rows } })
items-OwnWrite v rows w same = record {
  visits_else = λ i n. refl;
  settled_kept = refl;
  items_else_kept = same;
  rest_kept = refl;
}

create-items_else :
    (v : Key) (t : Rows VisitItem) (x : VisitItem) (rows : Rows VisitItem)
    → x.visit_id ≡ v
    → documented.create t x.id x ≡ some rows
    → (i : Key) → items_else v (rows.at i) ≡ items_else v (t.at i)
create-items_else v t x rows own h i = elim (Option-cases (t.at x.id)) [
  | inl e ↦ ground arith
  | inr (y, e) ↦ absurd (ground arith)
]

module _ (ctx : ToolExecutionContext) where
  open ctx use {restaurant_id, visit_id, now, others, new_id}

  change-items_else :
      (id : Key) (change_row : VisitItem → VisitItem) (t : Rows VisitItem)
      → ((x : VisitItem) → (change_row x).visit_id ≡ x.visit_id)
      → (i : Key)
      → items_else visit_id
          ((documented.update_many t id (own_item documented ctx) change_row).1.at i)
        ≡ items_else visit_id (t.at i)
  change-items_else id change_row t same i = elim (Option-cases (t.at id)) [
    | inl e ↦ ground arith
    | inr (x, e) ↦ let s = same x in ground arith
  ]

  delete-items_else :
      (id : Key) (t : Rows VisitItem) (i : Key)
      → items_else visit_id ((documented.delete_many t id (own_item documented ctx)).1.at i)
        ≡ items_else visit_id (t.at i)
  delete-items_else id t i = elim (Option-cases (t.at id)) [
    | inl e ↦ ground arith
    | inr (x, e) ↦ ground arith
  ]

  overflow-steps :
      {A : Type 0} (b : Bool) (m : M A) (w : World)
      → OwnSteps others visit_id w (m w).1
      → OwnSteps others visit_id w (or_overflow b m w).1
  overflow-steps true m w s = s
  overflow-steps false m w s = done

  create-steps :
      (x : VisitItem) (m : MenuItem) (w : World) (o : Option (Rows VisitItem))
      → x.visit_id ≡ visit_id
      → documented.create w.db.visit_items x.id x ≡ o
      → OwnSteps others visit_id w (for_restaurant (λ w. created_item documented ctx x m w o) w).1
  create-steps x m w none own e = done
  create-steps x m w (some rows) own e =
      wrote
        (items-OwnWrite visit_id rows w (create-items_else visit_id w.db.visit_items x rows own e))
        done

  add_found-steps :
      (input : NewItem) (o : Option MenuItem) (w : World)
      → OwnSteps others visit_id w (add_found documented ctx input o w).1
  add_found-steps input none w = done
  add_found-steps input (some m) w = waited (
      overflow-steps (is_int input.quantity) _ (others w)
        (create-steps (item_row ctx input m (new_id (others w))) m (others w) _ refl refl))

  propose_found-steps :
      (o : Option Table) (w : World)
      → OwnSteps others visit_id w (propose_found documented ctx o w).1
  propose_found-steps none w = done
  propose_found-steps (some t) w =
      waited (wrote (visits-OwnWrite restaurant_id visit_id _ (others w) (λ row. refl)) done)

  party-steps :
      (input : PartyDetails) (eta : Option Instant) (w : World)
      → OwnSteps others visit_id w (write_party documented ctx input eta w).1
  party-steps input eta w = elim (Bool-cases (fits_column input.party_size)) [
    | inl e ↦ rw e (wrote (visits-OwnWrite restaurant_id visit_id _ w (λ row. refl)) done)
    | inr e ↦ rw e done
  ]

  party_at-steps :
      (input : PartyDetails) (eta : Option Instant) (w : World)
      → OwnSteps others visit_id w (write_party_at documented ctx input eta w).1
  party_at-steps input none w = done
  party_at-steps input (some eta) w = party-steps input (some eta) w

  set_party-steps :
      (input : PartyDetails) (o : Option String) (w : World)
      → OwnSteps others visit_id w (set_party documented ctx input o w).1
  set_party-steps input none w = party-steps input none w
  set_party-steps input (some text) w = party_at-steps input _ w

  handler-steps :
      (tool : ToolName) (input : InputOf tool) (w : World)
      → OwnSteps others visit_id w (handler documented ctx tool input w).1
  unfolding list_available_menu_items get_menu_item_details list_open_tables set_party_details
      add_order_item update_order_item remove_order_item propose_table
  handler-steps ToolName.list_available_menu_items input w = done
  handler-steps ToolName.get_menu_item_details input w = done
  handler-steps ToolName.list_open_tables input w = overflow-steps (is_int input) _ w done
  handler-steps ToolName.set_party_details input w = set_party-steps input input.arrival_eta w
  handler-steps ToolName.add_order_item input w = add_found-steps input _ w
  handler-steps ToolName.update_order_item input w =
      elim (Bool-cases (fits_column input.quantity)) [
        | inl e ↦ rw e (
            wrote
              (items-OwnWrite visit_id _ w (
                change-items_else input.visit_item_id (changed_item input) w.db.visit_items
                  (λ x. refl)))
              done)
        | inr e ↦ rw e done
      ]
  handler-steps ToolName.remove_order_item input w =
      wrote (items-OwnWrite visit_id _ w (delete-items_else input w.db.visit_items)) done
  handler-steps ToolName.propose_table input w = propose_found-steps _ w

module _ {Raw : Type 0} (schemas : Schemas Raw) (ctx : ToolExecutionContext) where
  open ctx use {visit_id, others}

  parsed-steps :
      (name : String) (tool : ToolName) (input : Raw) (o : Option (InputOf tool)) (w : World)
      → OwnSteps others visit_id w (run_parsed documented schemas ctx name tool input o w).1
  parsed-steps name tool input none w = done
  parsed-steps name tool input (some data_in) w =
      elim (Result-cases (handler documented ctx tool data_in w).0) [
        | inl (x, e) ↦ rw e (handler-steps ctx tool data_in w)
        | inr (f, e) ↦ rw e (handler-steps ctx tool data_in w)
      ]

  named-steps :
      (name : String) (input : Raw) (o : Option ToolName) (w : World)
      → OwnSteps others visit_id w (run_named documented schemas ctx name input o w).1
  named-steps name input none w = done
  named-steps name input (some tool) w = parsed-steps name tool input _ w

  execute_documented :
      (name : String) (input : Raw) (w : World)
      → OwnSteps others visit_id w (execute_tool documented schemas ctx name input w).1
  unfolding execute_tool
  execute_documented name input w = named-steps name input _ w

-- Whatever the dialogue engine asks for, a tool call reaches the draft it is bound to and nothing
-- else: every write on the way keeps every other visit, the items of every other visit, the status,
-- the restaurant, the customer and the confirmation of its own visit, and all other tables; what else
-- changes is what other requests commit.
pub execute_tool-OwnSteps :
    {Raw : Type 0} (c : Client)
    → IsDocumented c
    → (schemas : Schemas Raw) (ctx : ToolExecutionContext) (name : String) (input : Raw) (w : World)
    → OwnSteps ctx.others ctx.visit_id w (execute_tool c schemas ctx name input w).1
execute_tool-OwnSteps c l = rw (client-eq c l) execute_documented
