-- ===== src/Intake/Grounding.antt =====
-- What an accepted order line rests on, and what a proposed table does not.
use raise.Prelude.{Option, ◌≡◌, some, none, true, arith, Option-cases, inl, inr, refl, Bool-cases}
use raise.Visits.{VisitItemDto}
use raise.World.{World, ok}
use raise.Schema.{Visit, Table, MenuItem, free}
use raise.Store.{Client, Key, IsDocumented, select, documented, client-eq}
use raise.Intake.Tools.{
  add_order_item, ToolExecutionContext, NewItem, on_menu, add_found, added, is_int,
}

pub record Grounded (ctx : ToolExecutionContext) (input : NewItem) (dto : VisitItemDto)
    (w w' : World) : Type 0 where
  pub dish : MenuItem
  pub on_the_menu : w.db.menu_items.at input.menu_item_id ≡ some dish
  pub of_the_restaurant : dish.restaurant_id ≡ ctx.restaurant_id
  pub is_available : dish.available ≡ true
  pub id : Key
  pub id_was_free : (ctx.others w).db.visit_items.at id ≡ none
  pub written :
      w'.db.visit_items.at id
      ≡ some (record {
        id = id;
        restaurant_id = ctx.restaurant_id;
        visit_id = ctx.visit_id;
        menu_item_id = dish.id;
        quantity = input.quantity;
        modifications = input.modifications;
        allergy_flags = input.allergy_flags;
      })
  pub answered : dto ≡ record {
    id = id;
    menu_item_id = dish.id;
    name = dish.name;
    price = dish.price;
    quantity = input.quantity;
    modifications = input.modifications;
    allergy_flags = input.allergy_flags;
  }
  pub items_kept :
      (i : Key) → (id ≡ i → ⊥) → w'.db.visit_items.at i ≡ (ctx.others w).db.visit_items.at i

module _ (ctx : ToolExecutionContext) (input : NewItem) (w : World) where
  open ctx use {others, new_id, restaurant_id, visit_id}

  found_inv :
      (dish : MenuItem) (dto : VisitItemDto) (w' : World)
      → select (on_menu restaurant_id) (w.db.menu_items.at input.menu_item_id) ≡ some dish
      → add_found documented ctx input (some dish) w ≡ (ok (added dto), w')
      → Grounded ctx input dto w w'
  found_inv dish dto w' e h = elim (Bool-cases (is_int input.quantity)) [
    | inr b ↦ absurd (ground arith)
    | inl b ↦ elim (Option-cases ((others w).db.visit_items.at (new_id (others w)))) [
      | inl f ↦ record {
        dish = dish;
        on_the_menu = ground arith;
        of_the_restaurant = ground arith;
        is_available = ground arith;
        id = new_id (others w);
        id_was_free = f;
        written = ground arith;
        answered = ground arith;
        items_kept = λ i n. ground arith;
      }
      | inr (x, f) ↦ absurd (ground arith)
    ]
  ]

  added_at :
      (o : Option MenuItem) (dto : VisitItemDto) (w' : World)
      → select (on_menu restaurant_id) (w.db.menu_items.at input.menu_item_id) ≡ o
      → add_found documented ctx input o w ≡ (ok (added dto), w')
      → Grounded ctx input dto w w'
  added_at none dto w' e h = absurd (ground arith)
  added_at (some dish) dto w' e h = found_inv dish dto w' e h

  add_inv :
      (dto : VisitItemDto) (w' : World)
      → add_order_item documented ctx input w ≡ (ok (added dto), w')
      → Grounded ctx input dto w w'
  unfolding add_order_item
  add_inv dto w' h = added_at _ dto w' refl h

-- No dish is ordered that is not on the live menu: an order line is added only for a dish that was
-- read from the restaurant's own menu, as available, within the call; the line refers to that dish
-- with the quantity, the changes and the allergy flags of the request, under an identifier that was
-- free, and every other line is as other requests left it.
pub add_order_item-Grounded :
    (c : Client)
    → IsDocumented c
    → (ctx : ToolExecutionContext) (input : NewItem) (w : World) (dto : VisitItemDto) (w' : World)
    → add_order_item c ctx input w ≡ (ok (added dto), w')
    → Grounded ctx input dto w w'
add_order_item-Grounded c l = rw (client-eq c l) add_inv

-- What a proposal leaves: the visit at the table, in the status it had, and the table free.
pub record Unheld (v t : Key) (row : Visit) (table : Table) (w' : World) : Type 0 where
  pub moved : Visit
  pub left : w'.db.visits.at v ≡ some moved
  pub at_the_table : moved.table_id ≡ some table.id
  pub status_kept : moved.status ≡ row.status
  pub still_there : w'.db.tables.at t ≡ some table
  pub was_free : table.status ≡ free
