-- ===== src/Http/Isolation.antt =====
-- A staff route of one restaurant leaves every other restaurant alone.
use raise.Schema.{items_changed}
use raise.Timing.Service.{accept_kitchen_start, recompute}
use raise.Http.Services.{food_out-Apart, accept-Apart, recompute-Apart}
use raise.Kitchen.{acknowledge_allergies, mark_food_out}
use raise.Http.Bodies.{
  reassign-Apart, acknowledge-Apart, create_menu_item-Apart, update_menu_item-Apart,
}
use raise.Reassignment.{reassign}
use raise.Http.Access.{handle_staff-Granted}
use raise.MenuItems.{get_menu_item, create_menu_item, update_menu_item}
use raise.Http.Tenants.{Apart, Apart-same}
use raise.Auth.{Request}
use raise.World.{World, M, ◌>>=◌, Result, pure, Result-cases}
use raise.Store.{Key, Client, IsDocumented, documented, client-eq, select, documented-IsDocumented}
use raise.Http.{
  Env, StaffRoute, Reply, staff_handler, handle_staff, reassign_table_route, reassigned_reply,
  allergy_ack_route, acknowledged_reply, food_out_route, food_out_reply, list_menu_route,
  get_menu_item_route, menu_item_reply, create_menu_item_route, update_menu_item_route,
  accept_route, accept_reply, recompute_route, recompute_reply, list_tables_route,
}
use mathlib.Core.Path.{subst}
use raise.Prelude.{refl, ◌≡◌, some, none, Option-cases, inl, ap, inr, ◌==◌}

-- The reply is made of the service's answer without a further step.
mapped :
    {A : Type 0} (q : Key) (m : M A) (reply : A → Reply) (w : World)
    → Apart q w (m w).1
    → Apart q w ((m >>= λ a. pure (reply a)) w).1
mapped q m reply w h = elim (Result-cases (m w).0) [ inl (a, e) ↦ rw e h | inr (f, e) ↦ rw e h ]

module _ (env : Env) (q r staff : Key) (apart : r ≡ q → ⊥)
    (others_apart : (w : World) → Apart q w (env.others w)) where
  get_menu_item-Apart : (id : Key) (w : World) → Apart q w (get_menu_item documented r id w).1
  get_menu_item-Apart id w =
      elim (Option-cases (select (λ m. m.restaurant_id == r) (w.db.menu_items.at id))) [
        | inl e ↦ rw e (Apart-same q w w refl)
        | inr (m, e) ↦ rw e (Apart-same q w w refl)
      ]

  handler-Apart :
      (route : StaffRoute) (w : World) → Apart q w (staff_handler documented env route staff r w).1
  unfolding staff_handler
  handler-Apart list_tables_route w = Apart-same q w w refl
  handler-Apart (reassign_table_route v none) w = Apart-same q w w refl
  handler-Apart (reassign_table_route v (some new)) w =
      mapped q (reassign documented env.others env.now r v new staff) reassigned_reply w
        (reassign-Apart q r apart env.others others_apart env.now v new staff w)
  handler-Apart (allergy_ack_route v) w =
      mapped q (acknowledge_allergies documented env.others env.now r v staff)
        (acknowledged_reply v) w
        (acknowledge-Apart q r apart env.others others_apart env.now v staff w)
  handler-Apart (food_out_route v) w =
      mapped q (mark_food_out documented env.others env.now r v staff) (food_out_reply v) w
        (food_out-Apart q r apart env.others others_apart env.now v staff w)
  handler-Apart (list_menu_route only) w = Apart-same q w w refl
  handler-Apart (get_menu_item_route id) w =
      mapped q (get_menu_item documented r id) menu_item_reply w (get_menu_item-Apart id w)
  handler-Apart (create_menu_item_route none) w = Apart-same q w w refl
  handler-Apart (create_menu_item_route (some input)) w =
      mapped q (create_menu_item documented env.new_id r input) menu_item_reply w
        (create_menu_item-Apart q r apart env.others others_apart env.new_id input w)
  handler-Apart (update_menu_item_route id none) w = Apart-same q w w refl
  handler-Apart (update_menu_item_route id (some input)) w =
      mapped q (update_menu_item documented env.others r id input) menu_item_reply w
        (update_menu_item-Apart q r apart env.others others_apart id input w)
  handler-Apart (accept_route v) w =
      mapped q (accept_kitchen_start documented env.now r v staff) accept_reply w
        (accept-Apart q r apart env.now v staff w)
  handler-Apart (recompute_route v) w =
      mapped q (recompute documented env.others env.now r v items_changed) recompute_reply w
        (recompute-Apart q r apart env.others others_apart env.now v items_changed w)

isolated_documented :
    (env : Env) (route : StaffRoute) (request : Request) (q : Key) (w w' : World)
    (out : Result Reply)
    → (request.restaurant_param ≡ q → ⊥)
    → ((w : World) → Apart q w (env.others w))
    → handle_staff documented env route request w ≡ (out, w')
    → Apart q w w'
isolated_documented env route request q w w' out apart others_apart h =
    elim (handle_staff-Granted documented documented-IsDocumented env route request w w' out h) [
      | inl (denied, f, is, e, same) ↦ Apart-same q w w' (ap (λ o. o.db) same)
      | inr (user, granted, e) ↦
          subst (λ o. Apart q w o.1) e
            (handler-Apart env q request.restaurant_param user apart others_apart route w)
    ]

-- A request to a staff route of one restaurant, whatever it asks for and whatever it is answered,
-- leaves every visit, table, dish, order line, acknowledgment and audit event of every other restaurant
-- as it was, if what other requests commit in between does.
pub handle_staff-Apart :
    (c : Client)
    → IsDocumented c
    → (env : Env) (route : StaffRoute) (request : Request) (q : Key) (w w' : World)
      (out : Result Reply)
    → (request.restaurant_param ≡ q → ⊥)
    → ((w : World) → Apart q w (env.others w))
    → handle_staff c env route request w ≡ (out, w')
    → Apart q w w'
handle_staff-Apart c l = rw (client-eq c l) isolated_documented
