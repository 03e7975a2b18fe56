-- ===== src/Http.antt =====
-- The controllers of apps/api/src: the staff routes behind their guards. NestJS runs the guards
-- first, then the validation of the body, then the handler. A body arrives as the schema library left
-- it, `none` when it was refused.
use raise.Timing.Engine.{TimingTargets}
use raise.Auth.Staff.{staff_guards}
use raise.Reassignment.{ReassignTableResponse, reassign}
use raise.Kitchen.{
  FoodOutResult, served_now, AcknowledgeResult, acknowledge_allergies, FoodOutRejection,
  mark_food_out, already_served,
}
use raise.World.{M, ◌>>=◌, for_restaurant, pure, World, ok, or_throw, internal_error}
use raise.MenuItems.{
  MenuItemUpdateInput, MenuItemCreateInput, update_menu_item, create_menu_item, list_menu_items,
  get_menu_item,
}
use raise.Auth.{Audience, Request, Jwt}
use raise.Schema.{StaffRole, foh, Instant, owner, MenuItem, Table, initial, items_changed}
use raise.Timing.Service.{
  KitchenAcceptResult, RecomputeResult, applied, accepted_at, RecomputeRejection, already_accepted,
  not_confirmed, accept_kitchen_start, recompute,
}
use raise.Store.{Key, Client}
use raise.Dashboard.{DashboardTableSummaryDto, list_tables}
use raise.Prelude.{Option, none, some, List, [], ◌∷◌, Bool, false, true}
pub mod Access
pub mod Tenants
pub mod Services
pub mod Bodies
pub mod Isolation
pub mod Drafts

-- A request to a staff route: the route with its parameters.
pub data StaffRoute : Type 0 where
  list_tables_route : StaffRoute
  reassign_table_route : (visit_id : Key) (body : Option Key) → StaffRoute
  allergy_ack_route food_out_route : (visit_id : Key) → StaffRoute
  list_menu_route : (available_only : Bool) → StaffRoute
  get_menu_item_route : (id : Key) → StaffRoute
  create_menu_item_route : (body : Option MenuItemCreateInput) → StaffRoute
  update_menu_item_route : (id : Key) (body : Option MenuItemUpdateInput) → StaffRoute
  accept_route recompute_route : (visit_id : Key) → StaffRoute

-- `@Roles`; a route without it asks for no role.
abbrev pub roles_of : StaffRoute → List StaffRole
roles_of list_tables_route = []
roles_of (reassign_table_route v body) = foh ∷ owner ∷ []
roles_of (allergy_ack_route v) = StaffRole.kitchen ∷ owner ∷ []
roles_of (food_out_route v) = StaffRole.kitchen ∷ owner ∷ []
roles_of (list_menu_route only) = []
roles_of (get_menu_item_route id) = []
roles_of (create_menu_item_route body) = owner ∷ []
roles_of (update_menu_item_route id body) = owner ∷ []
roles_of (accept_route v) = StaffRole.kitchen ∷ owner ∷ []
roles_of (recompute_route v) = StaffRole.kitchen ∷ owner ∷ foh ∷ []

-- What a route answers; the last four are the exceptions that the controllers themselves throw.
pub data Reply : Type 0 where
  tables_reply : List DashboardTableSummaryDto → Reply
  reassigned_reply : ReassignTableResponse → Reply
  acknowledged_reply : (visit_id : Key) → AcknowledgeResult → Reply
  served_reply : (visit_id : Key) (already_served : Bool) (served_at : Option Instant) → Reply
  menu_reply : List MenuItem → Reply
  menu_item_reply : MenuItem → Reply
  accepted_reply : (already_accepted : Bool) (accepted_at : Option Instant) → Reply
  targets_reply : TimingTargets → Reply
  bad_request : Reply
  food_out_conflict : FoodOutRejection → Reply
  not_confirmed_conflict : Reply
  recompute_conflict : RecomputeRejection → Reply

abbrev pub food_out_reply : Key → FoodOutResult → Reply
food_out_reply v (served_now at) = served_reply v false (some at)
food_out_reply v already_served = served_reply v true none
food_out_reply v (FoodOutResult.rejected reason) = food_out_conflict reason

abbrev pub accept_reply : KitchenAcceptResult → Reply
accept_reply (accepted_at at) = accepted_reply false (some at)
accept_reply already_accepted = accepted_reply true none
accept_reply not_confirmed = not_confirmed_conflict

abbrev pub recompute_reply : RecomputeResult → Reply
recompute_reply (applied t) = targets_reply t
recompute_reply (RecomputeResult.rejected reason) = recompute_conflict reason

-- What is around a request: the configuration, the clock, the orderings of the database and the
-- identifiers it draws, and what other requests commit at the handler's awaits.
pub record Env : Type 0 where
  pub secrets : Audience → Option Key
  pub jwt : Jwt
  pub now : Instant
  pub others : World → World
  pub new_id : World → Key
  pub order_tables : List Table → List Table
  pub order_menu : List MenuItem → List MenuItem

module _ (c : Client) (env : Env) where
  open env use {secrets, jwt, now, others, new_id, order_tables, order_menu}

  -- The body of each route, for the member of staff and the restaurant that the guards attached.
  abbrev reassign_body : Key → Key → Key → Option Key → M Reply
  reassign_body staff r v none = pure bad_request
  reassign_body staff r v (some new) = do
    x ← reassign c others now r v new staff
    pure (reassigned_reply x)

  abbrev create_body : Key → Option MenuItemCreateInput → M Reply
  create_body r none = pure bad_request
  create_body r (some input) = do m ← create_menu_item c new_id r input; pure (menu_item_reply m)

  abbrev update_body : Key → Key → Option MenuItemUpdateInput → M Reply
  update_body r id none = pure bad_request
  update_body r id (some input) = do
    m ← update_menu_item c others r id input
    pure (menu_item_reply m)

  abbrev list_tables_body : Key → M Reply
  list_tables_body r = for_restaurant λ w. (ok (tables_reply (list_tables c order_tables r w)), w)

  abbrev allergy_ack_body : Key → Key → Key → M Reply
  allergy_ack_body staff r v = do
    x ← acknowledge_allergies c others now r v staff
    pure (acknowledged_reply v x)

  abbrev food_out_body : Key → Key → Key → M Reply
  food_out_body staff r v = do x ← mark_food_out c others now r v staff; pure (food_out_reply v x)

  abbrev list_menu_body : Key → Bool → M Reply
  list_menu_body r only =
      for_restaurant λ w. (ok (menu_reply (list_menu_items c order_menu r only w)), w)

  abbrev get_menu_item_body : Key → Key → M Reply
  get_menu_item_body r id = do m ← get_menu_item c r id; pure (menu_item_reply m)

  abbrev accept_body : Key → Key → Key → M Reply
  accept_body staff r v = do x ← accept_kitchen_start c now r v staff; pure (accept_reply x)

  abbrev recompute_body : Key → Key → M Reply
  recompute_body r v = do x ← recompute c others now r v items_changed; pure (recompute_reply x)

  unfoldable pub staff_handler : StaffRoute → Key → Key → M Reply
  staff_handler list_tables_route staff r = list_tables_body r
  staff_handler (reassign_table_route v body) staff r = reassign_body staff r v body
  staff_handler (allergy_ack_route v) staff r = allergy_ack_body staff r v
  staff_handler (food_out_route v) staff r = food_out_body staff r v
  staff_handler (list_menu_route only) staff r = list_menu_body r only
  staff_handler (get_menu_item_route id) staff r = get_menu_item_body r id
  staff_handler (create_menu_item_route body) staff r = create_body r body
  staff_handler (update_menu_item_route id body) staff r = update_body r id body
  staff_handler (accept_route v) staff r = accept_body staff r v
  staff_handler (recompute_route v) staff r = recompute_body r v

  unfoldable pub handle_staff : StaffRoute → Request → M Reply
  handle_staff route request = do
    passed ← staff_guards c secrets jwt (roles_of route) request
    staff ← or_throw passed.staff_user_id internal_error
    staff_handler route staff passed.restaurant_param
