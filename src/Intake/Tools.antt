-- ===== src/Intake/Tools.antt =====
-- apps/api/src/intake/tools/tool-handlers.ts: the only writes of the intake conversation. A handler
-- reads the live tables when it is called; between its read and its write other requests may commit.
use raise.Visits.{VisitItemDto, to_item_dto}
use raise.World.{
  M, World, for_restaurant, ◌>>=◌, ok, pure, ◌>>◌, update_visits, elsewhere, err, internal_error,
  Result,
}
use Prim.Native.Nat.{ℕ}
use raise.Schema.{Instant, Table, MenuItem, VisitItem, Visit, AllergenTag, is_free}
use raise.Prelude.{
  List, Option, Bool, some, String, none, ◌==◌, if◌then◌else◌, not, map, ◌&&◌, true, leb, false,
}
use raise.Store.{Client, Key, Rows}
use mathlib.Core.Option

-- What a handler is called with: the draft, the clock, and what is not this repository's code: what
-- other requests commit at its wait, the database's identifiers and orderings, and `new Date(text)`.
pub record ToolExecutionContext : Type 0 where
  pub restaurant_id : Key
  pub visit_id : Key
  pub now : Instant
  pub others : World → World
  pub new_id : World → Key
  pub order_menu : List MenuItem → List MenuItem
  pub order_tables : List Table → List Table
  pub parse_date : String → Option Instant

pub record MenuItemDetails : Type 0 where
  pub id : Key
  pub name : String
  pub description : Option String
  pub price : String
  pub category : String
  pub allergens : List AllergenTag
  pub modifiable_options : List String

pub record OpenTable : Type 0 where
  pub id : Key
  pub label : String
  pub seats_min : ℕ
  pub seats_max : ℕ
  pub features : List String

pub record TableProposalDto : Type 0 where
  pub table_id : Key
  pub label : String
  pub seats_min : ℕ
  pub seats_max : ℕ

pub data ToolRejection : Type 0 where
  unavailable invalid_arrival_eta no_such_item unknown_tool invalid_input : ToolRejection

-- `{ ok: true }` and its kin, by the handler that answers so.
pub data ToolResult : Type 0 where
  menu : List MenuItemDetails → ToolResult
  details : Option MenuItemDetails → ToolResult
  open_tables : List OpenTable → ToolResult
  changed : ToolResult
  added : VisitItemDto → ToolResult
  removed : Bool → ToolResult
  proposed : TableProposalDto → ToolResult
  refused : ToolRejection → ToolResult

-- The inputs, as the schemas let them through; a field that may be absent is an `Option`.
pub record PartyDetails : Type 0 where
  pub party_size : Option ℕ
  pub has_child : Option Bool
  pub special_needs : Option (List String)
  pub arrival_eta : Option String

pub record NewItem : Type 0 where
  pub menu_item_id : Key
  pub quantity : ℕ
  pub modifications : List String
  pub allergy_flags : List AllergenTag

pub record ItemChange : Type 0 where
  pub visit_item_id : Key
  pub quantity : Option ℕ
  pub modifications : Option (List String)
  pub allergy_flags : Option (List AllergenTag)

-- An `Int` column holds 32 bits; the schemas let larger numbers through, and the client throws on them.
abbrev pub is_int : ℕ → Bool
is_int n = leb n 2147483647

abbrev pub fits_column : Option ℕ → Bool
fits_column none = true
fits_column (some n) = is_int n

abbrev pub or_overflow : {A : Type 0} → Bool → M A → M A
or_overflow true m w = m w
or_overflow false m w = (err internal_error, w)

-- `if (input.x !== undefined) data.x = input.x`
abbrev pub or_old {ℓ} : {A : Type ℓ} → Option A → A → A
or_old none old = old
or_old (some a) old = a

abbrev pub or_same {ℓ} : {A : Type ℓ} → Option A → Option A → Option A
or_same none old = old
or_same (some a) old = some a

abbrev details_of : MenuItem → MenuItemDetails
details_of m = record {
  id = m.id;
  name = m.name;
  description = m.description;
  price = m.price;
  category = m.category;
  allergens = m.allergens;
  modifiable_options = m.modifiable_options;
}

abbrev open_table_of : Table → OpenTable
open_table_of t = record {
  id = t.id;
  label = t.label;
  seats_min = t.seats_min;
  seats_max = t.seats_max;
  features = t.features;
}

abbrev pub proposal_of : Table → TableProposalDto
proposal_of t = record {
  table_id = t.id;
  label = t.label;
  seats_min = t.seats_min;
  seats_max = t.seats_max;
}

abbrev pub on_menu : Key → MenuItem → Bool
on_menu r m = m.restaurant_id == r && m.available

abbrev pub fits : ℕ → Key → Table → Bool
fits party_size r t =
    t.restaurant_id == r
    && (is_free t.status && (leb t.seats_min party_size && leb party_size t.seats_max))

abbrev party_row : Instant → PartyDetails → Option Instant → Visit → Visit
party_row now input eta v = record v {
  party_size = or_same input.party_size v.party_size;
  has_child = or_old input.has_child v.has_child;
  special_needs = or_old input.special_needs v.special_needs;
  arrival_eta = or_same eta v.arrival_eta;
  updated_at = now;
}

abbrev pub changed_item : ItemChange → VisitItem → VisitItem
changed_item input i = record i {
  quantity = or_old input.quantity i.quantity;
  modifications = or_old input.modifications i.modifications;
  allergy_flags = or_old input.allergy_flags i.allergy_flags;
}

abbrev pub item_row : ToolExecutionContext → NewItem → MenuItem → Key → VisitItem
item_row ctx input m id = record {
  id = id;
  restaurant_id = ctx.restaurant_id;
  visit_id = ctx.visit_id;
  menu_item_id = m.id;
  quantity = input.quantity;
  modifications = input.modifications;
  allergy_flags = input.allergy_flags;
}

module _ (c : Client) (ctx : ToolExecutionContext) where
  open c use {find_first, find_many, update_many, delete_many, create}
  open ctx use {restaurant_id, visit_id, now, others, new_id, order_menu, order_tables, parse_date}

  abbrev pub own_item : VisitItem → Bool
  own_item i = i.visit_id == visit_id && i.restaurant_id == restaurant_id

  unfoldable pub list_available_menu_items : M ToolResult
  list_available_menu_items = for_restaurant λ w. (
    ok (menu (map details_of (order_menu (find_many w.db.menu_items (on_menu restaurant_id))))),
    w,
  )

  abbrev find_dish : Key → M (Option MenuItem)
  find_dish id = for_restaurant λ w. (ok (find_first w.db.menu_items id (on_menu restaurant_id)), w)

  unfoldable pub get_menu_item_details : Key → M ToolResult
  get_menu_item_details id = do found ← find_dish id; pure (details (Option.map details_of found))

  unfoldable pub list_open_tables : ℕ → M ToolResult
  list_open_tables party_size = or_overflow (is_int party_size) (
      for_restaurant λ w. (
        ok (
            open_tables (
              map open_table_of
                (order_tables (find_many w.db.tables (fits party_size restaurant_id))))),
        w,
      ))

  abbrev pub write_party : PartyDetails → Option Instant → M ToolResult
  write_party input eta = do
    or_overflow (fits_column input.party_size) (
        for_restaurant
          (update_visits c restaurant_id visit_id (λ v. true) (party_row now input eta)))
    pure changed

  -- An arrival time that is given must be one.
  abbrev pub write_party_at : PartyDetails → Option Instant → M ToolResult
  write_party_at input none = pure (refused invalid_arrival_eta)
  write_party_at input (some eta) = write_party input (some eta)

  abbrev pub set_party : PartyDetails → Option String → M ToolResult
  set_party input none = write_party input none
  set_party input (some text) = write_party_at input (parse_date text)

  unfoldable pub set_party_details : PartyDetails → M ToolResult
  set_party_details input = set_party input input.arrival_eta

  abbrev pub created_item :
      VisitItem → MenuItem → World → Option (Rows VisitItem) → Result ToolResult × World
  created_item i m w none = (err internal_error, w)
  created_item i m w (some rows) = (
    ok (added (to_item_dto (record { item = i; menu_item = m }))),
    record w { db = record (w.db) { visit_items = rows } },
  )

  abbrev create_item : VisitItem → MenuItem → M ToolResult
  create_item i m w = created_item i m w (create w.db.visit_items i.id i)

  abbrev pub add_found : NewItem → Option MenuItem → M ToolResult
  add_found input none = pure (refused unavailable)
  add_found input (some m) = do
    elsewhere others
    or_overflow (is_int input.quantity)
        (for_restaurant λ w. create_item (item_row ctx input m (new_id w)) m w)

  unfoldable pub add_order_item : NewItem → M ToolResult
  add_order_item input = do found ← find_dish input.menu_item_id; add_found input found

  abbrev pub update_items : Key → (VisitItem → VisitItem) → M ℕ
  update_items id change w =
      let (n, rows) = update_many w.db.visit_items id own_item change in
      (ok n, record w { db = record (w.db) { visit_items = rows } })

  abbrev delete_items : Key → M ℕ
  delete_items id w =
      let (n, rows) = delete_many w.db.visit_items id own_item in
      (ok n, record w { db = record (w.db) { visit_items = rows } })

  unfoldable pub update_order_item : ItemChange → M ToolResult
  update_order_item input = do
    n ←
        or_overflow (fits_column input.quantity)
          (for_restaurant (update_items input.visit_item_id (changed_item input)))
    pure (if n == 0 then refused no_such_item else changed)

  unfoldable pub remove_order_item : Key → M ToolResult
  remove_order_item id = do n ← for_restaurant (delete_items id); pure (removed (not (n == 0)))

  abbrev pub propose_found : Option Table → M ToolResult
  propose_found none = pure (refused unavailable)
  propose_found (some t) = do
    elsewhere others
    for_restaurant (
        update_visits c restaurant_id visit_id (λ v. true)
          λ v. record v { table_id = some t.id; updated_at = now })
    pure (proposed (proposal_of t))

  unfoldable pub propose_table : Key → M ToolResult
  propose_table id = do
    found ← for_restaurant λ w. (
      ok (find_first w.db.tables id (λ t. t.restaurant_id == restaurant_id && is_free t.status)),
      w,
    )
    propose_found found
