-- ===== src/MenuItems/Foreign.antt =====
-- An update reaches no dish of another restaurant.
use raise.World.{World, err, not_found}
use raise.Store.{Key, Client, IsDocumented, documented, client-eq}
use raise.Schema.{MenuItem}
use raise.Prelude.{some, ◌==◌, ◌≡◌, ◌≢◌, inl, inr, arith, Bool-cases}
use raise.MenuItems.{MenuItemUpdateInput, update_menu_item}

foreign_documented :
    (others : World → World) (r id : Key) (input : MenuItemUpdateInput) (w : World) (m : MenuItem)
    → w.db.menu_items.at id ≡ some m
    → m.restaurant_id ≢ r
    → ((update_menu_item documented others r id input w).0 ≡ err not_found)
      × ((update_menu_item documented others r id input w).1.db.menu_items.at id ≡ some m)
unfolding update_menu_item
foreign_documented others r id input w m e n = elim (Bool-cases (m.restaurant_id == r)) [
  | inl y ↦ absurd (n (ground arith))
  | inr y ↦ (ground arith, ground arith)
]

-- An update that names a dish of another restaurant is answered as not found, and leaves the dish as
-- it was.
update_menu_item_foreign :
    (c : Client)
    → IsDocumented c
    → (others : World → World) (r id : Key) (input : MenuItemUpdateInput) (w : World) (m : MenuItem)
    → w.db.menu_items.at id ≡ some m
    → m.restaurant_id ≢ r
    → ((update_menu_item c others r id input w).0 ≡ err not_found)
      × ((update_menu_item c others r id input w).1.db.menu_items.at id ≡ some m)
update_menu_item_foreign c l = rw (client-eq c l) foreign_documented
