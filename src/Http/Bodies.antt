-- ===== src/Http/Bodies.antt =====
-- The reassignment, the acknowledgment and the menu leave other restaurants alone.
use raise.Kitchen.{acknowledge_allergies, acknowledge_seen, ack_of}
use raise.Visits.Stages.{visit_at}
use raise.Reassignment.Outcomes.{
  reassign_tx_only_db, tx_eq, reassign_move-committed, reassign_move-refused,
}
use raise.MenuItems.{
  create_menu_item, MenuItemCreateInput, new_item, update_menu_item, MenuItemUpdateInput,
  update_items,
}
use raise.Reassignment.Moves.{tx_visits, tx_tables, tx_rest, moved_row}
use raise.Reassignment.{reassign_tx, reassign, reassign_move, reassign_from, is_at, is_active}
use raise.Schema.{Instant, Table, is_free, held, is_held, free, AllergyAck}
use raise.Http.Tenants.{
  Apart, put_apart, changed_apart, Apart-same, Apart-trans, Isolates-update_items, Isolates,
}
use raise.World.{World, ok, Result-cases}
use raise.Store.{Key, documented, select, put}
use mathlib.Core.Path.{subst}
use raise.Prelude.{
  ◌≡◌, ap, ◌==◌, ◌∙◌, keep, Option, Option-cases, none, inr, ◌&&◌, some, inl, Bool-cases, arith,
  refl, sym,
}

module _ (q r : Key) (apart : r ≡ q → ⊥) (others : World → World)
    (others_apart : (w : World) → Apart q w (others w)) where
  abbrev claimed_tables : World → Key → Key → Option Table
  claimed_tables w new =
      (documented.update_many w.db.tables new (λ t. t.restaurant_id == r && is_free t.status)
        λ t. record t { status = held }).1.at

  tx_Apart :
      (now : Instant) (v old new : Key) (w w' : World)
      → reassign_tx documented now r v old new w ≡ (ok tt, w')
      → Apart q w w'
  tx_Apart now v old new w w' h = record {
    visits = λ i.
        ap (λ rows. select (λ x. x.restaurant_id == q) (rows.at i))
          (tx_visits now r v old new w w' h)
        ∙ put_apart (select (λ x. x.restaurant_id == q)) w.db.visits.at v _
            (changed_apart (λ x. x.restaurant_id) q r
              (λ x. is_at old x.table_id && is_active x.status) (moved_row now new) apart
              (λ x. refl) (w.db.visits.at v))
            i;
    tables = λ i.
        ap (λ rows. select (λ x. x.restaurant_id == q) (rows.at i))
          (tx_tables now r v old new w w' h)
        ∙ put_apart (select (λ x. x.restaurant_id == q)) (claimed_tables w new) old _
            (changed_apart (λ x. x.restaurant_id) q r (λ t. is_held t.status)
              (λ t. record t { status = free }) apart (λ x. refl) (claimed_tables w new old))
            i
        ∙ put_apart (select (λ x. x.restaurant_id == q)) w.db.tables.at new _
            (changed_apart (λ x. x.restaurant_id) q r (λ t. is_free t.status)
              (λ t. record t { status = held }) apart (λ x. refl) (w.db.tables.at new))
            i;
    menu_items = λ i.
        ap (λ d. select (λ x. x.restaurant_id == q) (d.menu_items.at i))
          (tx_rest now r v old new w w' h);
    visit_items = λ i.
        ap (λ d. select (λ x. x.restaurant_id == q) (d.visit_items.at i))
          (tx_rest now r v old new w w' h);
    acks = λ i.
        ap (λ d. select (λ x. x.restaurant_id == q) (d.allergy_acks.at i))
          (tx_rest now r v old new w w' h);
    audit =
        ap (λ d. keep (λ e. e.restaurant_id == q) d.status_events) (tx_rest now r v old new w w' h);
  }

  move-Apart :
      (now : Instant) (v old new staff : Key) (w : World)
      → Apart q w (reassign_move documented others now r v old new staff w).1
  move-Apart now v old new staff w =
      let silent = reassign_tx_only_db now r v old new (others w) in
      elim (Result-cases (reassign_tx documented now r v old new (others w)).0) [
        | inl (u, e) ↦
            let h = tx_eq (reassign_tx documented now r v old new (others w)) (ok u) e in
            subst (λ o. Apart q w o.1)
              (sym (reassign_move-committed others now r v new staff w old _ h))
              (Apart-trans q w (others w) _ (others_apart w) (
                Apart-trans q (others w) _ _ (tx_Apart now v old new (others w) _ h)
                  (Apart-same q _ _ refl)))
        | inr (g, e) ↦
            let (f, m) =
              reassign_move-refused others now r v new staff w old g _ (tx_eq _ _ e) silent in
            subst (λ o. Apart q w o.1) (sym m) (others_apart w)
      ]

  from-Apart :
      (now : Instant) (v new staff : Key) (old : Option Key) (w : World)
      → Apart q w (reassign_from documented others now r v new staff old w).1
  from-Apart now v new staff none w = Apart-same q w w refl
  from-Apart now v new staff (some old) w = elim (Bool-cases (old == new)) [
    | inl y ↦ rw y (Apart-same q w w refl)
    | inr n ↦ rw n (move-Apart now v old new staff w)
  ]

  pub reassign-Apart :
      (now : Instant) (v new staff : Key) (w : World)
      → Apart q w (reassign documented others now r v new staff w).1
  unfolding reassign
  reassign-Apart now v new staff w = elim (Option-cases (visit_at r v w)) [
    | inl e ↦ rw e (Apart-same q w w refl)
    | inr (row, e) ↦ elim (Bool-cases (is_active row.status)) [
      | inl y ↦ rw (e, y) (from-Apart now v new staff row.table_id w)
      | inr n ↦ rw (e, n) (Apart-same q w w refl)
    ]
  ]

  -- A row of the restaurant under a key that no row had.
  created_apart :
      {R : Type 0} (tenant : R → Key) (at : Key → Option R) (id : Key) (row : R)
      → tenant row ≡ r
      → at id ≡ none
      → (i : Key)
      → select (λ x. tenant x == q) (put at id (some row) i) ≡ select (λ x. tenant x == q) (at i)
  created_apart tenant at id row here e = put_apart (select (λ x. tenant x == q)) at id (some row) (
      rw e (elim (Bool-cases (tenant row == q)) [
        | inl y ↦ absurd (apart (ground arith))
        | inr n ↦ rw n refl
      ]))

  pub create_menu_item-Apart :
      (new_id : World → Key) (input : MenuItemCreateInput) (w : World)
      → Apart q w (create_menu_item documented new_id r input w).1
  unfolding create_menu_item
  create_menu_item-Apart new_id input w = elim (Option-cases (w.db.menu_items.at (new_id w))) [
    | inr (old, e) ↦ rw e (Apart-same q w w refl)
    | inl e ↦ rw e (record {
      visits = λ i. refl;
      tables = λ i. refl;
      menu_items =
          created_apart (λ x. x.restaurant_id) w.db.menu_items.at (new_id w)
            (new_item (new_id w) r input) refl e;
      visit_items = λ i. refl;
      acks = λ i. refl;
      audit = refl;
    })
  ]

  pub update_menu_item-Apart :
      (id : Key) (input : MenuItemUpdateInput) (w : World)
      → Apart q w (update_menu_item documented others r id input w).1
  unfolding update_menu_item
  update_menu_item-Apart id input w =
      let m = (update_items documented r id input w).1 in
      let written : Apart q w m = Isolates-update_items q r apart id input w in
      let left : Apart q w (others m) = Apart-trans q w m (others m) written (others_apart m) in
      elim (Option-cases (select (λ x. x.restaurant_id == r) (w.db.menu_items.at id))) [
        | inl e ↦ rw e written
        | inr (row, e) ↦
            elim (Option-cases
              (select (λ x. x.restaurant_id == r) ((others m).db.menu_items.at id))) [
                | inl f ↦ rw (e, f) left
                | inr (x, f) ↦ rw (e, f) left
              ]
      ]

  acknowledge_new-Apart :
      (now : Instant) (v staff : Key) (w : World)
      → Apart q w (acknowledge_seen documented others now r v staff none w).1
  acknowledge_new-Apart now v staff w =
      let m = others w in
      Apart-trans q w m _ (others_apart w) (elim (Option-cases (m.db.allergy_acks.at v)) [
        | inr (old, e) ↦ rw e (Apart-same q m m refl)
        | inl e ↦ rw e (record {
          visits = λ i. refl;
          tables = λ i. refl;
          menu_items = λ i. refl;
          visit_items = λ i. refl;
          acks = created_apart (λ x. x.restaurant_id) m.db.allergy_acks.at v _ refl e;
          audit = refl;
        })
      ])

  acknowledge_seen-Apart :
      (now : Instant) (v staff : Key) (o : Option AllergyAck) (w : World)
      → Apart q w (acknowledge_seen documented others now r v staff o w).1
  acknowledge_seen-Apart now v staff none w = acknowledge_new-Apart now v staff w
  acknowledge_seen-Apart now v staff (some a) w = Apart-same q w w refl

  pub acknowledge-Apart :
      (now : Instant) (v staff : Key)
      → Isolates q (acknowledge_allergies documented others now r v staff)
  unfolding acknowledge_allergies
  acknowledge-Apart now v staff w = elim (Option-cases (visit_at r v w)) [
    | inl e ↦ rw e (Apart-same q w w refl)
    | inr (row, e) ↦ rw e (acknowledge_seen-Apart now v staff (ack_of documented v w) w)
  ]
