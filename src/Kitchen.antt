-- ===== src/Kitchen.antt =====
-- apps/api/src/kitchen/kitchen.service.ts
pub mod Gate
pub mod Acks
pub mod Queue
use raise.Visits.{is_empty}
use raise.World.{
  M, World, err, Line, ◌>>=◌, for_restaurant, table_of, ◌>>◌, pure, elsewhere, not_found,
  find_visit, lines_of, update_visits, items_of, or_throw, emit, ok, log_status, throw,
  internal_error,
}
use raise.Prelude.{
  Option, some, none, map, List, if◌then◌else◌, ◌∷◌, Bool, ℕ, String, any, ◌++◌, false, [], true,
  ◌==◌, not, ◌&&◌, leb_ℤ, ◌||◌,
}
use raise.Schema.{
  AllergenTag, VisitStatus, Instant, VisitItem, AllergyAck, Visit, gluten, dairy, food_out,
  confirmed, kitchen_started, is_kitchen_started, completed, peanuts, visit_allergy_acknowledged,
  tree_nuts, egg, staff_actor, soy, kitchen_food_out_endpoint, visit_food_out, fish, shellfish,
  sesame,
}
use mathlib.Core.Option
use raise.Store.{Key, Client}

pub data FoodOutRejection : Type 0 where
  allergy_not_acknowledged not_in_progress : FoodOutRejection

pub data FoodOutResult : Type 0 where
  served_now : Instant → FoodOutResult
  already_served : FoodOutResult
  rejected : FoodOutRejection → FoodOutResult

pub record AcknowledgeResult : Type 0 where
  pub acknowledged_at : Instant
  pub already_acknowledged : Bool

abbrev post_service : VisitStatus → Bool
post_service food_out = true
post_service completed = true
post_service _ = false

abbrev pub is_some {ℓ} : {A : Type ℓ} → Option A → Bool
is_some none = false
is_some (some a) = true

abbrev pub is_flagged : VisitItem → Bool
is_flagged i = not (is_empty i.allergy_flags)

pub record KitchenTicket : Type 0 where
  pub visit_id : Key
  pub status : VisitStatus
  pub table_label : Option String
  pub party_size : Option ℕ
  pub arrival_eta : Option Instant
  pub kitchen_start_target : Option Instant
  pub food_out_target : Option Instant
  pub items : List Line
  pub allergy_flags : List AllergenTag
  pub allergy_acknowledged_at : Option Instant

abbrev in_kitchen : VisitStatus → Bool
in_kitchen confirmed = true
in_kitchen kitchen_started = true
in_kitchen _ = false

abbrev is_due : Instant → Option Instant → Bool
is_due now none = false
is_due now (some t) = leb_ℤ t now

-- The `where` of the queue.
abbrev is_queued : Instant → Key → Visit → Bool
is_queued now r v =
    v.restaurant_id == r
    && (in_kitchen v.status && (is_some v.table_id && is_due now v.kitchen_start_target))

abbrev pub tag_code : AllergenTag → ℕ
tag_code gluten = 0
tag_code dairy = 1
tag_code peanuts = 2
tag_code tree_nuts = 3
tag_code egg = 4
tag_code soy = 5
tag_code fish = 6
tag_code shellfish = 7
tag_code sesame = 8

abbrev pub has_tag : AllergenTag → List AllergenTag → Bool
has_tag t ts = any (λ u. tag_code u == tag_code t) ts

-- `[...new Set(tags)]`: the first occurrence of each, in order.
abbrev pub add_tag : List AllergenTag → AllergenTag → List AllergenTag
add_tag seen t = if has_tag t seen then seen else seen ++ t ∷ []

unfoldable pub distinct_from : List AllergenTag → List AllergenTag → List AllergenTag
distinct_from seen [] = seen
distinct_from seen (t ∷ ts) = distinct_from (add_tag seen t) ts

unfoldable pub flags_of : List VisitItem → List AllergenTag
flags_of [] = []
flags_of (i ∷ is) = i.allergy_flags ++ flags_of is

module _ (c : Client) where
  abbrev pub ack_of : Key → World → Option AllergyAck
  ack_of v w = c.find_first w.db.allergy_acks v (λ _. true)

  unfoldable pub to_ticket : World → Visit → KitchenTicket
  to_ticket w v = record {
    visit_id = v.id;
    status = v.status;
    table_label = Option.map (λ t. t.label) (table_of c v.table_id w.db.tables);
    party_size = v.party_size;
    arrival_eta = v.arrival_eta;
    kitchen_start_target = v.kitchen_start_target;
    food_out_target = v.food_out_target;
    items = lines_of c v.id w;
    allergy_flags = distinct_from [] (flags_of (items_of c v.id w));
    allergy_acknowledged_at = Option.map (λ a. a.acknowledged_at) (ack_of v.id w);
  }

  -- `order_by` is the database's ORDER BY kitchen_start_target ASC.
  unfoldable list_queue : (List Visit → List Visit) → Instant → Key → World → List KitchenTicket
  list_queue order_by now restaurant_id w =
      map (to_ticket w) (order_by (c.find_many w.db.visits (is_queued now restaurant_id)))

  -- Insert under the unique constraint on the visit.
  abbrev create_ack : AllergyAck → M Bool
  create_ack a w = elim (c.create w.db.allergy_acks a.visit_id a) [
    | none ↦ (ok false, w)
    | some rows ↦ (ok true, record w { db = record (w.db) { allergy_acks = rows } })
  ]

  -- The insert. When the constraint fires the database aborts the transaction, so that the
  -- `findUnique` in the `catch` fails in its turn, with an error that nothing catches.
  abbrev pub insert_ack : Instant → Key → Key → Key → M AcknowledgeResult
  insert_ack now restaurant_id visit_id staff_user_id = do
    created ← create_ack (record {
      restaurant_id = restaurant_id;
      visit_id = visit_id;
      acknowledged_at = now;
      staff_user_id = staff_user_id;
    })
    if not created then throw internal_error else do
      emit (visit_allergy_acknowledged restaurant_id visit_id now staff_user_id)
      pure (record { acknowledged_at = now; already_acknowledged = false })

  abbrev pub acknowledge_seen :
      (World → World) → Instant → Key → Key → Key → Option AllergyAck → M AcknowledgeResult
  acknowledge_seen meanwhile now restaurant_id visit_id staff_user_id (some a) =
      pure (record { acknowledged_at = a.acknowledged_at; already_acknowledged = true })
  acknowledge_seen meanwhile now restaurant_id visit_id staff_user_id none = do
    elsewhere meanwhile
    for_restaurant (insert_ack now restaurant_id visit_id staff_user_id)

  -- `meanwhile` is what other requests commit between the read and the insert; what comes before the
  -- insert writes nothing, so a rollback goes back to what they left.
  unfoldable pub acknowledge_allergies :
      (World → World) → Instant → Key → Key → Key → M AcknowledgeResult
  acknowledge_allergies meanwhile now restaurant_id visit_id staff_user_id = do
    found ← for_restaurant (find_visit c restaurant_id visit_id)
    or_throw found not_found
    (λ w. acknowledge_seen meanwhile now restaurant_id visit_id staff_user_id (ack_of visit_id w) w)

  -- `true` lets the order pass.
  unfoldable pub food_out_gate : Key → Key → M Bool
  food_out_gate restaurant_id visit_id = do
    found ← find_visit c restaurant_id visit_id
    or_throw found not_found
    (λ w. (ok (not (any is_flagged (items_of c visit_id w)) || is_some (ack_of visit_id w)), w))

  abbrev food_out_refusal : Option Visit → M FoodOutResult
  food_out_refusal none w = (err not_found, w)
  food_out_refusal (some v) w =
      (ok (if post_service v.status then already_served else rejected not_in_progress), w)

  unfoldable pub serve : Instant → Key → Key → Key → M FoodOutResult
  serve now restaurant_id visit_id staff_user_id = do
    claimed ←
        update_visits c restaurant_id visit_id (λ v. is_kitchen_started v.status)
          λ v. record v { status = food_out; updated_at = now }
    if claimed == 0
        then (do current ← find_visit c restaurant_id visit_id; food_out_refusal current)
        else do
          log_status (record {
            restaurant_id = restaurant_id;
            visit_id = visit_id;
            status = food_out;
            occurred_at = now;
            actor_type = staff_actor;
            actor_id = staff_user_id;
            mechanism = kitchen_food_out_endpoint;
          })
          emit (visit_food_out restaurant_id visit_id now staff_user_id)
          pure (served_now now)

  -- `meanwhile` is what other requests commit between the gate and the write.
  unfoldable pub mark_food_out : (World → World) → Instant → Key → Key → Key → M FoodOutResult
  unfolding food_out_gate
  mark_food_out meanwhile now restaurant_id visit_id staff_user_id = for_restaurant do
    passes ← food_out_gate restaurant_id visit_id
    if not passes
        then pure (rejected allergy_not_acknowledged)
        else do elsewhere meanwhile; serve now restaurant_id visit_id staff_user_id
