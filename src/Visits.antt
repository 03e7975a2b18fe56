-- ===== src/Visits.antt =====
-- apps/api/src/visits/visits.service.ts: `confirm`, the one write path to `confirmed`.
pub mod Claims
pub mod Stages
pub mod Booking
pub mod NoTrace
pub mod Races
pub mod Retabled
use raise.Prelude.{
  ℕ, String, Bool, true, false, not, Option, none, some, List, [], ◌∷◌, ◌==◌, ◌&&◌, keep, map,
  if◌then◌else◌,
}
use raise.Store.{Key, Client}
use raise.Schema.{
  Instant, confirmed, held, Visit, Table, AllergenTag, DomainEvent, customer_actor,
  explicit_confirm_endpoint, visit_confirmed, is_draft, is_confirmed, is_free,
}
use raise.World.{
  M, World, Result, ok, err, Failure, not_found, internal_error, confirm_conflict, ◌>>=◌, ◌>>◌,
  pure, throw, or_throw, for_restaurant, catch, lift, elsewhere, emit, log_status, Line, find_visit,
  update_visits, update_tables, table_of, lines_of, table_taken_error, visit_claim_lost_error,
  ConfirmRejectionReason, not_draft, missing_party_size, missing_arrival_eta, missing_table,
  items_unavailable,
}

pub record VisitWithItemsAndTable : Type 0 where
  pub visit : Visit
  pub lines : List Line
  pub table : Option Table

pub record VisitItemDto : Type 0 where
  pub id : Key
  pub menu_item_id : Key
  pub name : String
  pub price : String
  pub quantity : ℕ
  pub modifications : List String
  pub allergy_flags : List AllergenTag

pub record ConfirmedVisitDto : Type 0 where
  pub id : Key
  pub restaurant_id : Key
  pub party_size : Option ℕ  -- `visit.partySize!` is not checked at run time
  pub arrival_eta : Instant
  pub arrival_confirmed_at : Instant
  pub table_id : Key
  pub table_label : String
  pub items : List VisitItemDto

pub record ConfirmVisitResponse : Type 0 where
  pub visit : ConfirmedVisitDto
  pub already_confirmed : Bool

abbrev pub to_item_dto : Line → VisitItemDto
to_item_dto l = record {
  id = l.item.id;
  menu_item_id = l.item.menu_item_id;
  name = l.menu_item.name;
  price = l.menu_item.price;
  quantity = l.item.quantity;
  modifications = l.item.modifications;
  allergy_flags = l.item.allergy_flags;
}

-- A missing table is the function's own error, a missing instant a `TypeError`.
abbrev pub dto_from :
    VisitWithItemsAndTable
    → Option Table
    → Option Instant
    → Option Instant
    → Result ConfirmedVisitDto
dto_from v none eta at = err internal_error
dto_from v (some t) none at = err internal_error
dto_from v (some t) (some eta) none = err internal_error
dto_from v (some t) (some eta) (some at) = ok (record {
  id = v.visit.id;
  restaurant_id = v.visit.restaurant_id;
  party_size = v.visit.party_size;
  arrival_eta = eta;
  arrival_confirmed_at = at;
  table_id = t.id;
  table_label = t.label;
  items = map to_item_dto v.lines;
})

unfoldable pub to_confirmed_dto : VisitWithItemsAndTable → Result ConfirmedVisitDto
to_confirmed_dto v = dto_from v v.table v.visit.arrival_eta v.visit.arrival_confirmed_at

abbrev is_none {ℓ} : {A : Type ℓ} → Option A → Bool
is_none none = true
is_none (some a) = false

-- `customerId !== null && customerId !== mine`
abbrev bound_to_other : Option Key → Key → Bool
bound_to_other none mine = false
bound_to_other (some theirs) mine = not (theirs == mine)

-- `visit.customerId === mine`
abbrev bound_to : Option Key → Key → Bool
bound_to none mine = false
bound_to (some theirs) mine = theirs == mine

abbrev unavailable_lines : List Line → List (Key × String)
unavailable_lines ls =
    map (λ l. (l.item.id, l.menu_item.name)) (keep (λ l. not l.menu_item.available) ls)

abbrev pub is_empty {ℓ} : {A : Type ℓ} → List A → Bool
is_empty [] = true
is_empty (x ∷ xs) = false

-- The checks before the transaction: `true` if this customer's visit is confirmed already, `false`
-- to go on.
unfoldable pub confirm_checks : VisitWithItemsAndTable → Key → Result Bool
confirm_checks v customer_id =
    if is_confirmed v.visit.status
    then (if bound_to v.visit.customer_id customer_id then ok true else err not_found)
    else if not (is_draft v.visit.status)
    then err (confirm_conflict not_draft [])
    else if bound_to_other v.visit.customer_id customer_id
    then err not_found
    else if is_none v.visit.party_size
    then err (confirm_conflict missing_party_size [])
    else if is_none v.visit.arrival_eta
    then err (confirm_conflict missing_arrival_eta [])
    else if is_none v.visit.table_id
    then err (confirm_conflict missing_table [])
    else if is_empty (unavailable_lines v.lines)
    then ok false
    else err (confirm_conflict items_unavailable (unavailable_lines v.lines))

-- What other requests do while this one awaits its second and third transaction.
pub record Others : Type 0 where
  pub before_claim : World → World
  pub before_reread : World → World

abbrev pub claim_or : ℕ → Failure → M (Unit {0})
claim_or n e = if n == 0 then throw e else pure tt

module _ (c : Client) where
  abbrev pub with_items_and_table : Visit → World → VisitWithItemsAndTable
  with_items_and_table v w = record {
    visit = v;
    lines = lines_of c v.id w;
    table = table_of c v.table_id w.db.tables;
  }

  abbrev include_all : Option Visit → M VisitWithItemsAndTable
  include_all none w = (err not_found, w)
  include_all (some v) w = (ok (with_items_and_table v w), w)

  unfoldable pub get_visit_or_throw : Key → Key → M VisitWithItemsAndTable
  get_visit_or_throw restaurant_id visit_id =
      for_restaurant do found ← find_visit c restaurant_id visit_id; include_all found

  -- The transaction: claim the visit, claim the table, stamp, audit, and read the row back.
  unfoldable pub confirm_tx : Instant → Key → Key → Key → Option Key → M VisitWithItemsAndTable
  confirm_tx now restaurant_id visit_id customer_id table_id = do
    claimed ←
        update_visits c restaurant_id visit_id (λ v. is_draft v.status)
          λ v. record v {
            status = confirmed;
            arrival_confirmed_at = some now;
            customer_id = some customer_id;
            updated_at = now;
          }
    claim_or claimed visit_claim_lost_error
    table ← or_throw table_id internal_error
    held_now ←
        update_tables c restaurant_id table (λ t. is_free t.status) λ t. record t { status = held }
    claim_or held_now table_taken_error
    update_visits c restaurant_id visit_id (λ _. true)
        λ v. record v { table_assigned_at = some now; updated_at = now }
    log_status (record {
      restaurant_id = restaurant_id;
      visit_id = visit_id;
      status = confirmed;
      occurred_at = now;
      actor_type = customer_actor;
      actor_id = customer_id;
      mechanism = explicit_confirm_endpoint;
    })
    found ← find_visit c restaurant_id visit_id
    include_all found

  abbrev pub respond : VisitWithItemsAndTable → Bool → M ConfirmVisitResponse
  respond v already = do
    dto ← lift (to_confirmed_dto v)
    pure (record { visit = dto; already_confirmed = already })

  -- The `catch`: a lost visit claim is success if this customer's own request won it.
  unfoldable pub confirm_recover :
      (World → World) → Key → Key → Key → Failure → M ConfirmVisitResponse
  unfolding get_visit_or_throw
  confirm_recover others restaurant_id visit_id customer_id visit_claim_lost_error = do
    elsewhere others
    current ← get_visit_or_throw restaurant_id visit_id
    if is_confirmed current.visit.status && bound_to current.visit.customer_id customer_id
        then respond current true
        else throw (confirm_conflict not_draft [])
  confirm_recover others restaurant_id visit_id customer_id table_taken_error =
      throw (confirm_conflict ConfirmRejectionReason.table_taken [])
  confirm_recover others restaurant_id visit_id customer_id e = throw e

  -- The `try`: what is thrown after the commit goes through the same `catch`.
  unfoldable pub confirm_claim :
      Others → Instant → Key → Key → Key → Option Key → M ConfirmVisitResponse
  confirm_claim others now restaurant_id visit_id customer_id table_id =
      catch
        (do
          elsewhere others.before_claim
          confirmed_visit ←
              for_restaurant (confirm_tx now restaurant_id visit_id customer_id table_id)
          emit (visit_confirmed restaurant_id visit_id)
          respond confirmed_visit false)
        (confirm_recover others.before_reread restaurant_id visit_id customer_id)

  -- What follows the checks: the answer for a visit confirmed already, the claim, or the exception.
  abbrev pub after_checks :
      Others
      → Instant
      → Key
      → Key
      → Key
      → VisitWithItemsAndTable
      → Result Bool
      → M ConfirmVisitResponse
  after_checks others now restaurant_id visit_id customer_id v (ok true) w = respond v true w
  after_checks others now restaurant_id visit_id customer_id v (ok false) w =
      confirm_claim others now restaurant_id visit_id customer_id v.visit.table_id w
  after_checks others now restaurant_id visit_id customer_id v (err e) w = (err e, w)

  unfoldable pub confirm : Others → Instant → Key → Key → Key → M ConfirmVisitResponse
  unfolding get_visit_or_throw
  confirm others now restaurant_id visit_id customer_id = do
    v ← get_visit_or_throw restaurant_id visit_id
    after_checks others now restaurant_id visit_id customer_id v (confirm_checks v customer_id)
