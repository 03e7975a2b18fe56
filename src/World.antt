-- ===== src/World.antt =====
-- What a request acts on: the database, the domain events emitted so far, and the texts handed to the
-- SMS provider. A handler is an action
-- that returns or throws; `for_restaurant` is the transaction of
-- apps/api/src/prisma/tenant-prisma.service.ts, which a throw rolls back.
use raise.Prelude.{
  ℕ, Bool, true, Option, none, some, List, [], ◌∷◌, ◌++◌, ◌==◌, ◌&&◌, ◌≡◌, ◌⊎◌, inl, inr, refl,
  arith, String,
}
use raise.Store.{Key, Client, Rows}
use raise.Schema.{SmsMessage, Db, DomainEvent, Visit, Table, VisitItem, MenuItem, VisitStatusEvent}

-- packages/shared-types/src/confirmation.ts
pub data ConfirmRejectionReason : Type 0 where
  not_draft identity_mismatch missing_party_size missing_arrival_eta missing_table table_taken
        items_unavailable :
      ConfirmRejectionReason

-- packages/shared-types/src/dashboard.ts
pub data ReassignTableRejectionReason : Type 0 where
  table_taken visit_not_active table_not_found stale_update : ReassignTableRejectionReason

-- What a handler may throw: the HTTP exceptions, and the errors that a service throws to itself.
pub data Failure : Type 0 where
  not_found unauthorized forbidden : Failure
  confirm_conflict : ConfirmRejectionReason → List (Key × String) → Failure
  reassign_conflict : ReassignTableRejectionReason → Failure
  table_taken_error visit_claim_lost_error stale_visit_table_error : Failure
  -- an `Error` or a `TypeError` of a library, the database or the language
  internal_error : Failure

pub data Result {ℓ} (A : Type ℓ) : Type ℓ where
  ok : A → Result A
  err : Failure → Result A

pub Result-cases {ℓ} :
    {A : Type ℓ} (r : Result A) → ((a : A) × (r ≡ ok a)) ⊎ ((e : Failure) × (r ≡ err e))
Result-cases (ok a) = inl (a, refl)
Result-cases (err e) = inr (e, refl)

pub record World : Type 0 where
  pub db : Db
  pub emitted : List DomainEvent
  pub texted : List SmsMessage

abbrev pub M : Type 0 → Type 0
M A = World → Result A × World

abbrev pub bind_result : {A B : Type 0} → Result A → (A → M B) → M B
bind_result (ok a) f w = f a w
bind_result (err e) f w = (err e, w)

infixl 5 ◌>>=◌ ◌>>◌
abbrev pub ◌>>=◌ : {A B : Type 0} → M A → (A → M B) → M B
◌>>=◌ m f w = let (r, w') = m w in bind_result r f w'

abbrev pub ◌>>◌ : {A B : Type 0} → M A → M B → M B
m >> k = m >>= λ _. k

abbrev pub pure : {A : Type 0} → A → M A
pure a w = (ok a, w)

abbrev pub throw : {A : Type 0} → Failure → M A
throw e w = (err e, w)

-- `if (!row) throw new NotFoundException()`
abbrev pub or_throw : {A : Type 0} → Option A → Failure → M A
or_throw none e = throw e
or_throw (some a) e = pure a

abbrev pub roll_back : {A : Type 0} → Db → Result A → World → Result A × World
roll_back before (ok a) w = (ok a, w)
roll_back before (err e) w = (err e, record w { db = before })

-- The tables are restored when `work` throws; what was emitted stays emitted.
abbrev pub for_restaurant : {A : Type 0} → M A → M A
for_restaurant work w = let (r, w') = work w in roll_back w.db r w'

abbrev pub emit : DomainEvent → M (Unit {0})
emit e w = (ok tt, record w { emitted = w.emitted ++ e ∷ [] })

-- `try { body } catch (err) { handler }`
abbrev pub recover : {A : Type 0} → Result A → (Failure → M A) → M A
recover (ok a) handler w = (ok a, w)
recover (err e) handler w = handler e w

abbrev pub catch : {A : Type 0} → M A → (Failure → M A) → M A
catch body handler w = let (r, w') = body w in recover r handler w'

abbrev pub lift : {A : Type 0} → Result A → M A
lift r w = (r, w)

-- Other requests commit while this one awaits.
abbrev pub elsewhere : (World → World) → M (Unit {0})
elsewhere others w = (ok tt, others w)

abbrev pub log_status : VisitStatusEvent → M (Unit {0})
log_status e w =
    (ok tt, record w { db = record (w.db) { status_events = w.db.status_events ++ e ∷ [] } })

-- An ordered item with its dish.
pub record Line : Type 0 where
  pub item : VisitItem
  pub menu_item : MenuItem

abbrev pub line_cons : VisitItem → Option MenuItem → List Line → List Line
line_cons i none ls = ls
line_cons i (some m) ls = record { item = i; menu_item = m } ∷ ls

module _ (c : Client) where
  open c use {find_first, find_many, update_many}

  -- `where: { id, restaurantId }`
  abbrev pub find_visit : Key → Key → M (Option Visit)
  find_visit restaurant_id visit_id w =
      (ok (find_first w.db.visits visit_id (λ v. v.restaurant_id == restaurant_id)), w)

  -- `where: { id, restaurantId, … }`, with the rest of the condition
  abbrev pub update_visits : Key → Key → (Visit → Bool) → (Visit → Visit) → M ℕ
  update_visits restaurant_id visit_id test change w =
      let (n, rows) =
        update_many w.db.visits visit_id (λ v. v.restaurant_id == restaurant_id && test v) change in
      (ok n, record w { db = record (w.db) { visits = rows } })

  abbrev pub update_tables : Key → Key → (Table → Bool) → (Table → Table) → M ℕ
  update_tables restaurant_id table_id test change w =
      let (n, rows) =
        update_many w.db.tables table_id (λ t. t.restaurant_id == restaurant_id && test t) change in
      (ok n, record w { db = record (w.db) { tables = rows } })

  -- `include: { table: true }`
  abbrev pub table_of : Option Key → Rows Table → Option Table
  table_of none tables = none
  table_of (some t) tables = find_first tables t (λ _. true)

  -- `include: { visitItems: true }`
  abbrev pub items_of : Key → World → List VisitItem
  items_of visit_id w = find_many w.db.visit_items (λ i. i.visit_id == visit_id)

  abbrev pub lines_from : Rows MenuItem → List VisitItem → List Line
  lines_from menu [] = []
  lines_from menu (i ∷ is) =
      line_cons i (find_first menu i.menu_item_id (λ _. true)) (lines_from menu is)

  -- `include: { visitItems: { include: { menuItem: true } } }`: the foreign key makes the menu item
  -- exist.
  abbrev pub lines_of : Key → World → List Line
  lines_of visit_id w = lines_from w.db.menu_items (items_of visit_id w)

-- No table but the visits changed, and nothing else but the audit trail.
abbrev pub SameButVisits : World → World → Type 0
SameButVisits w w' =
    w'.db ≡ record (w.db) { visits = w'.db.visits; status_events = w'.db.status_events }

-- An action that returns was composed of two that return.
pub >>=-eq-ok :
    {A B : Type 0} (m : M A) (f : A → M B) (w : World) {b : B}
    → ((m >>= f) w).0 ≡ ok b
    → (a : A) × ((m w).0 ≡ ok a) × ((f a (m w).1).0 ≡ ok b)
>>=-eq-ok m f w h = elim (Result-cases (m w).0) [
  | inl (a, e) ↦ (a, e, rw e at h)
  | inr (x, e) ↦ absurd (ground arith)
]

-- What holds from before to after each of two actions, and composes, holds of their composition.
pub >>=-keeps :
    (Kept : World → World → Type 0)
    → ((w m w' : World) → Kept w m → Kept m w' → Kept w w')
    → {A B : Type 0} (m : M A) (f : A → M B) → ((w : World) → Kept w (m w).1)
    → ((a : A) (w : World) → Kept w (f a w).1)
    → (w : World) → Kept w ((m >>= f) w).1
>>=-keeps Kept trans m f first second w = elim (Result-cases (m w).0) [
  | inl (a, e) ↦ rw e (trans _ _ _ (first w) (second a (m w).1))
  | inr (x, e) ↦ rw e (first w)
]
