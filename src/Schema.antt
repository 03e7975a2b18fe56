-- ===== src/Schema.antt =====
-- The rows of apps/api/prisma/schema.prisma and the domain events of the services.
-- Instants are signed milliseconds since the epoch; identifiers are numbers that are only compared.
use raise.Prelude.{ℕ, ℤ, String, Bool, true, false, Option, List}
use raise.Store.{Key, Rows}

abbrev pub Instant : Type 0
Instant = ℤ

pub data VisitStatus : Type 0 where
  draft confirmed kitchen_started table_set guest_arrived food_out completed cancelled no_show :
      VisitStatus

abbrev pub is_draft : VisitStatus → Bool
is_draft draft = true
is_draft _ = false

abbrev pub is_confirmed : VisitStatus → Bool
is_confirmed confirmed = true
is_confirmed _ = false

abbrev pub is_kitchen_started : VisitStatus → Bool
is_kitchen_started kitchen_started = true
is_kitchen_started _ = false

pub data TableStatus : Type 0 where
  free held seated : TableStatus

abbrev pub is_free : TableStatus → Bool
is_free free = true
is_free _ = false

abbrev pub is_held : TableStatus → Bool
is_held held = true
is_held _ = false

pub data StaffRole : Type 0 where
  owner foh kitchen : StaffRole

pub data ConversationRole : Type 0 where
  customer system : ConversationRole

-- packages/shared-types/src/menu-item.ts, ALLERGEN_TAGS
pub data AllergenTag : Type 0 where
  gluten dairy peanuts tree_nuts egg soy fish shellfish sesame : AllergenTag

-- A JavaScript number: a whole number, or NaN or an infinity.
pub data Number : Type 0 where
  finite : ℤ → Number
  not_finite : Number

-- A value of the `settings` column: a number, or anything else (absent included).
pub data SettingValue : Type 0 where
  number : Number → SettingValue
  other : SettingValue

pub record Restaurant : Type 0 where
  pub id : Key
  pub name : String
  pub timezone : String
  pub avg_prep_buffer_minutes : SettingValue
  pub expo_buffer_minutes : SettingValue

pub record Table : Type 0 where
  pub id : Key
  pub restaurant_id : Key
  pub label : String
  pub seats_min : ℕ
  pub seats_max : ℕ
  pub status : TableStatus
  pub features : List String

pub record Visit : Type 0 where
  pub id : Key
  pub restaurant_id : Key
  pub customer_id : Option Key
  pub party_size : Option ℕ
  pub has_child : Bool
  pub special_needs : List String
  pub arrival_eta : Option Instant
  pub arrival_confirmed_at : Option Instant
  pub table_id : Option Key
  pub table_assigned_at : Option Instant
  pub kitchen_start_target : Option Instant
  pub food_out_target : Option Instant
  pub draft_expires_at : Option Instant
  pub status : VisitStatus
  pub updated_at : Instant

pub record MenuItem : Type 0 where
  pub id : Key
  pub restaurant_id : Key
  pub name : String
  pub description : Option String
  pub price : String
  pub prep_time_minutes : ℤ
  pub category : String
  pub allergens : List AllergenTag
  pub modifiable_options : List String
  pub available : Bool

pub record VisitItem : Type 0 where
  pub id : Key
  pub restaurant_id : Key
  pub visit_id : Key
  pub menu_item_id : Key
  pub quantity : ℕ
  pub modifications : List String
  pub allergy_flags : List AllergenTag

pub record AllergyAck : Type 0 where
  pub restaurant_id : Key
  pub visit_id : Key
  pub acknowledged_at : Instant
  pub staff_user_id : Key

-- The values of `actor_type` and `mechanism` that the services write.
pub data ActorType : Type 0 where
  customer_actor staff_actor : ActorType

pub data Mechanism : Type 0 where
  explicit_confirm_endpoint kitchen_accept_endpoint kitchen_food_out_endpoint : Mechanism

pub record VisitStatusEvent : Type 0 where
  pub restaurant_id : Key
  pub visit_id : Key
  pub status : VisitStatus
  pub occurred_at : Instant
  pub actor_type : ActorType
  pub actor_id : Key
  pub mechanism : Mechanism

-- The JSON copy of the tool calls of a turn is left out.
pub record ConversationTurn : Type 0 where
  pub id : Key
  pub restaurant_id : Key
  pub visit_id : Key
  pub role : ConversationRole
  pub transcript : String
  pub created_at : Instant

pub data NotificationType : Type 0 where
  booking_confirmation new_inbound_alert eta_drift_alert : NotificationType

pub data LogStatus : Type 0 where
  pending sent failed : LogStatus

pub data Channel : Type 0 where
  sms in_app : Channel

-- The payload, a JSON copy of what is sent, is left out.
pub record NotificationLog : Type 0 where
  pub restaurant_id : Key
  pub visit_id : Key
  pub channel : Channel
  pub status : LogStatus
  pub sent_at : Option Instant

pub record Customer : Type 0 where
  pub id : Key
  pub phone : String

-- A booking confirmation as it is handed to the SMS provider: the parts of its text, which is not put
-- together here, and the visit that it is about.
pub record SmsMessage : Type 0 where
  pub visit_id : Key
  pub to : String
  pub restaurant_name : String
  pub party_size : Option ℕ
  pub table_label : String
  pub arrival_eta : Instant
  pub timezone : String

pub record StaffMembership : Type 0 where
  pub user_id : Key
  pub restaurant_id : Key
  pub role : StaffRole

-- Why targets were recomputed (apps/api/src/timing/timing.events.ts).
pub data Reason : Type 0 where
  initial eta_changed items_changed : Reason

-- The events that the services emit, with the fields of their classes.
pub data DomainEvent : Type 0 where
  visit_confirmed : (restaurant_id visit_id : Key) → DomainEvent
  visit_table_reassigned :
      (restaurant_id visit_id previous_table_id new_table_id staff_user_id : Key) → DomainEvent
  visit_timing_recomputed :
      (restaurant_id visit_id : Key) (kitchen_start_target food_out_target : Instant)
      (previous_kitchen_start_target : Option Instant) (reason : Reason)
      → DomainEvent
  visit_kitchen_accepted :
      (restaurant_id visit_id : Key) (accepted_at : Instant) (staff_user_id : Key) → DomainEvent
  visit_allergy_acknowledged :
      (restaurant_id visit_id : Key) (acknowledged_at : Instant) (staff_user_id : Key) → DomainEvent
  visit_food_out :
      (restaurant_id visit_id : Key) (served_at : Instant) (staff_user_id : Key) → DomainEvent
  new_inbound : (restaurant_id visit_id : Key) → DomainEvent
  eta_drift : (restaurant_id visit_id : Key) (drift_minutes : ℤ) → DomainEvent

-- A notification log is unique by visit and type, so each type has a table keyed by the visit; an
-- acknowledgment is unique by visit. A membership is unique by user and restaurant, so each restaurant
-- has a table keyed by the user.
pub record Db : Type 0 where
  pub restaurants : Rows Restaurant
  pub customers : Rows Customer
  pub tables : Rows Table
  pub visits : Rows Visit
  pub menu_items : Rows MenuItem
  pub visit_items : Rows VisitItem
  pub allergy_acks : Rows AllergyAck
  pub status_events : List VisitStatusEvent
  pub conversation_turns : List ConversationTurn
  pub notification_logs : NotificationType → Rows NotificationLog
  pub staff_memberships : Key → Rows StaffMembership
