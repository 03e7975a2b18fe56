-- ===== src/Notifications.antt =====
-- apps/api/src/notifications: notification.service.ts, drift-policy.ts and notification.subscriber.ts.
-- Every send is claimed first, by a row that is unique for the visit and the type.
pub mod Once
pub mod Delivery
use raise.World.{
  M, World, pure, ◌>>=◌, Result, catch, ◌>>◌, for_restaurant, ok, table_of, find_visit, emit,
  elsewhere,
}
use raise.Prelude.{
  Option, ℤ, Bool, pos, leb_ℤ, some, pos_part, if◌then◌else◌, ◌++◌, ◌*ℤ◌, true, not, ◌-ℤ◌, ◌+◌, ◌∷◌,
  ltb_ℤ, none, neg_part, [], false,
}
use raise.Store.{Client, Key, Rows}
use raise.Schema.{
  Instant, NotificationType, Visit, DomainEvent, Number, SmsMessage, Reason, new_inbound_alert,
  Customer, visit_confirmed, NotificationLog, Channel, in_app, finite, booking_confirmation,
  pending, Table, sms, eta_drift_alert, visit_timing_recomputed, Restaurant, sent, not_finite,
  new_inbound, eta_drift, failed,
}

-- What lies outside: the SMS provider, which may throw, the override of the drift threshold in
-- minutes, `Math.round(driftMs / 60_000)`, and what other requests commit while a send is under way.
pub record NotifyDeps : Type 0 where
  pub now : Instant
  pub send_sms : SmsMessage → Result (Unit {0})
  pub threshold_override : Option Number
  pub round_to_minutes : ℤ → ℤ
  pub others : World → World

abbrev default_eta_drift_alert_threshold_minutes : ℤ
default_eta_drift_alert_threshold_minutes = pos 10

-- `readMinutesOverride`
abbrev read_minutes_override : Option Number → ℤ → ℤ
read_minutes_override none default_minutes = default_minutes
read_minutes_override (some not_finite) default_minutes = default_minutes
read_minutes_override (some (finite n)) default_minutes =
    if ltb_ℤ (pos 0) n then n else default_minutes

-- `Math.abs`
abbrev abs_ℤ : ℤ → ℤ
abs_ℤ a = pos (pos_part a + neg_part a)

unfoldable pub is_significant_drift : Option Number → ℤ → Bool
is_significant_drift override drift_ms =
    leb_ℤ (read_minutes_override override default_eta_drift_alert_threshold_minutes *ℤ pos 60000)
      (abs_ℤ drift_ms)

abbrev pub same_type : NotificationType → NotificationType → Bool
same_type booking_confirmation booking_confirmation = true
same_type new_inbound_alert new_inbound_alert = true
same_type eta_drift_alert eta_drift_alert = true
same_type _ _ = false

abbrev pub with_logs : NotificationType → Rows NotificationLog → World → World
with_logs type rows w = record w {
  db = record (w.db) {
    notification_logs = λ t. if same_type type t then rows else w.db.notification_logs t;
  };
}

module _ (c : Client) (deps : NotifyDeps) where
  open c use {find_first, create, update_many}
  open deps use {now, send_sms, threshold_override, round_to_minutes, others}

  abbrev pub pending_log : Key → Key → Channel → NotificationLog
  pending_log r v channel = record {
    restaurant_id = r;
    visit_id = v;
    channel = channel;
    status = pending;
    sent_at = none;
  }

  abbrev pub claimed_log :
      NotificationType → World → Option (Rows NotificationLog) → Result Bool × World
  claimed_log type w none = (ok false, w)
  claimed_log type w (some rows) = (ok true, with_logs type rows w)

  -- The claim: the insert, or `false` if the unique constraint fires.
  abbrev claim_log : NotificationType → Key → Key → Channel → M Bool
  claim_log type r v channel w =
      claimed_log type w (create (w.db.notification_logs type) v (pending_log r v channel))

  abbrev pub mark_log : NotificationType → Key → (NotificationLog → NotificationLog) → M (Unit {0})
  mark_log type v change w =
      (ok tt, with_logs type (update_many (w.db.notification_logs type) v (λ l. true) change).1 w)

  -- The `try` around the send and the `catch` that marks it failed.
  abbrev pub send_claimed : NotificationType → Key → M (Unit {0}) → M (Unit {0})
  send_claimed type v send =
      catch
        (do
          send
          elsewhere others
          for_restaurant (mark_log type v λ l. record l { status = sent; sent_at = some now }))
        (λ e. for_restaurant (mark_log type v λ l. record l { status = failed }))

  abbrev pub after_claim : NotificationType → Key → M (Unit {0}) → Bool → M (Unit {0})
  after_claim type v send true = send_claimed type v send
  after_claim type v send false = pure tt

  unfoldable pub claim_then_send :
      Key → Key → NotificationType → Channel → M (Unit {0}) → M (Unit {0})
  claim_then_send r v type channel send = do
    claimed ← for_restaurant (claim_log type r v channel)
    after_claim type v send claimed

  -- The text leaves, or the provider throws; it was asked in both cases.
  abbrev pub send_text : SmsMessage → M (Unit {0})
  send_text s w = (send_sms s, record w { texted = w.texted ++ s ∷ [] })

  abbrev customer_of : Option Key → World → Option Customer
  customer_of none w = none
  customer_of (some id) w = find_first w.db.customers id (λ _. true)

  abbrev pub booking_text :
      Key
      → Visit
      → Option Customer
      → Option Table
      → Option Instant
      → Option Restaurant
      → Option SmsMessage
  booking_text visit_id v (some customer) (some table) (some eta) (some restaurant) = some (record {
    visit_id = visit_id;
    to = customer.phone;
    restaurant_name = restaurant.name;
    party_size = v.party_size;
    table_label = table.label;
    arrival_eta = eta;
    timezone = restaurant.timezone;
  })
  booking_text visit_id v _ _ _ _ = none

  abbrev pub text_for : Key → Option Visit → World → Option SmsMessage
  text_for visit_id none w = none
  text_for visit_id (some v) w =
      booking_text visit_id v (customer_of v.customer_id w) (table_of c v.table_id w.db.tables)
        v.arrival_eta (find_first w.db.restaurants v.restaurant_id (λ _. true))

  abbrev pub send_booking_text : Key → Key → Option SmsMessage → M (Unit {0})
  send_booking_text r v none = pure tt
  send_booking_text r v (some s) = claim_then_send r v booking_confirmation sms (send_text s)

  unfoldable pub send_booking_confirmation : Key → Key → M (Unit {0})
  send_booking_confirmation r v = do
    found ← for_restaurant (find_visit c r v)
    (λ w. send_booking_text r v (text_for v found w) w)

  unfoldable pub send_new_inbound_alert : Key → Key → M (Unit {0})
  unfolding claim_then_send
  send_new_inbound_alert r v = claim_then_send r v new_inbound_alert in_app (emit (new_inbound r v))

  unfoldable pub send_drift_alert_if_significant : Key → Key → ℤ → M (Unit {0})
  unfolding claim_then_send
  send_drift_alert_if_significant r v drift_ms =
      if not (is_significant_drift threshold_override drift_ms)
      then pure tt
      else claim_then_send r v eta_drift_alert in_app
          (emit (eta_drift r v (round_to_minutes drift_ms)))

  -- `run`: whatever a notification throws is swallowed.
  abbrev pub run_quietly : M (Unit {0}) → M (Unit {0})
  run_quietly work = catch work λ e. pure tt

  abbrev pub drift_alert : Key → Key → Instant → Option Instant → Reason → M (Unit {0})
  drift_alert r v start (some previous) Reason.eta_changed =
      run_quietly (send_drift_alert_if_significant r v (start -ℤ previous))
  drift_alert r v start _ _ = pure tt

  -- `NotificationSubscriber`: which notification an event calls for.
  unfoldable pub notify : DomainEvent → M (Unit {0})
  unfolding send_booking_confirmation
  notify (visit_confirmed r v) = do
    run_quietly (send_booking_confirmation r v)
    run_quietly (send_new_inbound_alert r v)
  notify (visit_timing_recomputed r v start out previous reason) =
      drift_alert r v start previous reason
  notify _ = pure tt
