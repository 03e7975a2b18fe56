-- ===== src/Examples/Notifications.antt =====
-- The same confirmation, delivered three times.
use raise.Store.{documented, documented-IsDocumented}
use raise.Schema.{confirmed, booking_confirmation, DomainEvent, visit_confirmed}
use raise.Notifications.Delivery.{AtMostOnce, notify_all, sent_of, notify_all-AtMostOnce}
use raise.Prelude.{List, none, some, ◌∷◌, [], ◌≡◌, arith, refl}
use raise.World.{World, ok}
use raise.Notifications.{
  notify, NotifyDeps, claim_then_send, send_booking_confirmation, send_new_inbound_alert,
}
use raise.Examples.{evening, now, blank_visit, rows}

abbrev silent : NotifyDeps
silent = record {
  now = now;
  send_sms = λ s. ok tt;
  threshold_override = none;
  round_to_minutes = λ ms. ms;
  others = λ w. w;
}

abbrev booked_evening : World
booked_evening = record evening {
  db = record (evening.db) {
    visits = rows ((12, record (blank_visit 12 confirmed) { customer_id = some 7 }) ∷ []);
  };
}

abbrev three_times : List DomainEvent
three_times = visit_confirmed 1 12 ∷ visit_confirmed 1 12 ∷ visit_confirmed 1 12 ∷ []

notify_all-AtMostOnce_example :
    AtMostOnce booking_confirmation 12 (notify_all documented silent three_times booked_evening)
notify_all-AtMostOnce_example =
    notify_all-AtMostOnce documented documented-IsDocumented silent booking_confirmation 12
      (λ w o. o) three_times booked_evening (omega arith, λ e. refl)

text_leaves :
    sent_of booking_confirmation 12 (notify_all documented silent three_times booked_evening) ≡ 1
unfolding notify claim_then_send send_booking_confirmation send_new_inbound_alert
text_leaves = refl
