-- ===== src/Notifications/Delivery.antt =====
-- Domain events delivered any number of times.
use raise.Notifications.Once.{Once, same_type-eq, own-Once, foreign-Once}
use raise.World.{World, emit, M, Result-cases, >>=-keeps}
use raise.Store.{Key, documented, Client, IsDocumented, client-eq}
use raise.Prelude.{
  Bool, List, ℤ, ℕ, ◌≡◌, true, ◌==◌, if◌then◌else◌, length, false, keep, ◌&&◌, ◌++◌, refl, suc, ◌∷◌,
  [], Bool-cases, keep-append, inl, arith, inr, length-append, Option, some, none, ◌∙◌, ap, ◌-ℤ◌,
}
use raise.Schema.{
  NotificationType, DomainEvent, SmsMessage, Db, eta_drift, new_inbound, booking_confirmation,
  new_inbound_alert, eta_drift_alert, Channel, sms, Visit, Instant, visit_confirmed, Reason,
  Customer, in_app, visit_timing_recomputed, Table, Restaurant, visit_table_reassigned,
  visit_kitchen_accepted, visit_allergy_acknowledged, visit_food_out,
}
use raise.Notifications.{
  NotifyDeps, send_text, same_type, run_quietly, claim_then_send, send_booking_text,
  send_drift_alert_if_significant, notify, send_booking_confirmation, text_for,
  is_significant_drift, send_new_inbound_alert, drift_alert, booking_text,
}

abbrev pub is_inbound : Key → DomainEvent → Bool
is_inbound v (new_inbound r u) = u == v
is_inbound v _ = false

abbrev is_drift : Key → DomainEvent → Bool
is_drift v (eta_drift r u n) = u == v
is_drift v _ = false

-- How many notifications of a type have left for a visit.
abbrev pub sent_of : NotificationType → Key → World → ℕ
sent_of booking_confirmation v w = length (keep (λ s. s.visit_id == v) w.texted)
sent_of new_inbound_alert v w = length (keep (is_inbound v) w.emitted)
sent_of eta_drift_alert v w = length (keep (is_drift v) w.emitted)

-- At most one has left, and none if there is no claim.
abbrev pub AtMostOnce : NotificationType → Key → World → Type 0
AtMostOnce type v w = Once type v (sent_of type v) w

sent_of-db :
    (type : NotificationType) (v : Key) (w : World) (db : Db)
    → sent_of type v (record w { db = db }) ≡ sent_of type v w
sent_of-db booking_confirmation v w db = refl
sent_of-db new_inbound_alert v w db = refl
sent_of-db eta_drift_alert v w db = refl

module _ {A : Type 0} (p : A → Bool) (xs : List A) (x : A) where
  length-keep_hit : p x ≡ true → length (keep p (xs ++ x ∷ [])) ≡ suc (length (keep p xs))
  length-keep_hit h =
      rw (keep-append p xs (x ∷ []), h) (omega (arith, length-append (keep p xs) (x ∷ [])))

  length-keep_miss : p x ≡ false → length (keep p (xs ++ x ∷ [])) ≡ length (keep p xs)
  length-keep_miss h =
      rw (keep-append p xs (x ∷ []), h) (omega (arith, length-append (keep p xs) []))

module _ (deps : NotifyDeps) where
  text_counts :
      (type : NotificationType) (v : Key) (s : SmsMessage) (m : World)
      → sent_of type v (send_text documented deps s m).1 ≡ (
          if same_type booking_confirmation type && s.visit_id == v
          then suc (sent_of type v m)
          else sent_of type v m)
  text_counts booking_confirmation v s m = elim (Bool-cases (s.visit_id == v)) [
    | inl e ↦ rw e (length-keep_hit (λ t. t.visit_id == v) m.texted s e)
    | inr e ↦ rw e (length-keep_miss (λ t. t.visit_id == v) m.texted s e)
  ]
  text_counts new_inbound_alert v s m = refl
  text_counts eta_drift_alert v s m = refl

inbound_counts :
    (type : NotificationType) (v r u : Key) (m : World)
    → sent_of type v (emit (new_inbound r u) m).1 ≡ (
        if same_type new_inbound_alert type && u == v
        then suc (sent_of type v m)
        else sent_of type v m)
inbound_counts booking_confirmation v r u m = refl
inbound_counts new_inbound_alert v r u m = elim (Bool-cases (u == v)) [
  | inl e ↦ rw e (length-keep_hit (is_inbound v) m.emitted (new_inbound r u) e)
  | inr e ↦ rw e (length-keep_miss (is_inbound v) m.emitted (new_inbound r u) e)
]
inbound_counts eta_drift_alert v r u m =
    length-keep_miss (is_drift v) m.emitted (new_inbound r u) refl

drift_counts :
    (type : NotificationType) (v r u : Key) (n : ℤ) (m : World)
    → sent_of type v (emit (eta_drift r u n) m).1 ≡ (
        if same_type eta_drift_alert type && u == v
        then suc (sent_of type v m)
        else sent_of type v m)
drift_counts booking_confirmation v r u n m = refl
drift_counts new_inbound_alert v r u n m =
    length-keep_miss (is_inbound v) m.emitted (eta_drift r u n) refl
drift_counts eta_drift_alert v r u n m = elim (Bool-cases (u == v)) [
  | inl e ↦ rw e (length-keep_hit (is_drift v) m.emitted (eta_drift r u n) e)
  | inr e ↦ rw e (length-keep_miss (is_drift v) m.emitted (eta_drift r u n) e)
]

module _ (type : NotificationType) (v : Key) (deps : NotifyDeps)
    (elsewhere_once : (w : World) → AtMostOnce type v w → AtMostOnce type v (deps.others w)) where
  claim_kept :
      (r v' : Key) (type' : NotificationType) (channel : Channel) (send : M (Unit {0})) (w : World)
      → ((m : World)
          → sent_of type v (send m).1 ≡ (
              if same_type type' type && v' == v then suc (sent_of type v m) else sent_of type v m))
      → ((m : World) → (send m).1.db ≡ m.db)
      → AtMostOnce type v w
      → AtMostOnce type v (claim_then_send documented deps r v' type' channel send w).1
  claim_kept r v' type' channel send w counts kept o =
      elim (Bool-cases (same_type type' type && v' == v)) [
        | inl h ↦
            let same : type' ≡ type = same_type-eq type' type (ground arith) in
            let here : v' ≡ v = ground arith in
            rw (same, here)
              (own-Once type v (sent_of type v) (sent_of-db type v) deps elsewhere_once r channel
                send w (λ m. (rw h at (counts m), kept m)) o)
        | inr h ↦
            foreign-Once type v (sent_of type v) (sent_of-db type v) deps elsewhere_once r v' type'
              channel send w (λ m. (rw h at (counts m), kept m)) o
      ]

  quiet_kept :
      (work : M (Unit {0})) (w : World)
      → AtMostOnce type v (work w).1
      → AtMostOnce type v (run_quietly documented deps work w).1
  quiet_kept work w o = elim (Result-cases (work w).0) [ inl (u, e) ↦ rw e o | inr (f, e) ↦ rw e o ]

  text_kept :
      (r v' : Key) (s : Option SmsMessage) (w : World)
      → ((t : SmsMessage) → s ≡ some t → t.visit_id ≡ v')
      → AtMostOnce type v w
      → AtMostOnce type v (send_booking_text documented deps r v' s w).1
  text_kept r v' none w about o = o
  text_kept r v' (some s) w about o =
      claim_kept r v' booking_confirmation sms (send_text documented deps s) w
        (λ m.
          text_counts deps type v s m
          ∙ ap
              (λ (k : Key).
                if same_type booking_confirmation type && k == v
                then suc (sent_of type v m)
                else sent_of type v m)
              (about s refl))
        (λ m. refl) o

  booking_about :
      (v' : Key) (row : Visit) (a : Option Customer) (b : Option Table) (eta : Option Instant)
      (d : Option Restaurant) (t : SmsMessage)
      → booking_text documented deps v' row a b eta d ≡ some t
      → t.visit_id ≡ v'
  booking_about v' row none b eta d t h = ground arith
  booking_about v' row (some a) none eta d t h = ground arith
  booking_about v' row (some a) (some b) none d t h = ground arith
  booking_about v' row (some a) (some b) (some eta) none t h = ground arith
  booking_about v' row (some a) (some b) (some eta) (some d) t h = ground arith

  text_about :
      (v' : Key) (found : Option Visit) (w : World) (t : SmsMessage)
      → text_for documented deps v' found w ≡ some t
      → t.visit_id ≡ v'
  text_about v' none w t h = ground arith
  text_about v' (some row) w t h = booking_about v' row _ _ row.arrival_eta _ t h

  drift_kept :
      (r v' : Key) (drift_ms : ℤ) (w : World)
      → AtMostOnce type v w
      → AtMostOnce type v (send_drift_alert_if_significant documented deps r v' drift_ms w).1
  unfolding send_drift_alert_if_significant
  drift_kept r v' drift_ms w o =
      elim (Bool-cases (is_significant_drift deps.threshold_override drift_ms)) [
        | inr e ↦ rw e o
        | inl e ↦ rw e (
            claim_kept r v' eta_drift_alert in_app
              (emit (eta_drift r v' (deps.round_to_minutes drift_ms))) w
              (drift_counts type v r v' (deps.round_to_minutes drift_ms)) (λ m. refl) o)
      ]

  drift_alert_kept :
      (r v' : Key) (start : Instant) (previous : Option Instant) (reason : Reason) (w : World)
      → AtMostOnce type v w
      → AtMostOnce type v (drift_alert documented deps r v' start previous reason w).1
  drift_alert_kept r v' start none reason w o = o
  drift_alert_kept r v' start (some p) Reason.eta_changed w o =
      quiet_kept (send_drift_alert_if_significant documented deps r v' (start -ℤ p)) w
        (drift_kept r v' (start -ℤ p) w o)
  drift_alert_kept r v' start (some p) Reason.initial w o = o
  drift_alert_kept r v' start (some p) Reason.items_changed w o = o

  confirmed_kept :
      (r v' : Key) (w : World)
      → AtMostOnce type v w
      → AtMostOnce type v (notify documented deps (visit_confirmed r v') w).1
  unfolding notify send_booking_confirmation send_new_inbound_alert
  confirmed_kept r v' =
      >>=-keeps (λ w w'. AtMostOnce type v w → AtMostOnce type v w') (λ w m w' f g o. g (f o))
        (run_quietly documented deps (send_booking_confirmation documented deps r v')) _
        (λ w o.
          quiet_kept (send_booking_confirmation documented deps r v') w
            (text_kept r v' _ w (text_about v' _ w) o))
        (λ u w o. quiet_kept (send_new_inbound_alert documented deps r v') w (
          claim_kept r v' new_inbound_alert in_app (emit (new_inbound r v')) w
            (inbound_counts type v r v') (λ m. refl) o))

  notify_kept :
      (e : DomainEvent) (w : World)
      → AtMostOnce type v w
      → AtMostOnce type v (notify documented deps e w).1
  unfolding notify
  notify_kept (visit_confirmed r v') w o = confirmed_kept r v' w o
  notify_kept (visit_timing_recomputed r v' start out previous reason) w o =
      drift_alert_kept r v' start previous reason w o
  notify_kept (visit_table_reassigned r u old new staff) w o = o
  notify_kept (visit_kitchen_accepted r u at staff) w o = o
  notify_kept (visit_allergy_acknowledged r u at staff) w o = o
  notify_kept (visit_food_out r u at staff) w o = o
  notify_kept (new_inbound r u) w o = o
  notify_kept (eta_drift r u n) w o = o

-- Deliver events one after another.
abbrev pub notify_all : Client → NotifyDeps → List DomainEvent → World → World
notify_all c deps [] w = w
notify_all c deps (e ∷ es) w = notify_all c deps es (notify c deps e w).1

all_kept :
    (deps : NotifyDeps) (type : NotificationType) (v : Key)
    → ((w : World) → AtMostOnce type v w → AtMostOnce type v (deps.others w))
    → (es : List DomainEvent) (w : World) → AtMostOnce type v w
    → AtMostOnce type v (notify_all documented deps es w)
all_kept deps type v elsewhere_once [] w o = o
all_kept deps type v elsewhere_once (e ∷ es) w o =
    all_kept deps type v elsewhere_once es (notify documented deps e w).1
      (notify_kept type v deps elsewhere_once e w o)

-- No guest is texted twice: however often and in whatever order domain events are delivered, whether
-- sends succeed or fail, at most one booking confirmation, one inbound alert and one drift alert
-- leaves for a visit, if that held at the start and what other requests commit keeps it.
pub notify_all-AtMostOnce :
    (c : Client)
    → IsDocumented c
    → (deps : NotifyDeps) (type : NotificationType) (v : Key)
    → ((w : World) → AtMostOnce type v w → AtMostOnce type v (deps.others w))
    → (es : List DomainEvent) (w : World) → AtMostOnce type v w
    → AtMostOnce type v (notify_all c deps es w)
notify_all-AtMostOnce c l = rw (client-eq c l) all_kept
