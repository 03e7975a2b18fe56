-- ===== src/Notifications/Once.antt =====
-- At most one notification of a type for a visit, however often its event is delivered.
use raise.Notifications.{
  NotifyDeps, mark_log, with_logs, claim_then_send, same_type, send_claimed, pending_log,
  claimed_log, after_claim,
}
use raise.Prelude.{
  ◌≡◌, none, arith, some, Bool-cases, Option-cases, true, ◌∙◌, inl, Option, inr, refl,
}
use Prim.Native.Nat.{ℕ, ◌≤◌, suc}
use raise.World.{World, M, for_restaurant, Result-cases, ◌>>=◌}
use raise.Store.{Key, Rows, documented}
use raise.Schema.{
  NotificationType, Db, NotificationLog, Channel, sent, failed, booking_confirmation,
  new_inbound_alert, eta_drift_alert,
}

pub same_type-eq : (a b : NotificationType) → same_type a b ≡ true → a ≡ b
same_type-eq a b h = ground arith

same_type_self : (a : NotificationType) → same_type a a ≡ true
same_type_self booking_confirmation = refl
same_type_self new_inbound_alert = refl
same_type_self eta_drift_alert = refl

module _ (type : NotificationType) (v : Key) (count : World → ℕ) where
  -- One send at most, and none without a claim.
  abbrev pub Once : World → Type 0
  Once w = (count w ≤ 1) × ((w.db.notification_logs type).at v ≡ none → count w ≡ 0)

  Once-step :
      (w w' : World)
      → Once w
      → count w' ≡ count w
      → ((w'.db.notification_logs type).at v ≡ none → (w.db.notification_logs type).at v ≡ none)
      → Once w'
  Once-step w w' (few, unsent) same grow =
      (omega (arith, few, same), λ e. omega (arith, same, unsent (grow e)))

  module _ (blind : (w : World) (db : Db) → count (record w { db = db }) ≡ count w)
      (deps : NotifyDeps) (elsewhere_once : (w : World) → Once w → Once (deps.others w)) where
    create_grows :
        (type' : NotificationType) (v' : Key) (l : NotificationLog) (rows : Rows NotificationLog)
        (w : World)
        → documented.create (w.db.notification_logs type') v' l ≡ some rows
        → ((with_logs type' rows w).db.notification_logs type).at v ≡ none
        → (w.db.notification_logs type).at v ≡ none
    create_grows type' v' l rows w e h =
        elim (Option-cases ((w.db.notification_logs type').at v')) [
          | inr (old, q) ↦ absurd (ground arith)
          | inl q ↦ elim (Bool-cases (same_type type' type)) [
            | inl s ↦ let same = same_type-eq type' type s in ground arith
            | inr s ↦ ground arith
          ]
        ]

    mark_grows :
        (type' : NotificationType) (v' : Key) (change_log : NotificationLog → NotificationLog)
        (w : World)
        → ((mark_log documented deps type' v' change_log w).1.db.notification_logs type).at v ≡ none
        → (w.db.notification_logs type).at v ≡ none
    mark_grows type' v' change_log w h = elim (Bool-cases (same_type type' type)) [
      | inl s ↦
          let same = same_type-eq type' type s in
          elim (Option-cases ((w.db.notification_logs type).at v)) [
            | inl q ↦ q
            | inr (old, q) ↦ absurd (ground arith)
          ]
      | inr s ↦ ground arith
    ]

    mark-Once :
        (type' : NotificationType) (v' : Key) (change_log : NotificationLog → NotificationLog)
        (w : World)
        → Once w
        → Once (mark_log documented deps type' v' change_log w).1
    mark-Once type' v' change_log w o =
        Once-step w _ o (blind w _) (mark_grows type' v' change_log w)

    -- What is sent under a claim, from the send on.
    send-Once :
        (type' : NotificationType) (v' : Key) (send : M (Unit {0})) (w : World)
        → Once (send w).1
        → Once (send_claimed documented deps type' v' send w).1
    send-Once type' v' send w o = elim (Result-cases (send w).0) [
      | inl (u, e) ↦ rw e (
          mark-Once type' v' (λ l. record l { status = sent; sent_at = some deps.now })
            (deps.others (send w).1) (elsewhere_once (send w).1 o))
      | inr (f, e) ↦ rw e (mark-Once type' v' (λ l. record l { status = failed }) (send w).1 o)
    ]

    claimed-Once :
        (r : Key) (type' : NotificationType) (v' : Key) (send : M (Unit {0})) (w : World)
        (o : Option (Rows NotificationLog))
        → ((rows : Rows NotificationLog) → o ≡ some rows → Once (send (with_logs type' rows w)).1)
        → Once w
        → Once
            ((for_restaurant (λ x. claimed_log documented deps type' x o)
                >>= after_claim documented deps type' v' send)
              w).1
    claimed-Once r type' v' send w none sends o = o
    claimed-Once r type' v' send w (some rows) sends o =
        send-Once type' v' send (with_logs type' rows w) (sends rows refl)

    claim-Once :
        (r v' : Key) (type' : NotificationType) (channel : Channel) (send : M (Unit {0}))
        (w : World)
        → ((rows : Rows NotificationLog)
            → documented.create
                (w.db.notification_logs type')
                v'
                (pending_log documented deps r v' channel)
              ≡ some rows
            → Once (send (with_logs type' rows w)).1)
        → Once w
        → Once (claim_then_send documented deps r v' type' channel send w).1
    unfolding claim_then_send
    claim-Once r v' type' channel send w sends o = claimed-Once r type' v' send w _ sends o

    -- A send that is not counted.
    pub foreign-Once :
        (r v' : Key) (type' : NotificationType) (channel : Channel) (send : M (Unit {0}))
        (w : World)
        → ((m : World) → (count (send m).1 ≡ count m) × ((send m).1.db ≡ m.db))
        → Once w
        → Once (claim_then_send documented deps r v' type' channel send w).1
    foreign-Once r v' type' channel send w uncounted o =
        claim-Once r v' type' channel send w
          (λ rows e.
            let (same, kept) = uncounted (with_logs type' rows w) in
            Once-step w _ o (same ∙ blind w _) λ h. create_grows type' v' _ rows w e (rw kept at h))
          o

    create_first :
        (l : NotificationLog) (rows : Rows NotificationLog) (w : World)
        → documented.create (w.db.notification_logs type) v l ≡ some rows
        → ((w.db.notification_logs type).at v ≡ none)
          × (((with_logs type rows w).db.notification_logs type).at v ≡ some l)
    create_first l rows w e =
        let own = same_type_self type in
        elim (Option-cases ((w.db.notification_logs type).at v)) [
          | inr (old, q) ↦ absurd (ground arith)
          | inl q ↦ (q, ground arith)
        ]

    -- A send that counts for this visit, under the claim of its own type.
    pub own-Once :
        (r : Key) (channel : Channel) (send : M (Unit {0})) (w : World)
        → ((m : World) → (count (send m).1 ≡ suc (count m)) × ((send m).1.db ≡ m.db))
        → Once w
        → Once (claim_then_send documented deps r v type channel send w).1
    own-Once r channel send w counted o =
        claim-Once r v type channel send w
          (λ rows e.
            let (first, logged) = create_first _ rows w e in
            let (one_more, kept) = counted (with_logs type rows w) in
            let none_yet = o.1 first in
            (
              omega (arith, one_more, blind w (with_logs type rows w).db, none_yet),
              λ h. absurd (cc (rw kept at h, logged)),
            ))
          o
