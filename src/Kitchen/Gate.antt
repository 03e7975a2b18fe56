-- ===== src/Kitchen/Gate.antt =====
-- The allergy gate and the one write path to `food_out`.
use raise.World.{SameButVisits}
use raise.Prelude.{◌≡◌, ◌||◌, arith, Option-cases, ◌⊎◌, inl, inr, ◌++◌, refl, ◌∷◌}
use raise.Store.{IsDocumented, documented, select, client-eq}
use raise.Kitchen.{
  mark_food_out, serve, Bool, Instant, World, Client, Visit, Key, Option, food_out, AllergyAck, any,
  ok, not, is_flagged, some, is_some, items_of, served_now, false, true, none, kitchen_started,
  rejected, allergy_not_acknowledged, staff_actor, kitchen_food_out_endpoint, [], visit_food_out,
}
use raise.Visits.Stages.{visit_at}

abbrev pub served_row : Instant → Visit → Visit
served_row now v = record v { status = food_out; updated_at = now }

-- What a served order found at the gate in `w` and at the write in `m`, and left in `w'`.
pub record Served (now : Instant) (r v staff : Key) (w m w' : World) : Type 0 where
  pub gate :
      (any is_flagged (items_of documented v w) ≡ false)
      ⊎ ((a : AllergyAck) × (w.db.allergy_acks.at v ≡ some a))
  pub visit : Visit
  pub found : visit_at r v m ≡ some visit
  pub was_started : visit.status ≡ kitchen_started
  pub left : w'.db.visits.at v ≡ some (served_row now visit)
  pub visits_else : (i : Key) → (v ≡ i → ⊥) → w'.db.visits.at i ≡ m.db.visits.at i
  pub rest_kept : SameButVisits m w'
  pub audited :
      w'.db.status_events
      ≡ m.db.status_events
        ++ record {
          restaurant_id = r;
          visit_id = v;
          status = food_out;
          occurred_at = now;
          actor_type = staff_actor;
          actor_id = staff;
          mechanism = kitchen_food_out_endpoint;
        }
          ∷ []
  pub told : w'.emitted ≡ m.emitted ++ visit_food_out r v now staff ∷ []

gate_or_ack :
    (flagged : Bool) (ack : Option AllergyAck)
    → not flagged || is_some (select (λ _. true) ack) ≡ true
    → (flagged ≡ false) ⊎ ((a : AllergyAck) × (ack ≡ some a))
gate_or_ack false ack h = inl refl
gate_or_ack true none h = cc
gate_or_ack true (some a) h = inr (a, refl)

module _ (meanwhile : World → World) (now : Instant) (r v staff : Key) (w w' : World) where
  served_passed :
      (t : Instant)
      → mark_food_out documented meanwhile now r v staff w ≡ (ok (served_now t), w')
      → not (any is_flagged (items_of documented v w))
          || is_some (select (λ _. true) (w.db.allergy_acks.at v))
        ≡ true
  unfolding mark_food_out
  served_passed t h = ground arith

  reaches_serve :
      (t : Instant)
      → mark_food_out documented meanwhile now r v staff w ≡ (ok (served_now t), w')
      → serve documented now r v staff (meanwhile w) ≡ (ok (served_now t), w')
  unfolding mark_food_out
  reaches_serve t h = ground arith

serve-Served :
    (now t : Instant) (r v staff : Key) (w m w' : World)
    → (any is_flagged (items_of documented v w) ≡ false)
      ⊎ ((a : AllergyAck) × (w.db.allergy_acks.at v ≡ some a))
    → serve documented now r v staff m ≡ (ok (served_now t), w')
    → Served now r v staff w m w'
unfolding serve
serve-Served now t r v staff w m w' gate h = elim (Option-cases (m.db.visits.at v)) [
  | inl e ↦ absurd (ground arith)
  | inr (row, e) ↦ record {
    gate = gate;
    visit = row;
    found = ground arith;
    was_started = ground arith;
    left = ground arith;
    visits_else = λ i n. ground arith;
    rest_kept = ground arith;
    audited = ground arith;
    told = ground arith;
  }
]

-- No order with an allergy flag is served without an acknowledgment: when `markFoodOut` reports a
-- fresh service, the gate met no flag on any item of the visit or an acknowledgment on record, and
-- the write met a visit that the kitchen had started. It leaves that visit out, every other visit as
-- it was, one audit event and one domain event more, whatever else commits between gate and write.
pub mark_food_out-Served :
    (c : Client)
    → IsDocumented c
    → (meanwhile : World → World) (now t : Instant) (r v staff : Key) (w w' : World)
    → mark_food_out c meanwhile now r v staff w ≡ (ok (served_now t), w')
    → Served now r v staff w (meanwhile w) w'
mark_food_out-Served c l = rw (client-eq c l) λ meanwhile now t r v staff w w' h.
    serve-Served now t r v staff w (meanwhile w) w'
      (gate_or_ack _ _ (served_passed meanwhile now r v staff w w' t h))
      (reaches_serve meanwhile now r v staff w w' t h)

blocked_documented :
    (meanwhile : World → World) (now : Instant) (r v staff : Key) (w : World) (row : Visit)
    → visit_at r v w ≡ some row
    → any is_flagged (items_of documented v w) ≡ true
    → w.db.allergy_acks.at v ≡ none
    → mark_food_out documented meanwhile now r v staff w
      ≡ (ok (rejected allergy_not_acknowledged), w)
unfolding mark_food_out
blocked_documented meanwhile now r v staff w row e f a = ground arith

-- The gate closes: a flagged order with no acknowledgment is refused with the reason that says so, in
-- whatever state the visit is, and nothing is written.
mark_food_out_blocked :
    (c : Client)
    → IsDocumented c
    → (meanwhile : World → World) (now : Instant) (r v staff : Key) (w : World) (row : Visit)
    → visit_at r v w ≡ some row
    → any is_flagged (items_of c v w) ≡ true
    → w.db.allergy_acks.at v ≡ none
    → mark_food_out c meanwhile now r v staff w ≡ (ok (rejected allergy_not_acknowledged), w)
mark_food_out_blocked c l = rw (client-eq c l) blocked_documented
