-- ===== src/Kitchen/Acks.antt =====
-- The acknowledgment of the allergy flags of a visit.
use raise.Prelude.{◌≡◌, ◌++◌, ◌∷◌, [], none, some, true, false, arith, Option-cases, inl, inr, refl}
use raise.Visits.Stages.{visit_at}
use raise.Kitchen.{acknowledge_allergies, AcknowledgeResult, acknowledge_seen, ack_of}
use raise.Schema.{AllergyAck, Instant, Visit, visit_allergy_acknowledged}
use raise.World.{World, Result, ok, err, not_found, internal_error}
use raise.Store.{Key, Client, IsDocumented, documented, client-eq}

-- The four answers, by what the request read in `w` and what others left in `m` before its insert, each
-- with what it leaves in `w'`.
pub data AckAnswer (now : Instant) (r v staff : Key) (w m w' : World)
    : Result AcknowledgeResult → Type 0 where
  missing : visit_at r v w ≡ none → w' ≡ w → AckAnswer now r v staff w m w' (err not_found)
  known :
      (row : Visit) (a : AllergyAck)
      → visit_at r v w ≡ some row
      → w.db.allergy_acks.at v ≡ some a
      → w' ≡ w
      → AckAnswer now r v staff w m w'
          (ok (record { acknowledged_at = a.acknowledged_at; already_acknowledged = true }))
  recorded :
      (row : Visit)
      → visit_at r v w ≡ some row
      → w.db.allergy_acks.at v ≡ none
      → m.db.allergy_acks.at v ≡ none
      → w'.db.allergy_acks.at v
        ≡ some (record {
          restaurant_id = r;
          visit_id = v;
          acknowledged_at = now;
          staff_user_id = staff;
        })
      → ((i : Key) → (v ≡ i → ⊥) → w'.db.allergy_acks.at i ≡ m.db.allergy_acks.at i)
      → record (w'.db) { allergy_acks = m.db.allergy_acks } ≡ m.db
      → w'.emitted ≡ m.emitted ++ visit_allergy_acknowledged r v now staff ∷ []
      → AckAnswer now r v staff w m w'
          (ok (record { acknowledged_at = now; already_acknowledged = false }))
  overtaken :
      (row : Visit) (b : AllergyAck)
      → visit_at r v w ≡ some row
      → w.db.allergy_acks.at v ≡ none
      → m.db.allergy_acks.at v ≡ some b
      → w' ≡ m
      → AckAnswer now r v staff w m w' (err internal_error)

module _ (meanwhile : World → World) (now : Instant) (r v staff : Key) (w : World) where
  seen-AckAnswer :
      (row : Visit)
      → visit_at r v w ≡ some row
      → AckAnswer now r v staff w
          (meanwhile w)
          (acknowledge_seen documented meanwhile now r v staff (ack_of documented v w) w).1
          (acknowledge_seen documented meanwhile now r v staff (ack_of documented v w) w).0
  seen-AckAnswer row e = elim (Option-cases (w.db.allergy_acks.at v)) [
    | inr (a, f) ↦ rw f (known row a e f refl)
    | inl f ↦ elim (Option-cases ((meanwhile w).db.allergy_acks.at v)) [
      | inr (b, g) ↦ rw f (rw g (overtaken row b e f g refl))
      | inl g ↦ rw f (
          rw g
            (recorded row e f g (ground arith) (λ i n. ground arith) (ground arith) (ground arith)))
    ]
  ]

  ack_documented :
      AckAnswer now r v staff w
        (meanwhile w)
        (acknowledge_allergies documented meanwhile now r v staff w).1
        (acknowledge_allergies documented meanwhile now r v staff w).0
  unfolding acknowledge_allergies
  ack_documented = elim (Option-cases (visit_at r v w)) [
    | inl e ↦ rw e (missing e refl)
    | inr (row, e) ↦ rw e (seen-AckAnswer row e)
  ]

-- Acknowledging twice changes nothing: a request that reads an acknowledgment answers with it and writes
-- nothing, and one that reads none and meets none at its insert records its own and emits one event, with
-- all else as others left it. But a request that another overtakes between its read and its insert fails
-- with an internal error, although the acknowledgment that it was after is on record.
pub acknowledge_allergies-AckAnswer :
    (c : Client)
    → IsDocumented c
    → (meanwhile : World → World) (now : Instant) (r v staff : Key) (w : World)
    → AckAnswer now r v staff w
        (meanwhile w)
        (acknowledge_allergies c meanwhile now r v staff w).1
        (acknowledge_allergies c meanwhile now r v staff w).0
acknowledge_allergies-AckAnswer c l = rw (client-eq c l) ack_documented
