-- ===== src/Reassignment/Outcomes.antt =====
-- The answers of `reassign`, whatever other requests do between its read and its transaction.
use raise.World.{stale_update, Result-cases}
use raise.Prelude.{
  Option-cases, ◌≡◌, some, arith, false, ◌++◌, true, Bool-cases, ◌∷◌, ◌==◌, [], inl, inr, ◌⊎◌,
}
use raise.Store.{Key, documented, Client, IsDocumented, client-eq}
use raise.World.{
  World, Result, Failure, ok, err, reassign_conflict, ReassignTableRejectionReason,
  table_taken_error, stale_visit_table_error,
}
use raise.Schema.{Instant, Visit, visit_table_reassigned}
use raise.Reassignment.{reassign, reassign_tx, reassign_move, reassign_recover, is_active}
use raise.Visits.Stages.{visit_at}

pub tx_eq : {A : Type 0} (p : Result A × World) (x : Result A) → p.0 ≡ x → p ≡ (x, p.1)
tx_eq p x e = ground arith

module _ (others : World → World) (now : Instant) (r v new staff : Key) (w : World) where
  reassign_present :
      (row : Visit) (old : Key)
      → visit_at r v w ≡ some row
      → is_active row.status ≡ true
      → row.table_id ≡ some old
      → (old ≡ new → ⊥)
      → reassign documented others now r v new staff w
        ≡ reassign_move documented others now r v old new staff w
  unfolding reassign
  reassign_present row old e a t n = elim (Bool-cases (old == new)) [
    | inl same ↦ absurd (n (ground arith))
    | inr other ↦ rw (e, a, t, other)
  ]

  reassign_settled :
      (f : Failure) (w' : World)
      → reassign documented others now r v new staff w ≡ (err f, w')
      → (w' ≡ w)
        ⊎ ((old : Key) × (reassign_move documented others now r v old new staff w ≡ (err f, w')))
  unfolding reassign
  reassign_settled f w' h = elim (Option-cases (visit_at r v w)) [
    | inl e ↦ inl (ground arith)
    | inr (row, e) ↦ elim (Bool-cases (is_active row.status)) [
      | inr a ↦ inl (ground arith)
      | inl a ↦ elim (Option-cases row.table_id) [
        | inl t ↦ inl (ground arith)
        | inr (old, t) ↦ elim (Bool-cases (old == new)) [
          | inl same ↦ absurd (ground arith)
          | inr differ ↦ inr (old, ground arith)
        ]
      ]
    ]
  ]

  pub reassign_move-committed :
      (old : Key) (w1 : World)
      → reassign_tx documented now r v old new (others w) ≡ (ok tt, w1)
      → reassign_move documented others now r v old new staff w ≡ (
        ok (record { visit_id = v; table_id = new; already_assigned = false }),
        record w1 { emitted = w1.emitted ++ visit_table_reassigned r v old new staff ∷ [] },
      )
  unfolding reassign_move reassign_recover
  reassign_move-committed old w1 q = ground arith

  pub reassign_move-refused :
      (old : Key) (f : Failure) (w1 : World)
      → reassign_tx documented now r v old new (others w) ≡ (err f, w1)
      → record w1 { db = (others w).db } ≡ others w
      → (g : Failure) × (reassign_move documented others now r v old new staff w
          ≡ (err g, others w))
  unfolding reassign_move reassign_recover
  reassign_move-refused old table_taken_error w1 q p =
      (reassign_conflict ReassignTableRejectionReason.table_taken, ground arith)
  reassign_move-refused old stale_visit_table_error w1 q p =
      (reassign_conflict stale_update, ground arith)
  reassign_move-refused old f w1 q p = (f, ground arith)

pub reassign_tx_only_db :
    (now : Instant) (r v old new : Key) (w : World)
    → record (reassign_tx documented now r v old new w).1 { db = w.db } ≡ w
unfolding reassign_tx
reassign_tx_only_db now r v old new w = ground arith

move_untouched :
    (others : World → World) (now : Instant) (r v old new staff : Key) (w w' : World) (f : Failure)
    → reassign_move documented others now r v old new staff w ≡ (err f, w')
    → w' ≡ others w
move_untouched others now r v old new staff w w' f h =
    let silent = reassign_tx_only_db now r v old new (others w) in
    elim (Result-cases (reassign_tx documented now r v old new (others w)).0) [
      | inl (u, e) ↦
          let c = reassign_move-committed others now r v new staff w old _ (tx_eq _ _ e) in
          absurd (ground arith)
      | inr (g, e) ↦
          let (q, m) =
            reassign_move-refused others now r v new staff w old g _ (tx_eq _ _ e) silent in
          ground arith
    ]

untouched_documented :
    (others : World → World) (now : Instant) (r v new staff : Key) (w w' : World) (f : Failure)
    → reassign documented others now r v new staff w ≡ (err f, w')
    → (w' ≡ w) ⊎ (w' ≡ others w)
untouched_documented others now r v new staff w w' f h =
    elim (reassign_settled others now r v new staff w f w' h) [
      | inl e ↦ inl e
      | inr (old, m) ↦ inr (move_untouched others now r v old new staff w w' f m)
    ]

-- A refused reassignment leaves no trace: whatever other requests commit between the read and the
-- transaction, an error ends in the world as found or as they left it, so a table that was claimed for
-- a visit that had moved on is free again, and no event is emitted.
reassign_refused :
    (c : Client)
    → IsDocumented c
    → (others : World → World) (now : Instant) (r v new staff : Key) (w w' : World) (f : Failure)
    → reassign c others now r v new staff w ≡ (err f, w')
    → (w' ≡ w) ⊎ (w' ≡ others w)
reassign_refused c l = rw (client-eq c l) untouched_documented
