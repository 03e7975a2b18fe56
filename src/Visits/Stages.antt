-- ===== src/Visits/Stages.antt =====
-- `confirm` taken apart: the read, the checks, the claim and the recovery, one equation each.
use raise.Prelude.{
  Option, none, some, ◌≡◌, ◌⊎◌, inl, inr, Option-cases, arith, ◌++◌, ◌∷◌, [], true, false, ◌==◌,
}
use raise.Store.{Key, documented, select}
use raise.Schema.{confirmed, Instant, Visit, visit_confirmed}
use raise.World.{World, ok, err, Failure, internal_error, not_found, visit_claim_lost_error}
use raise.Visits.{
  confirm, confirm_tx, confirm_claim, confirm_recover, after_checks, confirm_checks,
  to_confirmed_dto, VisitWithItemsAndTable, with_items_and_table, ConfirmVisitResponse,
  ConfirmedVisitDto, Others,
}

-- The row that `getVisitOrThrow` finds.
abbrev pub visit_at : Key → Key → World → Option Visit
visit_at r v w = select (λ row. row.restaurant_id == r) (w.db.visits.at v)

pub visit_at_here :
    (r v : Key) (w : World) (row : Visit) → visit_at r v w ≡ some row → row.restaurant_id ≡ r
visit_at_here r v w row e = ground arith

module _ (others : Others) (now : Instant) (r v cust : Key) (w : World) where
  pub confirm_absent :
      visit_at r v w ≡ none → confirm documented others now r v cust w ≡ (err not_found, w)
  unfolding confirm
  confirm_absent e = ground arith

  pub confirm_present :
      (row : Visit)
      → visit_at r v w ≡ some row
      → confirm documented others now r v cust w
        ≡ after_checks documented others now r v cust
            (with_items_and_table documented row w)
            (confirm_checks (with_items_and_table documented row w) cust)
            w
  unfolding confirm
  confirm_present row e = ground arith

  pub confirm_claim-commit :
      (t : Option Key) (y : VisitWithItemsAndTable) (w1 : World) (d : ConfirmedVisitDto)
      → confirm_tx documented now r v cust t (others.before_claim w) ≡ (ok y, w1)
      → to_confirmed_dto y ≡ ok d
      → confirm_claim documented others now r v cust t w ≡ (
        ok (record { visit = d; already_confirmed = false }),
        record w1 { emitted = w1.emitted ++ visit_confirmed r v ∷ [] },
      )
  unfolding confirm_claim confirm_recover
  confirm_claim-commit t y w1 d q p = ground arith

  pub confirm_claim-broken :
      (t : Option Key) (y : VisitWithItemsAndTable) (w1 : World)
      → confirm_tx documented now r v cust t (others.before_claim w) ≡ (ok y, w1)
      → to_confirmed_dto y ≡ err internal_error
      → confirm_claim documented others now r v cust t w
        ≡ (err internal_error, record w1 { emitted = w1.emitted ++ visit_confirmed r v ∷ [] })
  unfolding confirm_claim confirm_recover
  confirm_claim-broken t y w1 q p = ground arith

  pub confirm_claim-refused :
      (t : Option Key) (f : Failure) (w1 : World)
      → confirm_tx documented now r v cust t (others.before_claim w) ≡ (err f, w1)
      → record w1 { db = (others.before_claim w).db } ≡ others.before_claim w
      → confirm_claim documented others now r v cust t w
        ≡ confirm_recover documented others.before_reread r v cust f (others.before_claim w)
  unfolding confirm_claim
  confirm_claim-refused t f w1 q p = ground arith

  pub confirm_recover-world :
      (f : Failure)
      → ((confirm_recover documented others.before_reread r v cust f w).1 ≡ w)
        ⊎ ((confirm_recover documented others.before_reread r v cust f w).1
            ≡ others.before_reread w)
  unfolding confirm_recover
  confirm_recover-world f = ground arith

  -- What the recovery reports as success is a visit that is confirmed for this customer.
  pub confirm_recover-ok :
      (f : Failure) (x : ConfirmVisitResponse) (w' : World)
      → confirm_recover documented others.before_reread r v cust f w ≡ (ok x, w')
      → (row : Visit) × (w' ≡ others.before_reread w)
        × (visit_at r v w' ≡ some row)
        × (row.status ≡ confirmed)
        × (row.customer_id ≡ some cust)
        × (x.already_confirmed ≡ true)
  unfolding confirm_recover
  confirm_recover-ok visit_claim_lost_error x w' h =
      elim (Option-cases (visit_at r v (others.before_reread w))) [
        | inl e ↦ ground arith
        | inr (row, e) ↦
            let same : w' ≡ others.before_reread w = ground arith in
            (row, same, rw same e, ground arith, ground arith, ground arith)
      ]
  confirm_recover-ok _ x w' h = ground arith

-- The transaction writes nothing but the tables.
pub confirm_tx_only_db :
    (now : Instant) (r v cust : Key) (t : Option Key) (w : World)
    → record (confirm_tx documented now r v cust t w).1 { db = w.db } ≡ w
unfolding confirm_tx
confirm_tx_only_db now r v cust none w = ground arith
confirm_tx_only_db now r v cust (some t) w = ground arith

pub to_confirmed_dto-err :
    (v : VisitWithItemsAndTable) (e : Failure) → to_confirmed_dto v ≡ err e → e ≡ internal_error
unfolding to_confirmed_dto
to_confirmed_dto-err v e h = ground arith
