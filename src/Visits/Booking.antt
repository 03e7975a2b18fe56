-- ===== src/Visits/Booking.antt =====
-- What `confirm` promises its caller, whatever other requests do while it awaits.
use raise.Prelude.{
  Option, some, ◌≡◌, refl, sym, ap, ◌∙◌, Bool, arith, ◌++◌, ◌∷◌, [], Option-cases, true, false, inl,
  inr,
}
use raise.Store.{Key, Client, IsDocumented, documented, client-eq}
use raise.Schema.{Instant, Visit, visit_confirmed}
use raise.World.{World, Result-cases, ok, err, Result}
use raise.Visits.{
  confirm, confirm_claim, confirm_tx, after_checks, confirm_checks, to_confirmed_dto,
  VisitWithItemsAndTable, with_items_and_table, ConfirmVisitResponse, Others, ConfirmedVisitDto,
}
use raise.Visits.Stages.{
  visit_at, confirm_absent, confirm_present, confirm_claim-commit, confirm_claim-broken,
  confirm_claim-refused, confirm_recover-ok, confirm_tx_only_db, to_confirmed_dto-err,
}
use raise.Visits.Claims.{Claimed, confirm_tx-Claimed, confirm_tx-read_back, confirmed_row}

-- A confirmation that was not there before: what the request read, and what it committed.
pub record FreshlyConfirmed (c : Client) (others : Others) (now : Instant)
    (restaurant_id visit_id customer_id : Key) (w w' : World) (booking : ConfirmedVisitDto)
    : Type 0 where
  pub read : Visit
  pub read_found : visit_at restaurant_id visit_id w ≡ some read
  pub checked : confirm_checks (with_items_and_table c read w) customer_id ≡ ok false
  pub committed : World
  pub claimed :
      Claimed now restaurant_id visit_id customer_id read.table_id (others.before_claim w) committed
  pub answered :
      to_confirmed_dto
        (with_items_and_table c (confirmed_row now customer_id claimed.visit) committed)
      ≡ ok booking
  pub told : w' ≡ record committed {
    emitted = committed.emitted ++ visit_confirmed restaurant_id visit_id ∷ [];
  }

commit_booking :
    (x : ConfirmVisitResponse) (d : ConfirmedVisitDto)
    → ok x ≡ ok (record { visit = d; already_confirmed = false })
    → d ≡ x.visit
commit_booking x d e = ground arith

module _ (others : Others) (now : Instant) (r v cust : Key) (w w' : World) where
  -- A claim that reports a new booking has committed one.
  claim_fresh :
      (t : Option Key) (x : ConfirmVisitResponse)
      → confirm_claim documented others now r v cust t w ≡ (ok x, w')
      → x.already_confirmed ≡ false
      → (out : Result VisitWithItemsAndTable × World)
      → confirm_tx documented now r v cust t (others.before_claim w) ≡ out
      → (w1 : World) × Claimed now r v cust t (others.before_claim w) w1
        × (y : VisitWithItemsAndTable) × (confirm_tx documented now r v cust t
              (others.before_claim w)
            ≡ (ok y, w1))
        × (to_confirmed_dto y ≡ ok x.visit)
        × (w' ≡ record w1 { emitted = w1.emitted ++ visit_confirmed r v ∷ [] })
  claim_fresh t x h fresh (ok y, w1) q = elim (Result-cases (to_confirmed_dto y)) [
    | inl (d, p) ↦ (
      w1,
      confirm_tx-Claimed now r v cust t (others.before_claim w) w1 y q,
      y,
      q,
      p
          ∙ ap ok (
              commit_booking x d
                (ap (λ o. o.0) (sym h ∙ confirm_claim-commit others now r v cust w t y w1 d q p))),
      cc (confirm_claim-commit others now r v cust w t y w1 d q p),
    )
    | inr (e, p) ↦
        cc (
          confirm_claim-broken others now r v cust w t y w1 q
            (rw (to_confirmed_dto-err y e p) at p))
  ]
  claim_fresh t x h fresh (err f, w1) q =
      let refused = confirm_claim-refused others now r v cust w t f w1 q (
        sym (ap (λ o. record (o.1) { db = (others.before_claim w).db }) q)
        ∙ confirm_tx_only_db now r v cust t (others.before_claim w)) in
      cc (
        (confirm_recover-ok others now r v cust (others.before_claim w) f x w' (sym refused ∙ h)).5)

  after_checks-fresh :
      (row : Visit)
      → visit_at r v w ≡ some row
      → (checks : Result Bool)
      → confirm_checks (with_items_and_table documented row w) cust ≡ checks
      → (x : ConfirmVisitResponse)
      → after_checks documented others now r v cust (with_items_and_table documented row w) checks w
        ≡ (ok x, w')
      → x.already_confirmed ≡ false
      → FreshlyConfirmed documented others now r v cust w w' x.visit
  after_checks-fresh row e (ok true) q x h fresh = ground arith
  after_checks-fresh row e (ok false) q x h fresh =
      let (w1, claimed, y, q', p, told) = claim_fresh row.table_id x h fresh _ refl in
      record {
        read = row;
        read_found = e;
        checked = q;
        committed = w1;
        claimed = claimed;
        answered =
            rw
              (sym (
                confirm_tx-read_back now r v cust row.table_id (others.before_claim w) w1 y q'
                  claimed.visit claimed.visit_found))
              p;
        told = told;
      }
  after_checks-fresh row e (err f) q x h fresh = cc

confirm-fresh_documented :
    (others : Others) (now : Instant) (r v cust : Key) (w w' : World) (x : ConfirmVisitResponse)
    → confirm documented others now r v cust w ≡ (ok x, w')
    → x.already_confirmed ≡ false
    → FreshlyConfirmed documented others now r v cust w w' x.visit
confirm-fresh_documented others now r v cust w w' x h fresh = elim (Option-cases (visit_at r v w)) [
  | inl e ↦ cc (confirm_absent others now r v cust w e)
  | inr (row, e) ↦
      after_checks-fresh others now r v cust w w' row e _ refl x
        (sym (confirm_present others now r v cust w row e) ∙ h) fresh
]

-- A confirmation that `confirm` reports as new was decided on a row that passed every check, and was
-- committed by one transaction that found the visit still a draft and the table that was read free,
-- and left the visit confirmed for this customer, that table held, one audit event more, and every
-- other visit and table as it found them. One `visit.confirmed` event is emitted after the commit.
-- All this holds whatever other requests do between the read and the transaction.
pub confirm-FreshlyConfirmed :
    (c : Client)
    → IsDocumented c
    → (others : Others) (now : Instant) (r v cust : Key) (w w' : World) (x : ConfirmVisitResponse)
    → confirm c others now r v cust w ≡ (ok x, w')
    → x.already_confirmed ≡ false
    → FreshlyConfirmed c others now r v cust w w' x.visit
confirm-FreshlyConfirmed c l = rw (client-eq c l) confirm-fresh_documented
