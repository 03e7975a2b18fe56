-- ===== src/Visits/NoTrace.antt =====
-- A `confirm` that books nothing leaves nothing behind.
use raise.Prelude.{
  Option, ◌≡◌, ◌⊎◌, refl, sym, ap, ◌∙◌, Bool, arith, Option-cases, true, false, inl, inr,
}
use raise.Store.{Key, Client, IsDocumented, documented, client-eq}
use raise.Schema.{Instant, Visit}
use raise.World.{World, Result-cases, ok, err, Result, internal_error}
use raise.Visits.{
  confirm, confirm_claim, confirm_tx, after_checks, to_confirmed_dto, VisitWithItemsAndTable,
  with_items_and_table, ConfirmVisitResponse, Others, ConfirmedVisitDto,
}
use raise.Visits.Stages.{
  visit_at, confirm_absent, confirm_present, confirm_claim-commit, confirm_claim-broken,
  confirm_claim-refused, confirm_tx_only_db, to_confirmed_dto-err, confirm_recover-world,
}

-- The worlds in which a request that writes nothing can end: as it began, or as other requests
-- left it.
abbrev pub Untouched : Others → World → World → Type 0
Untouched others w w' =
    (w' ≡ w) ⊎ (w' ≡ others.before_claim w) ⊎ (w' ≡ others.before_reread (others.before_claim w))

-- An answer that reports no new booking, and no internal error after a commit.
abbrev pub IsQuiet : Result ConfirmVisitResponse → Type 0
IsQuiet (ok x) = x.already_confirmed ≡ true
IsQuiet (err e) = e ≡ internal_error → ⊥

fresh_loud :
    (answer : Result ConfirmVisitResponse) (d : ConfirmedVisitDto)
    → answer ≡ ok (record { visit = d; already_confirmed = false })
    → IsQuiet answer
    → ⊥
fresh_loud (ok x) d e quiet = cc
fresh_loud (err f) d e quiet = cc

broken_loud :
    (answer : Result ConfirmVisitResponse) → answer ≡ err internal_error → IsQuiet answer → ⊥
broken_loud (ok x) e quiet = cc
broken_loud (err f) e quiet = quiet (ground arith)

module _ (others : Others) (now : Instant) (r v cust : Key) (w w' : World) where
  claim_quiet :
      (t : Option Key) (answer : Result ConfirmVisitResponse)
      → confirm_claim documented others now r v cust t w ≡ (answer, w')
      → IsQuiet answer
      → (out : Result VisitWithItemsAndTable × World)
      → confirm_tx documented now r v cust t (others.before_claim w) ≡ out
      → Untouched others w w'
  claim_quiet t answer h quiet (ok y, w1) q = elim (Result-cases (to_confirmed_dto y)) [
    | inl (d, p) ↦ absurd (
        fresh_loud answer d
          (ap (λ o. o.0) (sym h ∙ confirm_claim-commit others now r v cust w t y w1 d q p)) quiet)
    | inr (e, p) ↦ absurd (
        broken_loud answer
          (ap (λ o. o.0)
            (sym h
              ∙ confirm_claim-broken others now r v cust w t y w1 q
                  (rw (to_confirmed_dto-err y e p) at p)))
          quiet)
  ]
  claim_quiet t answer h quiet (err f, w1) q =
      let refused =
        sym h
        ∙ confirm_claim-refused others now r v cust w t f w1 q (
            sym (ap (λ o. record (o.1) { db = (others.before_claim w).db }) q)
            ∙ confirm_tx_only_db now r v cust t (others.before_claim w)) in
      elim (confirm_recover-world others now r v cust (others.before_claim w) f) [
        | inl e ↦ inr (inl (ap (λ o. o.1) refused ∙ e))
        | inr e ↦ inr (inr (ap (λ o. o.1) refused ∙ e))
      ]

  after_checks-quiet :
      (row : Visit) (checks : Result Bool) (answer : Result ConfirmVisitResponse)
      → after_checks documented others now r v cust (with_items_and_table documented row w) checks w
        ≡ (answer, w')
      → IsQuiet answer
      → Untouched others w w'
  after_checks-quiet row (ok true) answer h quiet = inl (ground arith)
  after_checks-quiet row (ok false) answer h quiet = claim_quiet row.table_id answer h quiet _ refl
  after_checks-quiet row (err f) answer h quiet = inl (ground arith)

confirm-quiet_documented :
    (others : Others) (now : Instant) (r v cust : Key) (w w' : World)
    (answer : Result ConfirmVisitResponse)
    → confirm documented others now r v cust w ≡ (answer, w')
    → IsQuiet answer
    → Untouched others w w'
confirm-quiet_documented others now r v cust w w' answer h quiet =
    elim (Option-cases (visit_at r v w)) [
      | inl e ↦ inl (ap (λ o. o.1) (sym h ∙ confirm_absent others now r v cust w e))
      | inr (row, e) ↦
          after_checks-quiet others now r v cust w w' row _ answer
            (sym (confirm_present others now r v cust w row e) ∙ h) quiet
    ]

-- Every other answer of `confirm` leaves no trace of its own: a conflict, a 404 and an idempotent
-- repeat end in the world as the request found it, or as other requests left it meanwhile; what the
-- transaction had claimed before it failed is rolled back. (An internal error is excluded: the
-- answer can fail to be built after the commit.)
pub confirm-Untouched :
    (c : Client)
    → IsDocumented c
    → (others : Others) (now : Instant) (r v cust : Key) (w w' : World)
      (answer : Result ConfirmVisitResponse)
    → confirm c others now r v cust w ≡ (answer, w')
    → IsQuiet answer
    → Untouched others w w'
confirm-Untouched c l = rw (client-eq c l) confirm-quiet_documented
