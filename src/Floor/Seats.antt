-- ===== src/Floor/Seats.antt =====
-- What a change of seats does to the exclusivity of the floor.
use raise.Visits.Retabled.{some_inj}
use raise.Schema.{Table, free, held, is_free, Visit}
use raise.Store.{Key}
use raise.Floor.{Exclusive, seat, seat_of}
use raise.World.{World}
use mathlib.Core.Path.{subst}
use raise.Prelude.{◌≡◌, some, Bool-cases, ◌==◌, inl, inr, arith, sym, ◌∙◌, ap, false, refl}

module _ (w w' : World) (ex : Exclusive w) where
  pub same_seats-Exclusive :
      ((i : Key) → seat w' i ≡ seat w i)
      → ((t : Key) → w'.db.tables.at t ≡ w.db.tables.at t)
      → Exclusive w'
  same_seats-Exclusive seats tables = record {
    taken = λ i t e.
        let (row, f, taken_still) = ex.taken i t (sym (seats i) ∙ e) in
        (row, tables t ∙ f, taken_still);
    alone = λ i j t e f. ex.alone i j t (sym (seats i) ∙ e) (sym (seats j) ∙ f);
  }

  module _ (v new : Key) (table : Table) (sits : seat w' v ≡ some new)
      (seats_else : (i : Key) → (v ≡ i → ⊥) → seat w' i ≡ seat w i)
      (found : w.db.tables.at new ≡ some table) (was_free : table.status ≡ free)
      (left : w'.db.tables.at new ≡ some (record table { status = held }))
      (tables_else : (t : Key)
        → (new ≡ t → ⊥)
        → (seat w v ≡ some t → ⊥)
        → w'.db.tables.at t ≡ w.db.tables.at t) where
    -- No one sat at the table that was free.
    free_unsat : (i : Key) → seat w i ≡ some new → ⊥
    free_unsat i e = let (row, f, not_free) = ex.taken i new e in ground arith

    seat_taken :
        (i t : Key)
        → seat w' i ≡ some t
        → (row : Table) × (w'.db.tables.at t ≡ some row) × (is_free row.status ≡ false)
    seat_taken i t e = elim (Bool-cases (v == i)) [
      | inl y ↦
          let same : v ≡ i = ground arith in
          let here : new ≡ t = some_inj (sym sits ∙ ap (seat w') same ∙ e) in
          (record table { status = held }, ap w'.db.tables.at (sym here) ∙ left, refl)
      | inr n ↦
          let other : v ≡ i → ⊥ = λ s. ground arith in
          let before : seat w i ≡ some t = sym (seats_else i other) ∙ e in
          let (row, f, not_free) = ex.taken i t before in
          (
            row,
            tables_else t (λ s. free_unsat i (before ∙ ap some (sym s)))
                  (λ s. other (ex.alone v i t s before))
                ∙ f,
            not_free,
          )
    ]

    seat_alone : (i j t : Key) → seat w' i ≡ some t → seat w' j ≡ some t → i ≡ j
    seat_alone i j t e f = elim (Bool-cases (v == i)) [
      | inl y ↦
          let same : v ≡ i = ground arith in
          elim (Bool-cases (v == j)) [
            | inl z ↦ ground arith
            | inr n ↦
                let here : new ≡ t = some_inj (sym sits ∙ ap (seat w') same ∙ e) in
                absurd
                  (free_unsat j (sym (seats_else j (λ s. ground arith)) ∙ f ∙ ap some (sym here)))
          ]
      | inr n ↦ elim (Bool-cases (v == j)) [
        | inl z ↦
            let same : v ≡ j = ground arith in
            let here : new ≡ t = some_inj (sym sits ∙ ap (seat w') same ∙ f) in
            absurd (free_unsat i (sym (seats_else i (λ s. ground arith)) ∙ e ∙ ap some (sym here)))
        | inr m ↦
            ex.alone i j t (sym (seats_else i (λ s. ground arith)) ∙ e)
              (sym (seats_else j (λ s. ground arith)) ∙ f)
      ]
    ]

    pub sits-Exclusive : Exclusive w'
    sits-Exclusive = record { taken = seat_taken; alone = seat_alone }

-- One row is replaced by a row with the same seat.
pub same_row_seats :
    (w w' : World) (v : Key) (row row' : Visit)
    → w.db.visits.at v ≡ some row
    → w'.db.visits.at v ≡ some row'
    → ((i : Key) → (v ≡ i → ⊥) → w'.db.visits.at i ≡ w.db.visits.at i)
    → seat_of (some row') ≡ seat_of (some row)
    → (i : Key) → seat w' i ≡ seat w i
same_row_seats w w' v row row' found left visits_else same i = elim (Bool-cases (v == i)) [
  | inl y ↦
      let here : v ≡ i = ground arith in
      subst (λ k. seat w' k ≡ seat w k) here (ap seat_of left ∙ same ∙ sym (ap seat_of found))
  | inr n ↦ ap seat_of (visits_else i (λ s. ground arith))
]
