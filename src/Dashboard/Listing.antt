-- ===== src/Dashboard/Listing.antt =====
-- What the loaded list shows: for each key, the visit of that key as the database has it.
use raise.Schema.{Visit}
use raise.Dashboard.{to_visit_dto, DashboardVisitDto, is_listed, collect, list_inbound_visits}
use raise.Store.{Key, Client, select, rows_at, IsDocumented, documented, client-eq}
use raise.World.{World, table_of}
use mathlib.Core.Path.{subst}
use raise.Prelude.{
  ◌≡◌, Option, none, some, List, [], ◌∷◌, Any, inl, inr, find, Option-cases, Bool-cases, arith,
  true, false, ◌==◌, sym, ◌∙◌, ap, refl, Bool,
}

-- A rearrangement, as ORDER BY gives it: the same rows.
abbrev pub Rearranges : (List Visit → List Visit) → Type 0
Rearranges order_by =
    (vs : List Visit) (v : Visit)
    → (Any (λ x. x ≡ v) (order_by vs) → Any (λ x. x ≡ v) vs)
      × (Any (λ x. x ≡ v) vs → Any (λ x. x ≡ v) (order_by vs))

-- Each visit stands at its own identifier, and the table lists it.
abbrev pub IsKeyed : World → Type 0
IsKeyed w =
    (i : Key) (v : Visit)
    → w.db.visits.at i ≡ some v
    → (v.id ≡ i) × Any (λ k. k ≡ i) w.db.visits.keys

abbrev listed : (Visit → Option DashboardVisitDto) → Option Visit → Option DashboardVisitDto
listed to_dto none = none
listed to_dto (some v) = to_dto v

-- The abstract dashboard: what a restaurant should see under each identifier.
unfoldable pub shown : Client → Key → World → Key → Option DashboardVisitDto
shown c r w i = listed (to_visit_dto c w) (select (is_listed r) (w.db.visits.at i))

abbrev pub find_dto : Key → List DashboardVisitDto → Option DashboardVisitDto
find_dto i ds = find (λ d. d.id == i) ds

-- A list of the dashboard that agrees with the database: each identifier is looked up to what it
-- should show.
abbrev pub Shows : Client → Key → World → List DashboardVisitDto → Type 0
Shows c r w ds = (i : Key) → find_dto i ds ≡ shown c r w i

module _ {A : Type 0} where
  find-Among :
      (p : A → Bool) (l : List A) (d : A) → find p l ≡ some d → Any (λ x. x ≡ d) l × (p d ≡ true)
  find-Among p [] d h = absurd (ground arith)
  find-Among p (x ∷ xs) d h = elim (Bool-cases (p x)) [
    | inl y ↦ let e : x ≡ d = ground arith in (inl e, rw (← e) y)
    | inr n ↦ let (m, q) = find-Among p xs d (ground arith) in (inr m, q)
  ]

  find-none :
      (p : A → Bool) (l : List A) (d : A) → find p l ≡ none → Any (λ x. x ≡ d) l → p d ≡ false
  find-none p [] d h m = absurd m
  find-none p (x ∷ xs) d h (inl e) = rw (← e) (ground arith)
  find-none p (x ∷ xs) d h (inr m) = find-none p xs d (ground arith) m

  module _ (at : Key → Option A) (test : A → Bool) where
    rows_at-skip :
        (i : Key) (is : List Key)
        → select test (at i) ≡ none
        → rows_at at test (i ∷ is) ≡ rows_at at test is
    rows_at-skip i is e = ground arith

    rows_at-take :
        (i : Key) (is : List Key) (a : A)
        → select test (at i) ≡ some a
        → rows_at at test (i ∷ is) ≡ a ∷ rows_at at test is
    rows_at-take i is a e = ground arith

    rows_at_sound :
        (is : List Key) (v : A)
        → Any (λ x. x ≡ v) (rows_at at test is)
        → (i : Key) × (select test (at i) ≡ some v)
    rows_at_sound [] v m = absurd m
    rows_at_sound (i ∷ is) v m = elim (Option-cases (select test (at i))) [
      | inl e ↦ rows_at_sound is v (subst (Any λ x. x ≡ v) (rows_at-skip i is e) m)
      | inr (r, e) ↦ elim (subst (Any λ x. x ≡ v) (rows_at-take i is r e) m) [
        | inl s ↦ (i, e ∙ ap some s)
        | inr rest ↦ rows_at_sound is v rest
      ]
    ]

    rows_at_complete :
        (is : List Key) (i : Key) (v : A)
        → Any (λ k. k ≡ i) is
        → select test (at i) ≡ some v
        → Any (λ x. x ≡ v) (rows_at at test is)
    rows_at_complete [] i v m e = absurd m
    rows_at_complete (j ∷ is) i v (inl s) e =
        rw (rows_at-take j is v (ap (λ k. select test (at k)) s ∙ e)) (inl refl)
    rows_at_complete (j ∷ is) i v (inr m) e = elim (Option-cases (select test (at j))) [
      | inl f ↦ rw (rows_at-skip j is f) (rows_at_complete is i v m e)
      | inr (r, f) ↦ rw (rows_at-take j is r f) (inr (rows_at_complete is i v m e))
    ]

module _ (f : Visit → Option DashboardVisitDto) where
  collect-cons :
      (v : Visit) (vs : List Visit) (ds : List DashboardVisitDto)
      → collect f (v ∷ vs) ≡ some ds
      → (d : DashboardVisitDto) × (rest : List DashboardVisitDto) × (f v ≡ some d)
        × (collect f vs ≡ some rest)
        × (ds ≡ d ∷ rest)
  unfolding collect
  collect-cons v vs ds h = elim (Option-cases (f v)) [
    | inl e ↦ absurd (ground arith)
    | inr (d, e) ↦ elim (Option-cases (collect f vs)) [
      | inl n ↦ absurd (ground arith)
      | inr (rest, q) ↦ (d, rest, e, q, ground arith)
    ]
  ]

  collect_sound :
      (vs : List Visit) (ds : List DashboardVisitDto)
      → collect f vs ≡ some ds
      → (d : DashboardVisitDto) → Any (λ x. x ≡ d) ds
      → (v : Visit) × Any (λ x. x ≡ v) vs × (f v ≡ some d)
  unfolding collect
  collect_sound [] ds h d m =
      let ds_empty : ds ≡ [] = ground arith in
      let none_left : Any (λ x. x ≡ d) [] = rw ds_empty at m in absurd none_left
  collect_sound (v ∷ vs) ds h d m =
      let (d0, rest, e, q, s) = collect-cons v vs ds h in
      let here : Any (λ x. x ≡ d) (d0 ∷ rest) = rw s at m in
      elim here [
        | inl same ↦ (v, inl refl, e ∙ ap some same)
        | inr later ↦ let (v', m', e') = collect_sound vs rest q d later in (v', inr m', e')
      ]

  collect_complete :
      (vs : List Visit) (ds : List DashboardVisitDto)
      → collect f vs ≡ some ds
      → (v : Visit) → Any (λ x. x ≡ v) vs
      → (d : DashboardVisitDto) × Any (λ x. x ≡ d) ds × (f v ≡ some d)
  collect_complete [] ds h v m = absurd m
  collect_complete (u ∷ vs) ds h v m =
      let (d0, rest, e, q, s) = collect-cons u vs ds h in
      elim m [
        | inl same ↦ (d0, subst (Any λ x. x ≡ d0) (sym s) (inl refl), ap f (sym same) ∙ e)
        | inr later ↦
            let (d, m', e') = collect_complete vs rest q v later in
            (d, subst (Any λ x. x ≡ d) (sym s) (inr m'), e')
      ]

to_visit_dto_id :
    (c : Client) (w : World) (v : Visit) (d : DashboardVisitDto)
    → to_visit_dto c w v ≡ some d
    → d.id ≡ v.id
unfolding to_visit_dto
to_visit_dto_id c w v d h = elim (Option-cases v.arrival_eta) [
  | inl e ↦ absurd (ground arith)
  | inr (t, e) ↦ elim (Option-cases (table_of c v.table_id w.db.tables)) [
    | inl n ↦ absurd (ground arith)
    | inr (table, q) ↦ ground arith
  ]
]

module _ (order_by : List Visit → List Visit) (rearranges : Rearranges order_by) (r : Key)
    (w : World) (keyed : IsKeyed w) (ds : List DashboardVisitDto)
    (loaded : list_inbound_visits documented order_by r w ≡ some ds) where
  found_shown :
      (i : Key) (d : DashboardVisitDto) → find_dto i ds ≡ some d → shown documented r w i ≡ some d
  unfolding shown list_inbound_visits
  found_shown i d h =
      let (m, here) = find-Among (λ x. x.id == i) ds d h in
      let (v, among, e) = collect_sound (to_visit_dto documented w) _ ds loaded d m in
      let (j, at_j) =
        rows_at_sound w.db.visits.at (is_listed r) w.db.visits.keys v ((rearranges _ v).0 among) in
      let (v_id, listed_key) = keyed j v (ground arith) in
      let d_id = to_visit_dto_id documented w v d e in
      let j_is : i ≡ j = ground arith in rw j_is (rw at_j e)

  shown_found :
      (i : Key) (v : Visit) (d : DashboardVisitDto)
      → select (is_listed r) (w.db.visits.at i) ≡ some v
      → to_visit_dto documented w v ≡ some d
      → find_dto i ds ≡ none
      → ⊥
  unfolding list_inbound_visits
  shown_found i v d at_i e h =
      let (v_id, listed_key) = keyed i v (ground arith) in
      let (d', m, e') = collect_complete (to_visit_dto documented w) _ ds loaded v (
        (rearranges _ v).1
          (rows_at_complete w.db.visits.at (is_listed r) w.db.visits.keys i v listed_key at_i)) in
      let absent = find-none (λ x. x.id == i) ds d' h m in
      let here = to_visit_dto_id documented w v d' e' in ground arith

  list_inbound_shown : Shows documented r w ds
  unfolding shown
  list_inbound_shown i = elim (Option-cases (find_dto i ds)) [
    | inr (d, e) ↦ e ∙ sym (found_shown i d e)
    | inl e ↦ elim (Option-cases (select (is_listed r) (w.db.visits.at i))) [
      | inl n ↦ ground arith
      | inr (v, at_i) ↦ elim (Option-cases (to_visit_dto documented w v)) [
        | inl n ↦ ground arith
        | inr (d, q) ↦ absurd (shown_found i v d at_i q e)
      ]
    ]
  ]

-- The list that the dashboard loads shows each visit as the database has it: looked up by an
-- identifier, it gives that visit if it is the restaurant's, inbound and has a table, and nothing
-- otherwise. Each visit stands at its own identifier in the table, and ORDER BY only rearranges.
pub list_inbound_visits-Shows :
    (c : Client)
    → IsDocumented c
    → (order_by : List Visit → List Visit) → Rearranges order_by
    → (r : Key) (w : World) → IsKeyed w
    → (ds : List DashboardVisitDto) → list_inbound_visits c order_by r w ≡ some ds
    → Shows c r w ds
list_inbound_visits-Shows c l = rw (client-eq c l) list_inbound_shown
