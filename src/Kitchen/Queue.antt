-- ===== src/Kitchen/Queue.antt =====
-- The kitchen queue: the flags that a ticket shows.
use raise.World.{World, items_of}
use raise.Prelude.{
  List, ◌≡◌, ◌++◌, any, ap, ◌||◌, ◌∷◌, ◌==◌, arith, Bool-cases, [], sym, ◌∙◌, inl, refl, inr,
}
use raise.Schema.{AllergenTag, Visit, VisitItem}
use raise.Store.{Client}
use raise.Kitchen.{to_ticket, has_tag, add_tag, distinct_from, flags_of, tag_code}

has_tag-append :
    (t : AllergenTag) (xs ys : List AllergenTag)
    → has_tag t (xs ++ ys) ≡ (has_tag t xs || has_tag t ys)
has_tag-append t [] ys = refl
has_tag-append t (x ∷ xs) ys = ground (arith, has_tag-append t xs ys)

has_tag-same :
    (t u : AllergenTag) (xs : List AllergenTag)
    → tag_code u ≡ tag_code t
    → has_tag t xs ≡ has_tag u xs
has_tag-same t u xs e = ap (λ k. any (λ x. tag_code x == k) xs) (sym e)

has_tag-add_tag :
    (t u : AllergenTag) (seen : List AllergenTag)
    → has_tag t (add_tag seen u) ≡ (has_tag t seen || tag_code u == tag_code t)
has_tag-add_tag t u seen = elim (Bool-cases (has_tag u seen)) [
  | inl old ↦ elim (Bool-cases (tag_code u == tag_code t)) [
    | inl same ↦ ground (arith, has_tag-same t u seen (ground arith))
    | inr other ↦ ground arith
  ]
  | inr new ↦ ground (arith, has_tag-append t seen (u ∷ []))
]

has_tag-distinct_from :
    (t : AllergenTag) (seen ts : List AllergenTag)
    → has_tag t (distinct_from seen ts) ≡ (has_tag t seen || has_tag t ts)
unfolding distinct_from
has_tag-distinct_from t seen [] = ground arith
has_tag-distinct_from t seen (u ∷ ts) =
    ground (arith, has_tag-distinct_from t (add_tag seen u) ts, has_tag-add_tag t u seen)

has_tag-flags_of :
    (t : AllergenTag) (is : List VisitItem)
    → has_tag t (flags_of is) ≡ any (λ i. has_tag t i.allergy_flags) is
unfolding flags_of
has_tag-flags_of t [] = refl
has_tag-flags_of t (i ∷ is) =
    ground (arith, has_tag-append t i.allergy_flags (flags_of is), has_tag-flags_of t is)

-- A ticket shows an allergen exactly when some item of the visit carries it, acknowledged or not.
pub to_ticket-allergy_flags :
    (c : Client) (w : World) (v : Visit) (t : AllergenTag)
    → has_tag t (to_ticket c w v).allergy_flags
      ≡ any (λ i. has_tag t i.allergy_flags) (items_of c v.id w)
unfolding to_ticket
to_ticket-allergy_flags c w v t =
    has_tag-distinct_from t [] (flags_of (items_of c v.id w))
    ∙ has_tag-flags_of t (items_of c v.id w)
