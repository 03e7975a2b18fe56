-- ===== src/Http/Tenants.antt =====
-- What an action leaves alone: every row of another restaurant. The actions that do so compose.
use raise.MenuItems.{MenuItemUpdateInput, update_items, updated_item}
use raise.World.{M, World, for_restaurant, Result-cases}
use raise.Schema.{VisitStatusEvent}
use raise.Store.{Key, select, change, documented, put}
use raise.Prelude.{
  ◌≡◌, Option, none, some, ◌∷◌, [], Bool, ◌==◌, Bool-cases, inl, inr, arith, refl, ◌∙◌, keep, ◌&&◌,
  ap,
}

-- The rows of restaurant `q` are as they were.
pub record Apart (q : Key) (w w' : World) : Type 0 where
  pub visits :
      (i : Key)
      → select (λ x. x.restaurant_id == q) (w'.db.visits.at i)
        ≡ select (λ x. x.restaurant_id == q) (w.db.visits.at i)
  pub tables :
      (i : Key)
      → select (λ x. x.restaurant_id == q) (w'.db.tables.at i)
        ≡ select (λ x. x.restaurant_id == q) (w.db.tables.at i)
  pub menu_items :
      (i : Key)
      → select (λ x. x.restaurant_id == q) (w'.db.menu_items.at i)
        ≡ select (λ x. x.restaurant_id == q) (w.db.menu_items.at i)
  pub visit_items :
      (i : Key)
      → select (λ x. x.restaurant_id == q) (w'.db.visit_items.at i)
        ≡ select (λ x. x.restaurant_id == q) (w.db.visit_items.at i)
  pub acks :
      (i : Key)
      → select (λ x. x.restaurant_id == q) (w'.db.allergy_acks.at i)
        ≡ select (λ x. x.restaurant_id == q) (w.db.allergy_acks.at i)
  pub audit :
      keep (λ e. e.restaurant_id == q) w'.db.status_events
      ≡ keep (λ e. e.restaurant_id == q) w.db.status_events

abbrev pub Isolates : {A : Type 0} → Key → M A → Type 0
Isolates q m = (w : World) → Apart q w (m w).1

pub Apart-same : (q : Key) (w w' : World) → w'.db ≡ w.db → Apart q w w'
Apart-same q w w' e = record {
  visits = λ i. rw e refl;
  tables = λ i. rw e refl;
  menu_items = λ i. rw e refl;
  visit_items = λ i. rw e refl;
  acks = λ i. rw e refl;
  audit = rw e refl;
}

pub Apart-trans : (q : Key) (w m w' : World) → Apart q w m → Apart q m w' → Apart q w w'
Apart-trans q w m w' a b = record {
  visits = λ i. b.visits i ∙ a.visits i;
  tables = λ i. b.tables i ∙ a.tables i;
  menu_items = λ i. b.menu_items i ∙ a.menu_items i;
  visit_items = λ i. b.visit_items i ∙ a.visit_items i;
  acks = λ i. b.acks i ∙ a.acks i;
  audit = b.audit ∙ a.audit;
}

-- An update under a condition that a row of `q` does not meet.
pub changed_apart :
    {R : Type 0} (tenant : R → Key) (q r : Key) (test : R → Bool) (f : R → R)
    → (r ≡ q → ⊥)
    → ((x : R) → tenant (f x) ≡ tenant x)
    → (o : Option R)
    → select (λ x. tenant x == q) (change (λ x. tenant x == r && test x) f o)
      ≡ select (λ x. tenant x == q) o
changed_apart tenant q r test f n same none = refl
changed_apart tenant q r test f n same (some x) = let k = same x in ground arith

updated_apart :
    {R : Type 0} (tenant : R → Key) (q r : Key) (f : R → R)
    → (r ≡ q → ⊥)
    → ((x : R) → tenant (f x) ≡ tenant x)
    → (o : Option R)
    → select (λ x. tenant x == q) (change (λ x. tenant x == r) f o) ≡ select (λ x. tenant x == q) o
updated_apart tenant q r f n same none = refl
updated_apart tenant q r f n same (some x) = let k = same x in ground arith

-- Nothing of `q` is seen to change where the new entry looks like the old one.
pub put_apart :
    {R : Type 0} (seen : Option R → Option R) (at : Key → Option R) (v : Key) (new : Option R)
    → seen new ≡ seen (at v)
    → (i : Key) → seen (put at v new i) ≡ seen (at i)
put_apart seen at v new e i = elim (Bool-cases (v == i)) [
  | inl y ↦ let same : v ≡ i = ground arith in rw y (e ∙ ap (λ k. seen (at k)) same)
  | inr n ↦ rw n refl
]

module _ (q : Key) where
  pub Isolates-transaction : {A : Type 0} (m : M A) → Isolates q m → Isolates q (for_restaurant m)
  Isolates-transaction m h w = elim (Result-cases (m w).0) [
    | inl (a, e) ↦ rw e (h w)
    | inr (f, e) ↦ rw e (Apart-same q w _ refl)
  ]

  module _ (r : Key) (apart : r ≡ q → ⊥) where
    pub none_kept :
        (e : VisitStatusEvent)
        → e.restaurant_id ≡ r
        → keep (λ x. x.restaurant_id == q) (e ∷ []) ≡ []
    none_kept e here = elim (Bool-cases (e.restaurant_id == q)) [
      | inl y ↦ absurd (apart (ground arith))
      | inr n ↦ rw n refl
    ]

    pub Isolates-update_items :
        (id : Key) (input : MenuItemUpdateInput) → Isolates q (update_items documented r id input)
    Isolates-update_items id input w = record {
      visits = λ i. refl;
      tables = λ i. refl;
      menu_items = put_apart (select (λ x. x.restaurant_id == q)) w.db.menu_items.at id _ (
          updated_apart (λ x. x.restaurant_id) q r (updated_item input) apart (λ x. refl)
            (w.db.menu_items.at id));
      visit_items = λ i. refl;
      acks = λ i. refl;
      audit = refl;
    }
